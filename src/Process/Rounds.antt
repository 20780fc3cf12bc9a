-- ===== src/Process/Rounds.antt =====
-- One round of `process_all`: the messages to the log, and the batch on its way.
use dipp.Base.Text.{codes}
use dipp.Process.Queue.{batch_bytes}
use dipp.Base.{
  Bool, ℕ, ◌+◌, ◌≡◌, ◌≤◌, ◌<◌, ◌^◌, refl, ap, ◌∙◌, List, ◌∷◌, ◌++◌, some, arith, length, take, true,
  length-append, lt→ltb,
}
use dipp.Base.Int.{pos, eq_ℤ}
use dipp.Types.{Text, ImageBatch, Module, Pipeline, ModuleParameterList}
use dipp.Machine.{pure, ◌>>=◌, ◌>>◌, Env, State, History, attached}
use dipp.Machine.Hoare.{Returns, Returns-bind, Returns-mono}
use dipp.Machine.Trace.{ring_writes}
use dipp.Logger.{buffer_size, logger_log_print, add_entry}
use dipp.Config.{setup_cache_if_needed}
use dipp.Upload.Blocks.{Shot, layout, pushed, Unpacks}
use dipp.Process.Batch.{process}
use dipp.Process.Queue.{batch_of_bytes}
use dipp.Process.Loop.{log_global, process_message}
use dipp.Process.Compose.{ModuleFunctions, Steady, AllLoaded, compose}
use dipp.Process.Message.{IsSent}
use dipp.Process.Kept.{received}
use dipp.Process.Delivery.{NoneHas, Delivered, process-Delivered}

-- A batch that can be delivered: what is sent, the pipeline that the tables have for it, the batch
-- that its modules make, and the segment that this batch names.
pub record Job (env : Env) (f : ModuleFunctions) (table : List Pipeline)
    (lists : List ModuleParameterList) : Type 0 where
  pub batch : ImageBatch
  pub extra : List ℕ
  pub earlier : List Pipeline
  pub later : List Pipeline
  pub pipeline : Pipeline
  pub modules : List Module
  pub result : ImageBatch
  pub shots : List Shot
  pub slack : List ℕ
  pub address : ℕ
  pub sent : IsSent batch
  pub extra_bytes : length extra ≡ 8
  pub in_table : table ≡ earlier ++ pipeline ∷ later
  pub first : NoneHas batch.pipeline_id earlier
  pub named : eq_ℤ pipeline.pipeline_id batch.pipeline_id ≡ true
  pub counted : pipeline.num_modules ≡ length modules
  pub few : length modules ≤ 255
  pub listed : take (length modules) pipeline.modules ≡ modules
  pub loaded : AllLoaded modules
  pub made : compose f lists modules batch ≡ result
  pub num_images : result.num_images ≡ pos (length shots)
  pub batch_size : result.batch_size ≡ pos (length (layout shots))
  pub fits : length (layout shots) < 2 ^ 31
  pub unpacks : Unpacks env shots
  pub attaches :
      (h : History) → env.attach result.shmid h ≡ attached address (layout shots ++ slack)
  pub detaches : (h : History) → env.detach_ok h ≡ true
  pub removes : (h : History) → env.remove_ok result.shmid h ≡ true

module _ (env : Env) (f : ModuleFunctions) (steady : Steady env f) (table : List Pipeline)
    (lists : List ModuleParameterList) (file : Text) where
  -- The tables are these, and the cache is marked as `ready` says; these observations, the newest
  -- first, are in the ring buffer; `k` messages have been received, and `m` entries are in the log.
  abbrev pub Marked : Bool → List (List ℕ) → ℕ → ℕ → State → Type 0
  Marked ready writes k m s =
      (ring_writes s.trace ≡ writes)
      × (received s.trace ≡ k)
      × (s.module_parameter_lists ≡ lists)
      × (s.is_setup ≡ ready)
      × (s.pipelines ≡ table)
      × (s.logger ≡ some file)
      × (length s.log_entries ≡ m)

  -- The cache is set up from these tables.
  abbrev pub Stands : List (List ℕ) → ℕ → ℕ → State → Type 0
  Stands writes k m s = Marked true writes k m s

  pub log_global-Marked :
      (ready : Bool) (text : Text) (writes : List (List ℕ)) (k m : ℕ) (s : State)
      → Marked ready writes k m s
      → m < buffer_size
      → Returns (λ r t. Marked ready writes k (m + 1) t) (log_global env text s)
  unfolding log_global logger_log_print add_entry
  log_global-Marked ready text writes k m s at_s room =
      rw (at_s.5, lt→ltb (length s.log_entries) buffer_size (omega (arith, at_s.6)), Returns)
        (
          at_s.0,
          at_s.1,
          at_s.2,
          at_s.3,
          at_s.4,
          refl,
          length-append s.log_entries _ ∙ ap (λ n. n + 1) at_s.6,
        )

  setup-Stands :
      (writes : List (List ℕ)) (k m : ℕ) (s : State)
      → Stands writes k m s
      → Returns (λ r t. Stands writes k m t) (setup_cache_if_needed env s)
  unfolding setup_cache_if_needed
  setup-Stands writes k m s at_s =
      rw (at_s.3, Returns) (at_s.0, at_s.1, at_s.2, refl, at_s.4, at_s.5, at_s.6)

  process-Stands :
      (job : Job env f table lists) (batch : ImageBatch) (writes : List (List ℕ)) (k m : ℕ)
      (s : State)
      → batch ≡ job.batch
      → Stands writes k m s
      → Returns (λ b t. Stands (pushed job.shots writes) k m t) (process env batch s)
  process-Stands job batch writes k m s e at_s = rw e (
      Returns-mono (Delivered env job.shots job.result job.address s)
        (λ b t. Stands (pushed job.shots writes) k m t)
        (λ b t d. (
          d.1.0 ∙ ap (pushed job.shots) at_s.0,
          d.2.0 ∙ at_s.1,
          d.2.1 ∙ at_s.2,
          d.2.2 ∙ at_s.3,
          d.2.3 ∙ at_s.4,
          d.2.4 ∙ at_s.5,
          ap length d.2.5 ∙ at_s.6,
        ))
        _
        (process-Delivered env f steady job.earlier job.later job.pipeline job.modules job.batch
          job.result job.shots job.slack job.address s (at_s.4 ∙ job.in_table) job.first job.named
          job.counted job.few job.listed job.loaded
          (ap (λ l. compose f l job.modules job.batch) at_s.2 ∙ job.made) job.num_images
          job.batch_size job.fits job.unpacks job.attaches job.detaches job.removes))

  -- The round behind the set-up of the cache.
  pub delivery-Stands :
      (job : Job env f table lists) (batch : ImageBatch) (writes : List (List ℕ)) (k m : ℕ)
      (s : State)
      → batch ≡ job.batch
      → Stands writes k m s
      → m + 2 ≤ buffer_size
      → Returns
          (λ next t. Stands (pushed job.shots writes) k (m + 1 + 1) t)
          ((log_global env (codes "Cache rebuilt")
              >> (process env batch >>= λ result.
                  log_global env (codes "Batch processing started") >> pure (batch_bytes result)))
            s)
  delivery-Stands job batch writes k m s e at_s room =
      Returns-bind (λ r t. Stands writes k (m + 1) t) _ (log_global env _) _ s
        (log_global-Marked true _ writes k m s at_s (omega arith))
        (λ r t at_t.
          Returns-bind (λ b t. Stands (pushed job.shots writes) k (m + 1) t) _ (process env batch) _
            t (process-Stands job batch writes k (m + 1) t e at_t)
            (λ b u at_u.
              Returns-bind (λ r t. Stands (pushed job.shots writes) k (m + 1 + 1) t) _
                (log_global env _) _ u
                (log_global-Marked true _ (pushed job.shots writes) k (m + 1) u at_u (omega arith))
                (λ r v at_v. at_v)))

  pub process_message-Stands :
      (job : Job env f table lists) (bytes : List ℕ) (writes : List (List ℕ)) (k m : ℕ) (s : State)
      → batch_of_bytes bytes ≡ job.batch
      → Stands writes k m s
      → m + 3 ≤ buffer_size
      → Returns
          (λ next t. Stands (pushed job.shots writes) k (m + 1 + 1 + 1) t)
          (process_message env bytes s)
  unfolding process_message
  process_message-Stands job bytes writes k m s e at_s room =
      Returns-bind (λ r t. Stands writes k (m + 1) t) _ (log_global env _) _ s
        (log_global-Marked true _ writes k m s at_s (omega arith))
        (λ r t at_t.
          Returns-bind (λ r t. Stands writes k (m + 1) t) _ (setup_cache_if_needed env) _ t
            (setup-Stands writes k (m + 1) t at_t)
            (λ r u at_u.
              delivery-Stands job (batch_of_bytes bytes) writes k (m + 1) u e at_u (omega arith)))
