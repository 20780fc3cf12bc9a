-- ===== src/Process/Cold.antt =====
-- `process_all` from a cache that is not set up: from what ground control has stored and what the
-- queue holds to the images in the ring buffer.
use dipp.Base.{
  ℕ, suc, ◌+◌, ◌*◌, ◌≡◌, ◌≤◌, refl, ap, sym, ◌∙◌, List, [], ◌∷◌, some, none, Bool, true, false,
  arith, length,
}
use dipp.Types.{Text, Pipeline, ModuleParameterList}
use dipp.Machine.{Env, State, History, msgget}
use dipp.Machine.Hoare.{Returns, Returns-bind, Returns-mono, Returns-both}
use dipp.Machine.Trace.{ring_writes, Untouched}
use dipp.Logger.{buffer_size}
use dipp.Config.{setup_cache_if_needed}
use dipp.Config.{max_modules, max_pipelines}
use dipp.Config.Shape.{WellFormed, WellFormed-Kept}
use dipp.Config.Spec.{Configuration, cached_pipelines, cached_parameters}
use dipp.Config.Refined.{Cached, setup_cache_if_needed-Cached}
use dipp.Config.Aside.{setup_cache_if_needed-Aside}
use dipp.Upload.Blocks.{pushed}
use dipp.Process.Queue.{batch_of_bytes, copy_message, get_message_from_queue}
use dipp.Process.Loop.{log_global, process_message, process_all}
use dipp.Process.Compose.{ModuleFunctions, Steady}
use dipp.Process.Message.{message-round_trip, length-text}
use dipp.Process.Kept.{received, Untouched-received}
use dipp.Process.Delivery.{Untouched-ring_writes}
use dipp.Process.Rounds.{Job, Marked, Stands, log_global-Marked, delivery-Stands}
use dipp.Process.Drained.{
  text_of, answer, Drained, get_message-Marked, no_message-Drained, process_all-Drained,
}

module _ (env : Env) (f : ModuleFunctions) (steady : Steady env f) (conf : Configuration env)
    (old : List Pipeline) (old_lists : List ModuleParameterList) (file : Text) where
  -- The tables of the specification.
  abbrev table : List Pipeline
  table = cached_pipelines conf old

  abbrev lists : List ModuleParameterList
  lists = cached_parameters conf old_lists

  -- Before the cache is set up, and behind it.
  abbrev pub Stale : List (List ℕ) → ℕ → ℕ → State → Type 0
  Stale writes k m s = Marked env f steady old old_lists file false writes k m s

  abbrev Fresh : List (List ℕ) → ℕ → ℕ → State → Type 0
  Fresh writes k m s = Stands env f steady table lists file writes k m s

  setup-Fresh :
      (writes : List (List ℕ)) (k m : ℕ) (s : State)
      → WellFormed s
      → length old ≡ max_pipelines
      → length old_lists ≡ max_modules
      → Stale writes k m s
      → Returns (λ r t. Fresh writes k m t) (setup_cache_if_needed env s)
  setup-Fresh writes k m s w six twenty at_s =
      Returns-mono (λ r t. Cached conf s r t × Untouched s.trace t.trace)
        (λ r t. Fresh writes k m t)
        (λ r t q. (
          Untouched-ring_writes env s.trace t.trace q.1 ∙ at_s.0,
          Untouched-received s.trace t.trace q.1 ∙ at_s.1,
          ap (λ v. v.module_parameter_lists) q.0 ∙ ap (cached_parameters conf) at_s.2,
          ap (λ v. v.is_setup) q.0,
          ap (λ v. v.pipelines) q.0 ∙ ap (cached_pipelines conf) at_s.4,
          ap (λ v. v.logger) q.0 ∙ at_s.5,
          ap (λ v. length v.log_entries) q.0 ∙ at_s.6,
        ))
        _
        (Returns-both (Cached conf s) (λ r t. Untouched s.trace t.trace) _
          (setup_cache_if_needed-Cached conf s at_s.3 w (ap length at_s.4 ∙ six)
            (ap length at_s.2 ∙ twenty))
          (setup_cache_if_needed-Aside env s))

  process_message-Fresh :
      (job : Job env f table lists) (bytes : List ℕ) (writes : List (List ℕ)) (k m : ℕ) (s : State)
      → batch_of_bytes bytes ≡ job.batch
      → WellFormed s
      → length old ≡ max_pipelines
      → length old_lists ≡ max_modules
      → Stale writes k m s
      → m + 3 ≤ buffer_size
      → Returns
          (λ next t. Fresh (pushed job.shots writes) k (m + 1 + 1 + 1) t)
          (process_message env bytes s)
  unfolding process_message
  process_message-Fresh job bytes writes k m s e w six twenty at_s room =
      Returns-bind (λ r t. Stale writes k (m + 1) t) _ (log_global env _) _ s
        (log_global-Marked env f steady old old_lists file false _ writes k m s at_s (omega arith))
        (λ r t at_t.
          Returns-bind (λ r t. Fresh writes k (m + 1) t) _ (setup_cache_if_needed env) _ t
            (setup-Fresh writes k (m + 1) t
              (WellFormed-Kept s t (at_t.4 ∙ sym at_s.4, at_t.2 ∙ sym at_s.2) w) six twenty at_t)
            (λ r u at_u.
              delivery-Stands env f steady table lists file job (batch_of_bytes bytes) writes k
                (m + 1) u e at_u (omega arith)))

  -- While the kernel works, every module returns its function's value, and the libraries answer for
  -- what stands in the parameters: let the cache be not set up, with six pipelines and the
  -- parameters of twenty modules in well-formed tables; let the queue hold the messages of these
  -- jobs and then no more, each a batch that can be delivered from the tables that the
  -- specification makes of the configuration; and let a log file be open, with room for three
  -- entries for each job. Then `process_all` ends within one round more than there are jobs, and
  -- the ring buffer has got one observation for each image of each job, whole and in order.
  pub process_all-Configured :
      (jobs : List (Job env f table lists)) (datarcv : List ℕ) (do_wait : Bool)
      (writes : List (List ℕ)) (k m : ℕ) (s : State)
      → ((h : History) → env.msgget_ok h ≡ true)
      → ((h : History) (n : ℕ)
          → received h ≡ k + n
          → env.receive do_wait h ≡ answer env f steady table lists file jobs n)
      → WellFormed s
      → length old ≡ max_pipelines
      → length old_lists ≡ max_modules
      → Stale writes k m s
      → m + 3 * length jobs ≤ buffer_size
      → Returns
          (Drained env f steady table lists file jobs writes)
          (process_all env (suc (length jobs)) datarcv do_wait s)
  unfolding process_all
  process_all-Configured [] datarcv do_wait writes k m s found queue w six twenty at_s room =
      Returns-bind (λ r t. (r ≡ none) × (ring_writes t.trace ≡ writes))
        (Drained env f steady table lists file [] writes)
        (get_message_from_queue env datarcv do_wait) _ s
        (no_message-Drained env f steady table lists file datarcv do_wait writes s (found s.trace)
          (queue (msgget ∷ s.trace) 0 (omega (arith, at_s.1))) at_s.0)
        (λ r t (e, same). rw (e, Returns) (refl, same))
  process_all-Configured (job ∷ jobs) datarcv do_wait writes k m s found queue w six twenty at_s
        room =
      Returns-bind
        (λ r t.
          (r ≡ some (copy_message (text_of env f steady table lists file job) datarcv))
          × Stale writes (k + 1) m t)
        (Drained env f steady table lists file (job ∷ jobs) writes)
        (get_message_from_queue env datarcv do_wait) _ s
        (get_message-Marked env f steady old old_lists file false
          (text_of env f steady table lists file job) datarcv do_wait writes k m s
          (length-text job.batch job.extra job.extra_bytes) (found s.trace)
          (queue (msgget ∷ s.trace) 0 (omega (arith, at_s.1))) at_s)
        (λ r t (e, at_t).
          rw (e, Returns)
            (Returns-bind (λ next u. Fresh (pushed job.shots writes) (k + 1) (m + 1 + 1 + 1) u)
              (Drained env f steady table lists file (job ∷ jobs) writes)
              (process_message env
                (copy_message (text_of env f steady table lists file job) datarcv))
              _ t
              (process_message-Fresh job
                (copy_message (text_of env f steady table lists file job) datarcv) writes (k + 1) m
                t (message-round_trip job.batch job.extra datarcv job.sent job.extra_bytes)
                (WellFormed-Kept s t (at_t.4 ∙ sym at_s.4, at_t.2 ∙ sym at_s.2) w) six twenty at_t
                (omega arith))
              (λ next u at_u.
                process_all-Drained env f steady table lists file jobs next do_wait
                  (pushed job.shots writes) (k + 1) (m + 1 + 1 + 1) u found
                  (λ h n counted. queue h (suc n) (omega arith)) at_u (omega arith))))
