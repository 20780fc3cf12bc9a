-- ===== src/Process/Between.antt =====
-- What holds between two messages, and that each call on the way of a message keeps it.
use mathlib.Core.Path.{subst}
use dipp.Base.{
  ℕ, suc, ◌≡◌, ◌≢◌, ◌≤◌, ◌⊎◌, refl, sym, ap, ◌∙◌, List, [], ◌∷◌, some, Bool, arith, get_elem?, inl,
  inr, Option-cases,
}
use dipp.Base.Int.{ℤ}
use dipp.Types.{Text, Status, success, failure, ImageBatch, Pipeline}
use dipp.Machine.{
  Env, State, History, ShmAddr, null, minus_one, attached, msgrcv, shmat, shmdt, shmctl_rmid, pure,
  ◌>>=◌, ◌>>◌,
}
use dipp.Machine.Hoare.{
  IfReturns, IfReturns-bind, IfReturns-mono, IfReturns-both, Returns-mono, Returns-IfReturns,
}
use dipp.Machine.Trace.{segment_events, Untouched}
use dipp.Errors.{set_error_param}
use dipp.Logger.{logger_log_print, add_entry}
use dipp.Config.{setup_cache_if_needed}
use dipp.Config.Aside.{setup_cache_if_needed-Aside}
use dipp.Config.Shape.{WellFormed, Bounded, WellFormed-Kept}
use dipp.Config.Ready.{SetUp, setup_cache_if_needed-SetUp}
use dipp.Upload.{upload}
use dipp.Upload.Frame.{writes_onto}
use dipp.Upload.Vars.{SameVars, upload-SameVars}
use dipp.Process.Batch.{
  memory_at, load_pipeline_and_execute, upload_result, free_segment, use_segment, process,
}
use dipp.Process.Queue.{get_message_from_queue}
use dipp.Process.Loop.{log_global}
use dipp.Process.Pipeline.{Held}
use dipp.Process.Segment.{AllCounted, Attached, load_pipeline-Held, process-Disposed}

-- The history of segments, ring buffer and queue, the newest first: the queue has been asked for
-- messages, and every segment that was attached has had observations written from it, and has then
-- had the calls of `shmdt` with its address and of `shmctl` to remove it, before anything else.
pub data Clean : History → Type 0 where
  nothing : Clean []
  asked : (do_wait : Bool) {h : History} → Clean h → Clean (msgrcv do_wait ∷ h)
  disposed :
      (id : ℤ) (address : ℕ) (ws : List (List ℕ)) {h : History}
      → Clean h
      → Clean (shmctl_rmid id ∷ shmdt address ∷ writes_onto ws (shmat id address ∷ h))

-- The tables are as they were.
abbrev Tables : State → State → Type 0
Tables s t = (t.pipelines ≡ s.pipelines) × (t.module_parameter_lists ≡ s.module_parameter_lists)

-- What holds between two messages.
abbrev pub Between : State → Type 0
Between s = WellFormed s × Clean (segment_events s.trace)

AllCounted-get_elem? :
    (ps : List Pipeline)
    → ((j : ℕ) (p : Pipeline) → get_elem? ps j ≡ some p → p.num_modules ≤ 255)
    → AllCounted ps
AllCounted-get_elem? [] each = tt
AllCounted-get_elem? (p ∷ ps) each =
    (each 0 p refl, AllCounted-get_elem? ps (λ j q e. each (suc j) q e))

WellFormed-AllCounted : (s : State) → WellFormed s → AllCounted s.pipelines
WellFormed-AllCounted s w =
    AllCounted-get_elem? s.pipelines (λ j p e. omega (arith, (w.entries j p e).2))

Between-Tables : (s t : State) → Tables s t → Untouched s.trace t.trace → Between s → Between t
Between-Tables s t k u b = (WellFormed-Kept s t k b.0, subst Clean (sym u) b.1)

module _ (env : Env) where
  upload_result-Tables :
      (status : Status) (address : ShmAddr) (b : ImageBatch) (s : State)
      → IfReturns (λ c t. Tables s t) (upload_result env status address b s)
  unfolding upload_result
  upload_result-Tables failure address b s = (refl, refl)
  upload_result-Tables success address b s =
      IfReturns-bind (λ r t. SameVars s t) _
        (upload env (memory_at address) b.num_images b.batch_size) _ s
        (upload-SameVars env (memory_at address) b.num_images b.batch_size s)
        (λ r t same. (ap (λ v. v.pipelines) same, ap (λ v. v.module_parameter_lists) same))

  free_segment-Tables :
      (address : ShmAddr) (id : ℤ) (s : State)
      → IfReturns (λ r t. Tables s t) (free_segment env address id s)
  unfolding free_segment set_error_param
  free_segment-Tables address id s = ground arith

  finish-Tables :
      (status : Status) (address : ShmAddr) (b : ImageBatch) (s : State)
      → IfReturns
          (λ c t. Tables s t)
          ((upload_result env status address b >>= λ c. free_segment env address c.shmid >> pure c)
            s)
  finish-Tables status address b s =
      IfReturns-bind (λ c t. Tables s t) (λ c t. Tables s t) (upload_result env status address b) _
        s (upload_result-Tables status address b s)
        (λ c t k.
          IfReturns-bind (λ r u. Tables t u) (λ c u. Tables s u) (free_segment env address c.shmid)
            (λ r. pure c) t (free_segment-Tables address c.shmid t)
            (λ r u l. (l.0 ∙ k.0, l.1 ∙ k.1)))

  use_segment-Tables :
      (status : Status) (address : ShmAddr) (b : ImageBatch) (s : State)
      → address ≢ null
      → IfReturns (λ c t. Tables s t) (use_segment env status address b s)
  unfolding use_segment
  use_segment-Tables status null b s n = absurd (n refl)
  use_segment-Tables status minus_one b s n = finish-Tables status minus_one b s
  use_segment-Tables status (attached a bytes) b s n = finish-Tables status (attached a bytes) b s

  -- What asking for a message does.
  abbrev Asked : Bool → State → State → Type 0
  Asked do_wait s t =
      Tables s t
      × (Untouched s.trace t.trace
          ⊎ (segment_events t.trace ≡ msgrcv do_wait ∷ segment_events s.trace))

  get_message-Asked :
      (datarcv : List ℕ) (do_wait : Bool) (s : State)
      → IfReturns (λ r t. Asked do_wait s t) (get_message_from_queue env datarcv do_wait s)
  unfolding get_message_from_queue set_error_param
  get_message-Asked datarcv do_wait s = ground arith

  Between-Asked : (do_wait : Bool) (s t : State) → Asked do_wait s t → Between s → Between t
  Between-Asked do_wait s t (k, inl u) b = Between-Tables s t k u b
  Between-Asked do_wait s t (k, inr e) b =
      (WellFormed-Kept s t k b.0, subst Clean (sym e) (asked do_wait b.1))

  pub get_message-Between :
      (datarcv : List ℕ) (do_wait : Bool) (s : State)
      → Between s
      → IfReturns (λ r t. Between t) (get_message_from_queue env datarcv do_wait s)
  get_message-Between datarcv do_wait s b =
      IfReturns-mono (λ r t. Asked do_wait s t) (λ r t. Between t)
        (λ r t q. Between-Asked do_wait s t q b) _ (get_message-Asked datarcv do_wait s)

  log_global-Aside :
      (text : Text) (s : State)
      → IfReturns (λ r t. Tables s t × Untouched s.trace t.trace) (log_global env text s)
  unfolding log_global logger_log_print add_entry
  log_global-Aside text s = elim (Option-cases s.logger) [
    | inl e ↦ rw (e, IfReturns) ((refl, refl), refl)
    | inr (file, e) ↦ rw (e, IfReturns) (ground arith)
  ]

  pub log_global-Between :
      (text : Text) (s : State) → Between s → IfReturns (λ r t. Between t) (log_global env text s)
  log_global-Between text s b =
      IfReturns-mono (λ r t. Tables s t × Untouched s.trace t.trace) (λ r t. Between t)
        (λ r t q. Between-Tables s t q.0 q.1 b) _ (log_global-Aside text s)

module _ (env : Env) (address : (id : ℤ) (h : History) → env.attach id h ≢ null)
    (bounded : Bounded env) where
  pub setup-Between :
      (s : State) → Between s → IfReturns (λ r t. Between t) (setup_cache_if_needed env s)
  setup-Between s b =
      IfReturns-mono (λ r t. WellFormed t × Untouched s.trace t.trace) (λ r t. Between t)
        (λ r t q. (q.0, subst Clean (sym q.1) b.1)) _
        (IfReturns-both (λ r t. WellFormed t) (λ r t. Untouched s.trace t.trace) _
          (Returns-IfReturns (λ r t. WellFormed t) _
            (Returns-mono (SetUp s) (λ r t. WellFormed t) (λ r t q. q.0) _
              (setup_cache_if_needed-SetUp env bounded s b.0)))
          (setup_cache_if_needed-Aside env s))

  process-Tables :
      (batch : ImageBatch) (s : State)
      → AllCounted s.pipelines
      → IfReturns (λ c t. Tables s t) (process env batch s)
  unfolding process
  process-Tables batch s c =
      IfReturns-bind (λ r t. Held s t) (λ c u. Tables s u) (load_pipeline_and_execute env batch) _ s
        (load_pipeline-Held env batch s c)
        (λ r t h.
          IfReturns-mono (λ c u. Tables t u) (λ c u. Tables s u) (λ c u k. (k.0 ∙ h.1, k.1 ∙ h.2)) _
            (use_segment-Tables env r.0 (env.attach r.1.shmid t.trace) r.1 _
              (address r.1.shmid t.trace)))

  pub process-Between :
      (batch : ImageBatch) (s : State)
      → Between s
      → IfReturns (λ c t. Between t) (process env batch s)
  process-Between batch s b =
      IfReturns-mono (λ c t. Attached env s c t × Tables s t) (λ c t. Between t)
        (λ c t q. (
          WellFormed-Kept s t q.1 b.0,
          subst Clean (sym q.0.1.0.2) (disposed c.shmid q.0.0 q.0.1.0.0 b.1),
        ))
        _
        (IfReturns-both (Attached env s) (λ c t. Tables s t) _
          (process-Disposed env batch s address (WellFormed-AllCounted s b.0))
          (process-Tables batch s (WellFormed-AllCounted s b.0)))
