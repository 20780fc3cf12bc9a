-- ===== src/Process/Segment.antt =====
-- What `process` does with the shared memory segment of a batch.
use mathlib.Core.Path.{ap₂}
use dipp.Base.{
  ℕ, ◌≢◌, ◌%◌, ◌∙◌, sym, ◌≡◌, ◌≤◌, refl, List, [], ◌∷◌, some, arith, length, inl, inr, Option-cases,
}
use dipp.Base.Int.{ℤ, pos_part, to_u32}
use dipp.Types.{Status, success, failure, ImageBatch, Pipeline}
use dipp.Machine.{
  Env, State, History, ShmAddr, null, minus_one, attached, shmat, shmdt, shmctl_rmid, pure, ◌>>=◌,
  ◌>>◌,
}
use dipp.Machine.Hoare.{IfReturns, IfReturns-bind, IfReturns-mono}
use dipp.Machine.Trace.{segment_events, Untouched}
use dipp.Errors.{set_error_param}
use dipp.Upload.{upload}
use dipp.Upload.Frame.{writes_onto, Written, upload-Written}
use dipp.Process.Batch.{
  address_value, find_pipeline, get_pipeline_by_id, load_pipeline_and_execute, memory_at,
  upload_result, free_segment, use_segment, process,
}
use dipp.Process.Pipeline.{Held, Executed, execute_pipeline-Executed}

-- No pipeline has more modules than `err_current_module` can count.
abbrev pub AllCounted : List Pipeline → Type 0
AllCounted [] = Unit
AllCounted (p ∷ ps) = (p.num_modules ≤ 255) × AllCounted ps

find_pipeline-counted :
    (id : ℤ) (ps : List Pipeline) (p : Pipeline)
    → AllCounted ps
    → find_pipeline id ps ≡ some p
    → p.num_modules ≤ 255
unfolding find_pipeline
find_pipeline-counted id [] p c e = cc
find_pipeline-counted id (q ∷ qs) p c e = ground (arith, find_pipeline-counted id qs p c.1)

-- The state in which a pipeline is executed.
abbrev at_pipeline : Pipeline → State → State
at_pipeline p s = record s { err_current_pipeline = to_u32 p.pipeline_id % 256 }

-- The state behind `shmat`.
abbrev attached_at : ℤ → ShmAddr → State → State
attached_at id a t = record t {
  err_current_pipeline = 0;
  err_current_module = 0;
  trace = shmat id (address_value a) ∷ t.trace;
}

module _ (env : Env) where
  Executed-Held :
      (p : Pipeline) (s : State) (r : Status × ImageBatch) (t : State)
      → Executed env p s r t
      → Held s t
  Executed-Held p s (success, b) t x = x.2
  Executed-Held p s (failure, b) t (inl x) = x.2
  Executed-Held p s (failure, b) t (inr x) = x.4

  pub Executed-Untouched :
      (p : Pipeline) (s : State) (r : Status × ImageBatch) (t : State)
      → Executed env p s r t
      → Untouched s.trace t.trace
  Executed-Untouched p s r t x = (Executed-Held p s r t x).0

  pub load_pipeline-Held :
      (batch : ImageBatch) (s : State)
      → AllCounted s.pipelines
      → IfReturns (λ r t. Held s t) (load_pipeline_and_execute env batch s)
  unfolding load_pipeline_and_execute get_pipeline_by_id set_error_param
  load_pipeline-Held batch s c = elim (Option-cases (find_pipeline batch.pipeline_id s.pipelines)) [
    | inl missing ↦ rw (missing, IfReturns) (refl, refl, refl)
    | inr (p, found) ↦
        rw (found, IfReturns)
          (IfReturns-mono (Executed env p (at_pipeline p s)) (λ r t. Held s t)
            (Executed-Held p (at_pipeline p s)) _
            (execute_pipeline-Executed env p batch (at_pipeline p s)
              (find_pipeline-counted _ _ p c found)))
  ]

  -- The end of `process`: both error variables are zero, the calls that detach this address and
  -- remove this segment have been made, and nothing else has been done to segments and ring buffer than to write observations.
  abbrev pub Disposed : ℤ → ℕ → History → ImageBatch → State → Type 0
  Disposed id a h b t =
      ((ws : List (List ℕ)) × (length ws ≤ pos_part b.num_images)
        × (segment_events t.trace ≡ shmctl_rmid id ∷ shmdt a ∷ writes_onto ws h))
      × (b.shmid ≡ id)
      × (t.err_current_pipeline ≡ 0)
      × (t.err_current_module ≡ 0)

  -- The segment of the batch that is left has been attached first, at some address.
  abbrev pub Attached : State → ImageBatch → State → Type 0
  Attached s b t =
      (address : ℕ) × Disposed b.shmid address (shmat b.shmid address ∷ segment_events s.trace) b t

  abbrev Freed : ℤ → ℕ → State → Unit {0} → State → Type 0
  Freed id a t r u =
      (segment_events u.trace ≡ shmctl_rmid id ∷ shmdt a ∷ segment_events t.trace)
      × (u.err_current_pipeline ≡ t.err_current_pipeline)
      × (u.err_current_module ≡ t.err_current_module)

  free_segment-events :
      (address : ShmAddr) (id : ℤ) (t : State)
      → IfReturns (Freed id (address_value address) t) (free_segment env address id t)
  unfolding free_segment set_error_param
  free_segment-events address id t = ground arith

  upload_result-Written :
      (status : Status) (address : ShmAddr) (b : ImageBatch) (s : State)
      → IfReturns
          (λ c t.
            (c.shmid ≡ b.shmid)
            × (c.num_images ≡ b.num_images)
            × Written (pos_part b.num_images) s t)
          (upload_result env status address b s)
  unfolding upload_result
  upload_result-Written failure address b s = (refl, refl, (([], omega arith, refl), refl, refl))
  upload_result-Written success address b s =
      IfReturns-bind (λ r. Written (pos_part b.num_images) s) _
        (upload env (memory_at address) b.num_images b.batch_size) _ s
        (upload-Written env (memory_at address) b.num_images b.batch_size s)
        (λ r t w. (refl, refl, w))

  -- The whole of the end, behind an address that is not NULL.
  finish-Disposed :
      (status : Status) (address : ShmAddr) (b : ImageBatch) (s : State)
      → s.err_current_pipeline ≡ 0
      → s.err_current_module ≡ 0
      → IfReturns (Disposed b.shmid (address_value address) (segment_events s.trace)) (
          (upload_result env status address b >>= λ c. free_segment env address c.shmid >> pure c)
            s)
  finish-Disposed status address b s hp hm =
      IfReturns-bind
        (λ c t.
          (c.shmid ≡ b.shmid) × (c.num_images ≡ b.num_images) × Written (pos_part b.num_images) s t)
        (Disposed b.shmid (address_value address) (segment_events s.trace))
        (upload_result env status address b) _ s (upload_result-Written status address b s)
        (λ c t w.
          IfReturns-bind (Freed c.shmid (address_value address) t)
            (Disposed b.shmid (address_value address) (segment_events s.trace))
            (free_segment env address c.shmid) (λ r. pure c) t
            (free_segment-events address c.shmid t)
            (λ r u g. (
              (
                w.2.0.0,
                rw w.1 w.2.0.1,
                g.0 ∙ ap₂ (λ id h. shmctl_rmid id ∷ shmdt (address_value address) ∷ h) w.0 w.2.0.2,
              ),
              w.0,
              g.1 ∙ w.2.1 ∙ hp,
              g.2 ∙ w.2.2 ∙ hm,
            )))

  -- The same for `use_segment`, from the state behind `shmat`.
  use_segment-Disposed :
      (status : Status) (address : ShmAddr) (b : ImageBatch) (s : State)
      → address ≢ null
      → s.err_current_pipeline ≡ 0
      → s.err_current_module ≡ 0
      → IfReturns
          (Disposed b.shmid (address_value address) (segment_events s.trace))
          (use_segment env status address b s)
  unfolding use_segment
  use_segment-Disposed status null b s n hp hm = absurd (n refl)
  use_segment-Disposed status minus_one b s n hp hm = finish-Disposed status minus_one b s hp hm
  use_segment-Disposed status (attached a bytes) b s n hp hm =
      finish-Disposed status (attached a bytes) b s hp hm

  -- `shmat` gives an address or (void *)-1, as shmat(2) says. However all else behaves: if
  -- `process` returns, the segment of the batch that it leaves has been attached once, then at most
  -- `num_images` observations have been written, and then `shmdt` has been called once, with the
  -- address that `shmat` gave, and `shmctl` once, to remove the segment, whether the pipeline
  -- succeeded or failed and whatever these two calls answer; and both error variables are zero. No
  -- pipeline may have more than 255 modules.
  pub process-Disposed :
      (batch : ImageBatch) (s : State)
      → ((id : ℤ) (h : History) → env.attach id h ≢ null)
      → AllCounted s.pipelines
      → IfReturns (Attached s) (process env batch s)
  unfolding process
  process-Disposed batch s n c =
      IfReturns-bind (λ r t. Held s t) (Attached s) (load_pipeline_and_execute env batch) _ s
        (load_pipeline-Held batch s c)
        (λ r t u.
          IfReturns-mono
            (Disposed r.1.shmid (address_value (env.attach r.1.shmid t.trace)) (
              shmat r.1.shmid (address_value (env.attach r.1.shmid t.trace))
              ∷ segment_events t.trace))
            (Attached s) (reread r t u.0) _
            (use_segment-Disposed r.0 (env.attach r.1.shmid t.trace) r.1
              (attached_at r.1.shmid (env.attach r.1.shmid t.trace) t) (n r.1.shmid t.trace) refl
              refl))
    where
      reread :
          (r : Status × ImageBatch) (t : State)
          → Untouched s.trace t.trace
          → (b : ImageBatch) (v : State)
          → Disposed r.1.shmid
              (address_value (env.attach r.1.shmid t.trace))
              (shmat r.1.shmid (address_value (env.attach r.1.shmid t.trace))
                ∷ segment_events t.trace)
              b
              v
          → Attached s b v
      reread r t u b v d = (
        address_value (env.attach r.1.shmid t.trace),
        (
          (
            d.0.0,
            d.0.1,
            d.0.2
                ∙ ap₂
                    (λ id h.
                      shmctl_rmid id
                      ∷ shmdt (address_value (env.attach r.1.shmid t.trace))
                      ∷ writes_onto d.0.0
                          (shmat id (address_value (env.attach r.1.shmid t.trace)) ∷ h))
                    (sym d.1) u,
          ),
          refl,
          d.2,
          d.3,
        ),
      )
