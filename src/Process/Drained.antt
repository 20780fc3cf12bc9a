-- ===== src/Process/Drained.antt =====
-- All messages of the queue: `process_all`.
use dipp.Base.{
  ℕ, zero, suc, ◌+◌, ◌*◌, ◌≡◌, ◌≤◌, refl, ap, List, [], ◌∷◌, ◌++◌, none, some, arith, length, drop,
  true, Bool,
}
use dipp.Errors.{set_error_param}
use dipp.Types.{Text, Pipeline, ModuleParameterList}
use dipp.Machine.{Env, State, History, Receipt, message, no_message, msgget}
use dipp.Machine.Hoare.{Returns, Returns-bind}
use dipp.Machine.Trace.{ring_writes}
use dipp.Logger.{buffer_size}
use dipp.Upload.Blocks.{pushed}
use dipp.Process.Queue.{batch_bytes, copy_message, get_message_from_queue}
use dipp.Process.Loop.{process_message, process_all}
use dipp.Process.Compose.{ModuleFunctions, Steady}
use dipp.Process.Message.{message-round_trip, length-text}
use dipp.Process.Kept.{received}
use dipp.Process.Rounds.{Job, Marked, Stands, process_message-Stands}

module _ (env : Env) (f : ModuleFunctions) (steady : Steady env f) (table : List Pipeline)
    (lists : List ModuleParameterList) (file : Text) where
  -- The bytes that `msgrcv` delivers for a job.
  abbrev pub text_of : Job env f table lists → List ℕ
  text_of job = drop 8 (batch_bytes job.batch) ++ job.extra

  -- What the next calls of `msgrcv` give while these jobs are in the queue.
  abbrev pub answer : List (Job env f table lists) → ℕ → Receipt
  answer [] n = no_message
  answer (job ∷ jobs) zero = message (text_of job)
  answer (job ∷ jobs) (suc n) = answer jobs n

  -- The ring buffer when the images of all jobs are in it.
  abbrev pub pushed_all : List (Job env f table lists) → List (List ℕ) → List (List ℕ)
  pushed_all [] writes = writes
  pushed_all (job ∷ jobs) writes = pushed_all jobs (pushed job.shots writes)

  pub get_message-Marked :
      (ready : Bool) (text datarcv : List ℕ) (do_wait : Bool) (writes : List (List ℕ)) (k m : ℕ)
      (s : State)
      → length text ≡ 32
      → env.msgget_ok s.trace ≡ true
      → env.receive do_wait (msgget ∷ s.trace) ≡ message text
      → Marked env f steady table lists file ready writes k m s
      → Returns
          (λ r t.
            (r ≡ some (copy_message text datarcv))
            × Marked env f steady table lists file ready writes (k + 1) m t)
          (get_message_from_queue env datarcv do_wait s)
  unfolding get_message_from_queue
  get_message-Marked ready text datarcv do_wait writes k m s long found received_text at_s =
      rw (found, received_text, long, Returns)
        (refl, (at_s.0, ap (λ n. n + 1) at_s.1, at_s.2, at_s.3, at_s.4, at_s.5, at_s.6))

  pub no_message-Drained :
      (datarcv : List ℕ) (do_wait : Bool) (writes : List (List ℕ)) (s : State)
      → env.msgget_ok s.trace ≡ true
      → env.receive do_wait (msgget ∷ s.trace) ≡ no_message
      → ring_writes s.trace ≡ writes
      → Returns
          (λ r t. (r ≡ none) × (ring_writes t.trace ≡ writes))
          (get_message_from_queue env datarcv do_wait s)
  unfolding get_message_from_queue set_error_param
  no_message-Drained datarcv do_wait writes s found dry w = rw (found, dry, Returns) (refl, w)

  -- All messages have been processed, and their images are in the ring buffer.
  abbrev pub Drained : List (Job env f table lists) → List (List ℕ) → Bool → State → Type 0
  Drained jobs writes ended t = (ended ≡ true) × (ring_writes t.trace ≡ pushed_all jobs writes)

  -- While the kernel works and every module returns its function's value: let the queue hold the
  -- messages of these jobs and then no more, each job a batch that `process` can deliver from the
  -- tables; let the cache be set up from the tables, a log file be open, and the log have room for
  -- three entries for each job. Then `process_all` ends within one round more than there are jobs,
  -- and the ring buffer has got one observation for each image of each job, whole and in order.
  pub process_all-Drained :
      (jobs : List (Job env f table lists)) (datarcv : List ℕ) (do_wait : Bool)
      (writes : List (List ℕ)) (k m : ℕ) (s : State)
      → ((h : History) → env.msgget_ok h ≡ true)
      → ((h : History) (n : ℕ) → received h ≡ k + n → env.receive do_wait h ≡ answer jobs n)
      → Stands env f steady table lists file writes k m s
      → m + 3 * length jobs ≤ buffer_size
      → Returns (Drained jobs writes) (process_all env (suc (length jobs)) datarcv do_wait s)
  unfolding process_all
  process_all-Drained [] datarcv do_wait writes k m s found queue at_s room =
      Returns-bind (λ r t. (r ≡ none) × (ring_writes t.trace ≡ writes)) (Drained [] writes)
        (get_message_from_queue env datarcv do_wait) _ s
        (no_message-Drained datarcv do_wait writes s (found s.trace)
          (queue (msgget ∷ s.trace) 0 (omega (arith, at_s.1))) at_s.0)
        (λ r t (e, w). rw (e, Returns) (refl, w))
  process_all-Drained (job ∷ jobs) datarcv do_wait writes k m s found queue at_s room =
      Returns-bind
        (λ r t.
          (r ≡ some (copy_message (text_of job) datarcv))
          × Stands env f steady table lists file writes (k + 1) m t)
        (Drained (job ∷ jobs) writes) (get_message_from_queue env datarcv do_wait) _ s
        (get_message-Marked true (text_of job) datarcv do_wait writes k m s
          (length-text job.batch job.extra job.extra_bytes) (found s.trace)
          (queue (msgget ∷ s.trace) 0 (omega (arith, at_s.1))) at_s)
        (λ r t (e, at_t).
          rw (e, Returns)
            (Returns-bind
              (λ next u.
                Stands env f steady table lists file (pushed job.shots writes) (k + 1)
                  (m + 1 + 1 + 1) u)
              (Drained (job ∷ jobs) writes)
              (process_message env (copy_message (text_of job) datarcv)) _ t
              (process_message-Stands env f steady table lists file job
                (copy_message (text_of job) datarcv) writes (k + 1) m t
                (message-round_trip job.batch job.extra datarcv job.sent job.extra_bytes) at_t
                (omega arith))
              (λ next u at_u.
                process_all-Drained jobs next do_wait (pushed job.shots writes) (k + 1)
                  (m + 1 + 1 + 1) u found (λ h n counted. queue h (suc n) (omega arith)) at_u
                  (omega arith))))
