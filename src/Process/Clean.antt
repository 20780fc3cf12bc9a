-- ===== src/Process/Clean.antt =====
-- No segment is held from one message to the next, however the outside world behaves.
use dipp.Base.{ℕ, zero, suc, ◌≢◌, List, Option, none, some, Bool, true}
use dipp.Base.Int.{ℤ}
use dipp.Machine.{Env, State, History, null, M, pure, ◌>>=◌, ◌>>◌}
use dipp.Machine.Hoare.{IfReturns, IfReturns-bind}
use dipp.Machine.Trace.{segment_events}
use dipp.Config.{setup_cache_if_needed}
use dipp.Config.Shape.{WellFormed, Bounded}
use dipp.Process.Batch.{process}
use dipp.Process.Queue.{batch_of_bytes, get_message_from_queue}
use dipp.Process.Loop.{process_one, log_global, process_message, process_all}
use dipp.Process.Between.{
  Between, Clean, setup-Between, process-Between, get_message-Between, log_global-Between,
}

module _ (env : Env) (address : (id : ℤ) (h : History) → env.attach id h ≢ null)
    (bounded : Bounded env) where
  -- The step to the next call.
  Between-bind :
      {A B : Type 0} (m : M A) (k : A → M B) (s : State)
      → IfReturns (λ a t. Between t) (m s)
      → ((a : A) (t : State) → Between t → IfReturns (λ b u. Between u) (k a t))
      → IfReturns (λ b u. Between u) ((m >>= k) s)
  Between-bind m k s = IfReturns-bind (λ a t. Between t) (λ b u. Between u) m k s

  Between-elim :
      {A B : Type 0} (o : Option A) (m : M B) (k : A → M B) (s : State)
      → IfReturns (λ b u. Between u) (m s)
      → ((a : A) → IfReturns (λ b u. Between u) (k a s))
      → IfReturns (λ b u. Between u) ((elim o as (λ x. M B) [ none ↦ m | some a ↦ k a ]) s)
  Between-elim none m k s first second = first
  Between-elim (some a) m k s first second = second a

  process_message-Between :
      (bytes : List ℕ) (s : State)
      → Between s
      → IfReturns (λ next t. Between t) (process_message env bytes s)
  unfolding process_message
  process_message-Between bytes s b =
      Between-bind (log_global env _) _ s (log_global-Between env _ s b) (λ r t b₁.
        Between-bind (setup_cache_if_needed env) _ t (setup-Between env address bounded t b₁)
          (λ r u b₂. Between-bind (log_global env _) _ u (log_global-Between env _ u b₂) (λ r v b₃.
            Between-bind (process env (batch_of_bytes bytes)) _ v
              (process-Between env address bounded (batch_of_bytes bytes) v b₃)
              (λ c w b₄.
                Between-bind (log_global env _) _ w (log_global-Between env _ w b₄)
                  (λ r x b₅. b₅)))))

  process_one-Between :
      (datarcv : List ℕ) (do_wait : Bool) (s : State)
      → Between s
      → IfReturns (λ r t. Between t) (process_one env datarcv do_wait s)
  unfolding process_one
  process_one-Between datarcv do_wait s b =
      Between-bind (setup_cache_if_needed env) _ s (setup-Between env address bounded s b)
        (λ r t b₁.
          Between-bind (get_message_from_queue env datarcv do_wait) _ t
            (get_message-Between env datarcv do_wait t b₁)
            (λ o u b₂.
              Between-elim o (pure tt) (λ bytes. process env (batch_of_bytes bytes) >> pure tt) u b₂
                (λ bytes.
                  Between-bind (process env (batch_of_bytes bytes)) (λ c. pure tt) u
                    (process-Between env address bounded (batch_of_bytes bytes) u b₂)
                    (λ c v b₃. b₃))))

  process_all-Between :
      (fuel : ℕ) (datarcv : List ℕ) (do_wait : Bool) (s : State)
      → Between s
      → IfReturns (λ r t. Between t) (process_all env fuel datarcv do_wait s)
  unfolding process_all
  process_all-Between zero datarcv do_wait s b = b
  process_all-Between (suc fuel) datarcv do_wait s b =
      Between-bind (get_message_from_queue env datarcv do_wait) _ s
        (get_message-Between env datarcv do_wait s b)
        (λ o t b₁.
          Between-elim o (pure true)
            (λ bytes. process_message env bytes >>= λ next. process_all env fuel next do_wait) t b₁
            (λ bytes.
              Between-bind (process_message env bytes) (λ next. process_all env fuel next do_wait) t
                (process_message-Between bytes t b₁)
                (λ next u b₂. process_all-Between fuel next do_wait u b₂)))

  -- Let shmat give an address or (void *)-1, as shmat(2) says. Let no message have more than 20
  -- modules, and let the size at the begin of each parameter count at most the bytes behind it.
  -- However all else behaves: if `process_one` or, for any number of rounds, `process_all` returns,
  -- from well-formed tables and a clean history, the tables are well-formed and the history is
  -- clean again: whenever shmat was called and gave an address, shmdt has been called once with
  -- this address and then shmctl once to remove the segment that was attached, whatever these two
  -- calls answered, before the next message was asked for; and nothing but observations went into
  -- the ring buffer in between.
  pub process_all-Clean :
      (fuel : ℕ) (datarcv : List ℕ) (do_wait : Bool) (s : State)
      → WellFormed s
      → Clean (segment_events s.trace)
      → IfReturns
          (λ r t. WellFormed t × Clean (segment_events t.trace))
          (process_one env datarcv do_wait s)
        × IfReturns
            (λ r t. WellFormed t × Clean (segment_events t.trace))
            (process_all env fuel datarcv do_wait s)
  process_all-Clean fuel datarcv do_wait s w c = (
    process_one-Between datarcv do_wait s (w, c),
    process_all-Between fuel datarcv do_wait s (w, c),
  )
