-- ===== src/Process/Kept.antt =====
-- What the way of a batch leaves as it was.
use dipp.Base.{ℕ, ◌+◌, ◌≡◌, refl, sym, ap, ◌∙◌, List, [], ◌∷◌, arith}
use dipp.Base.Int.{ℤ, pos_part}
use dipp.Machine.{Env, State, History, msgrcv}
use dipp.Machine.Hoare.{Returns, Returns-mono, Returns-both}
use dipp.Machine.Trace.{segment_events, Untouched}
use dipp.Upload.{upload}
use dipp.Upload.Blocks.{Shot, Pushes}
use dipp.Upload.Frame.{Written, writes_onto, upload-Written}
use dipp.Upload.Vars.{SameVars, upload-SameVars}

-- How many messages have been received.
abbrev pub received : History → ℕ
received [] = 0
received (msgrcv do_wait ∷ h) = received h + 1
received (e ∷ h) = received h

received-segment_events : (h : History) → received (segment_events h) ≡ received h
received-segment_events [] = refl
received-segment_events (e ∷ h) = ground (arith, received-segment_events h)

received-writes_onto : (ws : List (List ℕ)) (h : History) → received (writes_onto ws h) ≡ received h
received-writes_onto [] h = refl
received-writes_onto (bytes ∷ ws) h = received-writes_onto ws h

-- The cache and the log are as they were, and no message has been received.
abbrev pub Kept : State → State → Type 0
Kept s t =
    (received t.trace ≡ received s.trace)
    × (t.module_parameter_lists ≡ s.module_parameter_lists)
    × (t.is_setup ≡ s.is_setup)
    × (t.pipelines ≡ s.pipelines)
    × (t.logger ≡ s.logger)
    × (t.log_entries ≡ s.log_entries)

pub Kept-trans : (s t u : State) → Kept s t → Kept t u → Kept s u
Kept-trans s t u p q = (q.0 ∙ p.0, q.1 ∙ p.1, q.2 ∙ p.2, q.3 ∙ p.3, q.4 ∙ p.4, q.5 ∙ p.5)

Written-received : (n : ℕ) (s t : State) → Written n s t → received t.trace ≡ received s.trace
Written-received n s t ((ws, few, e), pipeline, module_number) =
    sym (received-segment_events t.trace)
    ∙ ap received e
    ∙ received-writes_onto ws (segment_events s.trace)
    ∙ received-segment_events s.trace

pub Untouched-received : (h k : History) → Untouched h k → received k ≡ received h
Untouched-received h k u =
    sym (received-segment_events k) ∙ ap received u ∙ received-segment_events h

-- The observations are written, and the rest is kept.
abbrev pub Put : List Shot → State → Unit {0} → State → Type 0
Put shots s r t = Pushes shots s r t × Kept s t

module _ (env : Env) where
  pub upload-Put :
      (memory : List ℕ) (num size : ℤ) (shots : List Shot) (s : State)
      → Returns (Pushes shots s) (upload env memory num size s)
      → Returns (Put shots s) (upload env memory num size s)
  upload-Put memory num size shots s pushes =
      Returns-mono (λ r t. (Pushes shots s r t × SameVars s t) × Written (pos_part num) s t)
        (Put shots s)
        (λ r t q. (
          q.0.0,
          (
            Written-received (pos_part num) s t q.1,
            ap (λ v. v.module_parameter_lists) q.0.1,
            ap (λ v. v.is_setup) q.0.1,
            ap (λ v. v.pipelines) q.0.1,
            ap (λ v. v.logger) q.0.1,
            ap (λ v. v.log_entries) q.0.1,
          ),
        ))
        _
        (Returns-both (λ r t. Pushes shots s r t × SameVars s t) (λ r t. Written (pos_part num) s t)
          _
          (Returns-both (Pushes shots s) (λ r t. SameVars s t) _ pushes
            (upload-SameVars env memory num size s))
          (upload-Written env memory num size s))
