-- ===== src/Machine/Aside.antt =====
-- Calls that leave segments, ring buffer and message queue alone, however the outside world answers.
use mathlib.Core.Path.{refl, ◌∙◌}
use dipp.Base.{Bool, true, false, Option, none, some, if◌then◌else◌}
use dipp.Machine.Monad.{State, M, ◌>>=◌, pure}
use dipp.Machine.Hoare.{IfReturns, IfReturns-bind, IfReturns-mono}
use dipp.Machine.Trace.{Untouched}

-- From any state, if the call returns, nothing has been done to segments, ring buffer and queue.
abbrev pub Aside : {A : Type 0} → M A → Type 0
Aside m = (s : State) → IfReturns (λ a t. Untouched s.trace t.trace) (m s)

pub Aside-bind :
    {A B : Type 0} (m : M A) (f : A → M B) → Aside m → ((a : A) → Aside (f a)) → Aside (m >>= f)
Aside-bind {A} {B} m f first rest s =
    IfReturns-bind (λ a t. Untouched s.trace t.trace) (λ b t. Untouched s.trace t.trace) m f s
      (first s)
      (λ a t u.
        IfReturns-mono (λ b v. Untouched t.trace v.trace) (λ b v. Untouched s.trace v.trace)
          (λ b v w. w ∙ u) _ (rest a t))

pub Aside-pure : {A : Type 0} (a : A) → Aside (pure {A = A} a)
Aside-pure a s = refl

pub Aside-if : {A : Type 0} (b : Bool) (m k : M A) → Aside m → Aside k → Aside (if b then m else k)
Aside-if true m k first second = first
Aside-if false m k first second = second

-- The two branches of a test for NULL.
pub Aside-elim :
    {A B : Type 0} (o : Option A) (m : M B) (k : A → M B)
    → Aside m
    → ((a : A) → Aside (k a))
    → Aside (elim o [ none ↦ m | some a ↦ k a ])
Aside-elim none m k first second = first
Aside-elim (some a) m k first second = second a
