-- ===== src/Machine/Hoare.antt =====
-- What a call guarantees, for proofs about `do` blocks.
use mathlib.Core.Path.{◌≡◌, refl, ap}
use dipp.Machine.Monad.{State, Outcome, done, blocked, undefined, M, ◌>>=◌}

-- The call returns, and its result and final state satisfy `Q`.
abbrev pub Returns : {A : Type 0} → (A → State → Type 0) → Outcome A → Type 0
Returns Q (done a s) = Q a s
Returns Q (blocked s) = ⊥
Returns Q undefined = ⊥

-- The call does nothing undefined, and if it returns, `Q` holds.
abbrev pub Ensures : {A : Type 0} → (A → State → Type 0) → Outcome A → Type 0
Ensures Q (done a s) = Q a s
Ensures Q (blocked s) = Unit
Ensures Q undefined = ⊥

-- If the call returns, `Q` holds.
abbrev pub IfReturns : {A : Type 0} → (A → State → Type 0) → Outcome A → Type 0
IfReturns Q (done a s) = Q a s
IfReturns Q (blocked s) = Unit
IfReturns Q undefined = Unit

module _ {A B : Type 0} (Q : A → State → Type 0) (R : B → State → Type 0) where
  pub Returns-bind :
      (m : M A) (f : A → M B) (s : State)
      → Returns Q (m s)
      → ((a : A) (t : State) → Q a t → Returns R (f a t))
      → Returns R ((m >>= f) s)
  Returns-bind m f s h k = go (m s) h
    where
      go :
          (o : Outcome A)
          → Returns Q o
          → Returns R (elim o [ done a t ↦ f a t | blocked t ↦ blocked t | undefined ↦ undefined ])
      go (done a t) q = k a t q
      go (blocked t) q = q
      go undefined q = q

  pub Ensures-bind :
      (m : M A) (f : A → M B) (s : State)
      → Ensures Q (m s)
      → ((a : A) (t : State) → Q a t → Ensures R (f a t))
      → Ensures R ((m >>= f) s)
  Ensures-bind m f s h k = go (m s) h
    where
      go :
          (o : Outcome A)
          → Ensures Q o
          → Ensures R (elim o [ done a t ↦ f a t | blocked t ↦ blocked t | undefined ↦ undefined ])
      go (done a t) q = k a t q
      go (blocked t) q = q
      go undefined q = q

  pub IfReturns-bind :
      (m : M A) (f : A → M B) (s : State)
      → IfReturns Q (m s)
      → ((a : A) (t : State) → Q a t → IfReturns R (f a t))
      → IfReturns R ((m >>= f) s)
  IfReturns-bind m f s h k = go (m s) h
    where
      go :
          (o : Outcome A)
          → IfReturns Q o
          → IfReturns R
              (elim o [ done a t ↦ f a t | blocked t ↦ blocked t | undefined ↦ undefined ])
      go (done a t) q = k a t q
      go (blocked t) q = q
      go undefined q = q

module _ {A : Type 0} (Q R : A → State → Type 0) (k : (a : A) (t : State) → Q a t → R a t) where
  pub Returns-mono : (o : Outcome A) → Returns Q o → Returns R o
  Returns-mono (done a t) h = k a t h
  Returns-mono (blocked t) h = h
  Returns-mono undefined h = h

  pub Ensures-mono : (o : Outcome A) → Ensures Q o → Ensures R o
  Ensures-mono (done a t) h = k a t h
  Ensures-mono (blocked t) h = h
  Ensures-mono undefined h = h

  pub IfReturns-mono : (o : Outcome A) → IfReturns Q o → IfReturns R o
  IfReturns-mono (done a t) h = k a t h
  IfReturns-mono (blocked t) h = h
  IfReturns-mono undefined h = h

-- What holds of a call that returns, with what holds if it does.
pub Returns-both :
    {A : Type 0} (Q R : A → State → Type 0) (o : Outcome A)
    → Returns Q o
    → IfReturns R o
    → Returns (λ a t. Q a t × R a t) o
Returns-both Q R (done a t) q r = (q, r)
Returns-both Q R (blocked t) q r = q
Returns-both Q R undefined q r = q

pub Returns-IfReturns :
    {A : Type 0} (Q : A → State → Type 0) (o : Outcome A) → Returns Q o → IfReturns Q o
Returns-IfReturns Q (done a t) q = q
Returns-IfReturns Q (blocked t) q = tt
Returns-IfReturns Q undefined q = tt

-- What holds of a call if it returns.
pub IfReturns-both :
    {A : Type 0} (Q R : A → State → Type 0) (o : Outcome A)
    → IfReturns Q o
    → IfReturns R o
    → IfReturns (λ a t. Q a t × R a t) o
IfReturns-both Q R (done a t) q r = (q, r)
IfReturns-both Q R (blocked t) q r = tt
IfReturns-both Q R undefined q r = tt

-- A call that returns has a result and a final state.
pub Returns-done :
    {A : Type 0} (Q : A → State → Type 0) (o : Outcome A)
    → Returns Q o
    → (a : A) × (t : State) × (o ≡ done a t) × Q a t
Returns-done Q (done a t) h = (a, t, refl, h)
Returns-done Q (blocked t) h = absurd h
Returns-done Q undefined h = absurd h

-- A block goes on from the state in which its first call returns.
pub bind-done :
    {A B : Type 0} (m : M A) (f : A → M B) (s : State) {a : A} {t : State}
    → m s ≡ done a t
    → (m >>= f) s ≡ f a t
bind-done {B} m f s e =
    ap {B = Outcome B}
      (λ o. elim o [ done a t ↦ f a t | blocked t ↦ blocked t | undefined ↦ undefined ]) e
