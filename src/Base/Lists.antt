-- ===== src/Base/Lists.antt =====
-- Lists measured and indexed by native numbers, under the library's names.
use Prim.Native.Nat.{ℕ, zero, suc, ◌+◌, ◌-◌, ◌<◌, min}
use mathlib.Core.Path.{◌≡◌, refl, ap, sym, ◌∙◌}
use mathlib.Core.Logic.{◌≢◌}
use mathlib.Core.List.{List, [], ◌∷◌, ◌++◌}
use mathlib.Core.Option.{Option, none, some}
use native.Mathlib.Nat.{zero-add, suc-add}
use native.Mathlib.Omega.{arith}
use native.Mathlib.Numerals.{add-one}

module _ {ℓ} {A : Type ℓ} where
  abbrev pub length : List A → ℕ
  length [] = 0
  length (x ∷ xs) = suc (length xs)

  abbrev pub get_elem? : List A → ℕ → Option A
  get_elem? [] i = none
  get_elem? (x ∷ xs) zero = some x
  get_elem? (x ∷ xs) (suc i) = get_elem? xs i

  -- A write out of bounds changes nothing.
  abbrev pub set : List A → ℕ → A → List A
  set [] i v = []
  set (x ∷ xs) zero v = v ∷ xs
  set (x ∷ xs) (suc i) v = x ∷ set xs i v

  -- `xs[i] = f(xs[i])`
  abbrev pub modify_elem : List A → ℕ → (A → A) → List A
  modify_elem [] i f = []
  modify_elem (x ∷ xs) zero f = f x ∷ xs
  modify_elem (x ∷ xs) (suc i) f = x ∷ modify_elem xs i f

  abbrev pub take : ℕ → List A → List A
  take zero xs = []
  take (suc n) [] = []
  take (suc n) (x ∷ xs) = x ∷ take n xs

  abbrev pub drop : ℕ → List A → List A
  drop zero xs = xs
  drop (suc n) [] = []
  drop (suc n) (x ∷ xs) = drop n xs

  abbrev pub replicate : ℕ → A → List A
  replicate zero a = []
  replicate (suc n) a = a ∷ replicate n a

module _ {ℓ} {A : Type ℓ} where
  pub length-append : (xs ys : List A) → length (xs ++ ys) ≡ length xs + length ys
  length-append [] ys = omega arith
  length-append (x ∷ xs) ys = omega (arith, length-append xs ys)

  pub length-set : (xs : List A) (i : ℕ) (v : A) → length (set xs i v) ≡ length xs
  length-set [] i v = refl
  length-set (x ∷ xs) zero v = refl
  length-set (x ∷ xs) (suc i) v = ap suc (length-set xs i v)

  pub get_elem?-set_self :
      (xs : List A) (i : ℕ) (v : A) → i < length xs → get_elem? (set xs i v) i ≡ some v
  get_elem?-set_self [] i v h = elim h [ ]
  get_elem?-set_self (x ∷ xs) zero v h = refl
  get_elem?-set_self (x ∷ xs) (suc i) v h = get_elem?-set_self xs i v (omega arith)

  pub get_elem?-set_ne :
      (xs : List A) (i j : ℕ) (v : A) → i ≢ j → get_elem? (set xs i v) j ≡ get_elem? xs j
  get_elem?-set_ne [] i j v h = refl
  get_elem?-set_ne (x ∷ xs) zero zero v h = absurd (h refl)
  get_elem?-set_ne (x ∷ xs) zero (suc j) v h = refl
  get_elem?-set_ne (x ∷ xs) (suc i) zero v h = refl
  get_elem?-set_ne (x ∷ xs) (suc i) (suc j) v h = get_elem?-set_ne xs i j v (λ e. h (ap suc e))

  pub get_elem?-lt : (xs : List A) (i : ℕ) → i < length xs → (x : A) × (get_elem? xs i ≡ some x)
  get_elem?-lt [] i h = elim h [ ]
  get_elem?-lt (x ∷ xs) zero h = (x, refl)
  get_elem?-lt (x ∷ xs) (suc i) h = get_elem?-lt xs i (omega arith)

  pub take-append : (xs ys : List A) → take (length xs) (xs ++ ys) ≡ xs
  take-append [] ys = refl
  take-append (x ∷ xs) ys = ap (λ t. x ∷ t) (take-append xs ys)

  pub drop-append : (xs ys : List A) → drop (length xs) (xs ++ ys) ≡ ys
  drop-append [] ys = refl
  drop-append (x ∷ xs) ys = drop-append xs ys

  pub length-take : (n : ℕ) (xs : List A) → length (take n xs) ≡ min n (length xs)
  length-take zero xs = omega arith
  length-take (suc n) [] = omega arith
  length-take (suc n) (x ∷ xs) = omega (arith, length-take n xs)

  pub length-drop : (n : ℕ) (xs : List A) → length (drop n xs) ≡ length xs - n
  length-drop zero xs = omega arith
  length-drop (suc n) [] = omega arith
  length-drop (suc n) (x ∷ xs) = omega (arith, length-drop n xs)

  pub length-replicate : (n : ℕ) (a : A) → length (replicate n a) ≡ n
  length-replicate zero a = refl
  length-replicate (suc n) a = ap suc (length-replicate n a)

  pub get_elem?-replicate :
      (n : ℕ) (a : A) (j : ℕ) (x : A) → get_elem? (replicate n a) j ≡ some x → x ≡ a
  get_elem?-replicate zero a j x e = cc
  get_elem?-replicate (suc n) a zero x e = ground arith
  get_elem?-replicate (suc n) a (suc j) x e = get_elem?-replicate n a j x e

  pub length-modify_elem :
      (xs : List A) (i : ℕ) (f : A → A) → length (modify_elem xs i f) ≡ length xs
  length-modify_elem [] i f = refl
  length-modify_elem (x ∷ xs) zero f = refl
  length-modify_elem (x ∷ xs) (suc i) f = ap suc (length-modify_elem xs i f)

  pub get_elem?-modify_elem_self :
      (xs : List A) (i : ℕ) (f : A → A) (x : A)
      → get_elem? xs i ≡ some x
      → get_elem? (modify_elem xs i f) i ≡ some (f x)
  get_elem?-modify_elem_self [] i f x h = cc
  get_elem?-modify_elem_self (y ∷ ys) zero f x h = ground arith
  get_elem?-modify_elem_self (y ∷ ys) (suc i) f x h = get_elem?-modify_elem_self ys i f x h

  pub get_elem?-modify_elem_ne :
      (xs : List A) (i j : ℕ) (f : A → A)
      → i ≢ j
      → get_elem? (modify_elem xs i f) j ≡ get_elem? xs j
  get_elem?-modify_elem_ne [] i j f h = refl
  get_elem?-modify_elem_ne (x ∷ xs) zero zero f h = absurd (h refl)
  get_elem?-modify_elem_ne (x ∷ xs) zero (suc j) f h = refl
  get_elem?-modify_elem_ne (x ∷ xs) (suc i) zero f h = refl
  get_elem?-modify_elem_ne (x ∷ xs) (suc i) (suc j) f h =
      get_elem?-modify_elem_ne xs i j f (λ e. h (ap suc e))

  -- What stands at an index that a slice begins with, and the slice behind it.
  pub get_elem?-take-drop :
      (xs : List A) (i n : ℕ) (y : A) (ys : List A)
      → take (suc n) (drop i xs) ≡ y ∷ ys
      → get_elem? xs i ≡ some y
  get_elem?-take-drop [] zero n y ys e = cc
  get_elem?-take-drop [] (suc i) n y ys e = cc
  get_elem?-take-drop (x ∷ xs) zero n y ys e = ground arith
  get_elem?-take-drop (x ∷ xs) (suc i) n y ys e = get_elem?-take-drop xs i n y ys e

  pub take-drop-suc :
      (xs : List A) (i n : ℕ) (y : A) (ys : List A)
      → take (suc n) (drop i xs) ≡ y ∷ ys
      → take n (drop (i + 1) xs) ≡ ys
  take-drop-suc xs i n y ys e = rw add-one (go xs i e)
    where
      go : (zs : List A) (j : ℕ) → take (suc n) (drop j zs) ≡ y ∷ ys → take n (drop (suc j) zs) ≡ ys
      go [] zero h = cc
      go [] (suc j) h = cc
      go (z ∷ zs) zero h = ground arith
      go (z ∷ zs) (suc j) h = go zs j h

  pub drop_add : (m n : ℕ) (xs : List A) → drop (m + n) xs ≡ drop n (drop m xs)
  drop_add zero n xs = ap (λ k. drop k xs) (zero-add n)
  drop_add (suc m) zero [] = ap (λ k. drop k []) (suc-add m 0)
  drop_add (suc m) (suc n) [] = ap (λ k. drop k []) (suc-add m (suc n))
  drop_add (suc m) n (x ∷ xs) = ap (λ k. drop k (x ∷ xs)) (suc-add m n) ∙ drop_add m n xs

  pub take_add : (n m : ℕ) (xs : List A) → take n xs ++ take m (drop n xs) ≡ take (n + m) xs
  take_add zero m xs = ap (λ k. take k xs) (sym (zero-add m))
  take_add (suc n) zero [] = ap (λ k. take k []) (sym (suc-add n 0))
  take_add (suc n) (suc m) [] = ap (λ k. take k []) (sym (suc-add n (suc m)))
  take_add (suc n) m (x ∷ xs) =
      ap (λ ys. x ∷ ys) (take_add n m xs) ∙ ap (λ k. take k (x ∷ xs)) (sym (suc-add n m))

  pub take-all : (xs : List A) → take (length xs) xs ≡ xs
  take-all [] = refl
  take-all (x ∷ xs) = ap (λ ys. x ∷ ys) (take-all xs)
