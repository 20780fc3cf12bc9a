-- ===== src/Base/Update.antt =====
-- Updates of the elements of a list, one after another and all at once.
use dipp.Base.{
  ℕ, zero, suc, ◌+◌, ◌≡◌, ◌≤◌, refl, ap, sym, ◌∙◌, List, [], ◌∷◌, ◌++◌, append_assoc, length,
  length-append, drop, set, modify_elem, arith,
}

-- The indices from this one on.
abbrev pub indices : ℕ → ℕ → List ℕ
indices k zero = []
indices k (suc n) = k ∷ indices (suc k) n

module _ {ℓ} {A : Type ℓ} where
  -- Every element by the update of its index, from this index on.
  abbrev pub map_from : (ℕ → A → A) → ℕ → List A → List A
  map_from f k [] = []
  map_from f k (x ∷ xs) = f k x ∷ map_from f (suc k) xs

  -- The elements at these indices, one after another.
  abbrev pub modify_all : (ℕ → A → A) → List ℕ → List A → List A
  modify_all f [] xs = xs
  modify_all f (i ∷ is) xs = modify_all f is (modify_elem xs i (f i))

  -- Values into the places from this one on, one after another.
  abbrev pub store_from : ℕ → List A → List A → List A
  store_from k [] xs = xs
  store_from k (v ∷ vs) xs = store_from (k + 1) vs (set xs k v)

  modify_elem-append :
      (pre : List A) (x : A) (xs : List A) (f : A → A)
      → modify_elem (pre ++ x ∷ xs) (length pre) f ≡ pre ++ f x ∷ xs
  modify_elem-append [] x xs f = refl
  modify_elem-append (y ∷ pre) x xs f = ap (λ t. y ∷ t) (modify_elem-append pre x xs f)

  set-append :
      (pre : List A) (x v : A) (xs : List A) → set (pre ++ x ∷ xs) (length pre) v ≡ pre ++ v ∷ xs
  set-append [] x v xs = refl
  set-append (y ∷ pre) x v xs = ap (λ t. y ∷ t) (set-append pre x v xs)

  modify_all-append :
      (f : ℕ → A → A) (pre xs : List A) (k : ℕ)
      → length pre ≡ k
      → modify_all f (indices k (length xs)) (pre ++ xs) ≡ pre ++ map_from f k xs
  modify_all-append f pre [] k e = refl
  modify_all-append f pre (x ∷ xs) k e =
      ap (modify_all f (indices (suc k) (length xs))) (
        ap (λ n. modify_elem (pre ++ x ∷ xs) n (f k)) (sym e)
        ∙ modify_elem-append pre x xs (f k)
        ∙ sym (append_assoc pre (f k x ∷ []) xs))
      ∙ modify_all-append f (pre ++ f k x ∷ []) xs (suc k)
          (omega (arith, length-append pre (f k x ∷ [])))
      ∙ append_assoc pre (f k x ∷ []) (map_from f (suc k) xs)

  pub modify_all-map_from :
      (f : ℕ → A → A) (xs : List A) → modify_all f (indices 0 (length xs)) xs ≡ map_from f 0 xs
  modify_all-map_from f xs = modify_all-append f [] xs 0 refl

  store_from-append :
      (pre vs xs : List A) (k : ℕ)
      → length pre ≡ k
      → length vs ≤ length xs
      → store_from k vs (pre ++ xs) ≡ pre ++ (vs ++ drop (length vs) xs)
  store_from-append pre [] xs k e h = refl
  store_from-append pre (v ∷ vs) [] k e h = absurd (omega arith)
  store_from-append pre (v ∷ vs) (x ∷ xs) k e h =
      ap (store_from (k + 1) vs) (
        ap (λ n. set (pre ++ x ∷ xs) n v) (sym e)
        ∙ set-append pre x v xs
        ∙ sym (append_assoc pre (v ∷ []) xs))
      ∙ store_from-append (pre ++ v ∷ []) vs xs (k + 1) (omega (arith, length-append pre (v ∷ [])))
          (omega arith)
      ∙ append_assoc pre (v ∷ []) (vs ++ drop (length vs) xs)

  pub store_from-drop :
      (vs xs : List A) → length vs ≤ length xs → store_from 0 vs xs ≡ vs ++ drop (length vs) xs
  store_from-drop vs xs h = store_from-append [] vs xs 0 refl h

  -- Two updates of one element.
  pub modify_elem-modify_elem :
      (xs : List A) (i : ℕ) (f g : A → A)
      → modify_elem (modify_elem xs i f) i g ≡ modify_elem xs i (λ x. g (f x))
  modify_elem-modify_elem [] i f g = refl
  modify_elem-modify_elem (x ∷ xs) zero f g = refl
  modify_elem-modify_elem (x ∷ xs) (suc i) f g = ap (λ t. x ∷ t) (modify_elem-modify_elem xs i f g)

  pub modify_elem-id : (xs : List A) (i : ℕ) → modify_elem xs i (λ x. x) ≡ xs
  modify_elem-id [] i = refl
  modify_elem-id (x ∷ xs) zero = refl
  modify_elem-id (x ∷ xs) (suc i) = ap (λ t. x ∷ t) (modify_elem-id xs i)
