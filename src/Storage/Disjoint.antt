-- ===== src/Storage/Disjoint.antt =====
-- The places of the parameters in the storage file.
use dipp.Base.{
  ℕ, zero, suc, Bool, true, false, ◌==◌, ◌&&◌, if◌then◌else◌, ◌+◌, ◌≡◌, ◌≢◌, ◌≤◌, ◌⊎◌, refl, List,
  [], ◌∷◌, some, arith, get_elem?,
}
use dipp.Storage.Defs.{Param, stored_params, storage_size}

-- The parameters lie one behind another, from an address on.
abbrev From : ℕ → List Param → Type 0
From start [] = Unit
From start (p ∷ ps) = (start ≤ p.address) × From (p.address + p.size) ps

From-address :
    (start : ℕ) (ps : List Param) (j : ℕ) (q : Param)
    → From start ps
    → get_elem? ps j ≡ some q
    → start ≤ q.address
From-address start [] j q f e = cc
From-address start (p ∷ ps) zero q f e = ground arith
From-address start (p ∷ ps) (suc j) q f e =
    omega (arith, f.0, From-address (p.address + p.size) ps j q f.1 e)

-- Neither reaches into the other.
abbrev pub Apart : Param → Param → Type 0
Apart p q = (p.address + p.size ≤ q.address) ⊎ (q.address + q.size ≤ p.address)

From-Apart :
    (start : ℕ) (ps : List Param) (i j : ℕ) (p q : Param)
    → From start ps
    → get_elem? ps i ≡ some p
    → get_elem? ps j ≡ some q
    → i ≢ j
    → Apart p q
From-Apart start [] i j p q f e g n = cc
From-Apart start (x ∷ xs) zero zero p q f e g n = absurd (n refl)
From-Apart start (x ∷ xs) zero (suc j) p q f e g n =
    ground (arith, From-address (x.address + x.size) xs j q f.1 g)
From-Apart start (x ∷ xs) (suc i) zero p q f e g n =
    ground (arith, From-address (x.address + x.size) xs i p f.1 e)
From-Apart start (x ∷ xs) (suc i) (suc j) p q f e g n =
    From-Apart (x.address + x.size) xs i j p q f.1 e g (ground arith)

-- Each ends inside the file.
abbrev Inside : ℕ → List Param → Type 0
Inside size [] = Unit
Inside size (p ∷ ps) = (p.address + p.size ≤ size) × Inside size ps

Inside-get_elem? :
    (size : ℕ) (ps : List Param) (i : ℕ) (p : Param)
    → Inside size ps
    → get_elem? ps i ≡ some p
    → p.address + p.size ≤ size
Inside-get_elem? size [] i p f e = cc
Inside-get_elem? size (x ∷ xs) zero p f e = ground arith
Inside-get_elem? size (x ∷ xs) (suc i) p f e = Inside-get_elem? size xs i p f.1 e

-- No parameter of the list has this id.
unfoldable has_other_ids : ℕ → List Param → Bool
has_other_ids id [] = true
has_other_ids id (p ∷ ps) = let rest = has_other_ids id ps in if id == p.id then false else rest

unfoldable ids_differ : List Param → Bool
unfolding has_other_ids
ids_differ [] = true
ids_differ (p ∷ ps) = has_other_ids p.id ps && ids_differ ps

has_other_ids-get_elem? :
    (id : ℕ) (ps : List Param) (j : ℕ) (q : Param)
    → has_other_ids id ps ≡ true
    → get_elem? ps j ≡ some q
    → id ≢ q.id
unfolding has_other_ids
has_other_ids-get_elem? id [] j q d e = cc
has_other_ids-get_elem? id (x ∷ xs) zero q d e = ground arith
has_other_ids-get_elem? id (x ∷ xs) (suc j) q d e =
    has_other_ids-get_elem? id xs j q (ground arith) e

ids_differ-get_elem? :
    (ps : List Param) (i j : ℕ) (p q : Param)
    → ids_differ ps ≡ true
    → get_elem? ps i ≡ some p
    → get_elem? ps j ≡ some q
    → i ≢ j
    → p.id ≢ q.id
unfolding ids_differ
ids_differ-get_elem? [] i j p q d e g n = cc
ids_differ-get_elem? (x ∷ xs) zero zero p q d e g n = absurd (n refl)
ids_differ-get_elem? (x ∷ xs) zero (suc j) p q d e g n =
    ground (arith, has_other_ids-get_elem? x.id xs j q (ground arith) g)
ids_differ-get_elem? (x ∷ xs) (suc i) zero p q d e g n =
    ground (arith, has_other_ids-get_elem? x.id xs i p (ground arith) e)
ids_differ-get_elem? (x ∷ xs) (suc i) (suc j) p q d e g n =
    ids_differ-get_elem? xs i j p q (ground arith) e g (ground arith)

stored_params-ids_differ : ids_differ stored_params ≡ true
unfolding ids_differ
stored_params-ids_differ = refl

-- Two parameters at different places of the table have different ids and no byte of the storage file
-- in common, and lie inside the file.
pub stored_params-Apart :
    (i j : ℕ) (p q : Param)
    → get_elem? stored_params i ≡ some p
    → get_elem? stored_params j ≡ some q
    → i ≢ j
    → (p.id ≢ q.id) × Apart p q × (p.address + p.size ≤ storage_size)
stored_params-Apart i j p q e g n = (
  ids_differ-get_elem? stored_params i j p q stored_params-ids_differ e g n,
  From-Apart 0 stored_params i j p q (omega arith) e g n,
  Inside-get_elem? storage_size stored_params i p (omega arith) e,
)
