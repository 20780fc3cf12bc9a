-- ===== src/Remote/Advance.antt =====
-- The loop that moves the tail: where it stops, and when it does not.
use dipp.Base.{
  ℕ, zero, suc, ◌+◌, ◌-◌, ◌%◌, ◌≡◌, ◌≢◌, ◌<◌, refl, ap, ◌∙◌, List, Option, none, some, true, false,
  arith, length, get_elem?, get_elem?-lt, Bool-cases, inl, inr,
}
use dipp.Remote.Plan.{
  buffer_list_size, overtakes, next, with_entry, Planned, planned, out_of_list, out_of_fuel,
  advance_tail,
}

-- The offset at an index of a list of ten.
abbrev or_zero : Option ℕ → ℕ
or_zero none = 0
or_zero (some offset) = offset

abbrev pub entry : List ℕ → ℕ → ℕ
entry list i = or_zero (get_elem? list i)

some-or_zero : (o : Option ℕ) (x : ℕ) → o ≡ some x → o ≡ some (or_zero o)
some-or_zero none x e = cc
some-or_zero (some y) x e = refl

module _ (list : List ℕ) (full : length list ≡ buffer_list_size) where
  get_elem?-entry : (i : ℕ) → i < buffer_list_size → get_elem? list i ≡ some (entry list i)
  get_elem?-entry i lt =
      let (offset, e) = get_elem?-lt list i (omega arith) in
      some-or_zero (get_elem? list i) offset e

  pub with_entry-entry :
      {A : Type 0} (i : ℕ)
      → i < buffer_list_size
      → (f : ℕ → Planned A) → with_entry list i f ≡ f (entry list i)
  with_entry-entry {A} i lt f =
      ap {B = Planned A} (λ o. elim o [ none ↦ out_of_list | some offset ↦ f offset ])
        (get_elem?-entry i lt)

  pub next-lt : (i : ℕ) → next i < buffer_list_size
  unfolding next
  next-lt i = omega arith

  -- The new offset lies between the entry at `i` and the next one.
  abbrev pub Between : ℕ → ℕ → Type 0
  Between new_head_offset i = overtakes (entry list i) new_head_offset (entry list (next i)) ≡ true

  -- How far `k` lies behind `i`.
  abbrev distance : ℕ → ℕ → ℕ
  distance i k = (k + buffer_list_size - i) % buffer_list_size

  distance-next :
      (i k : ℕ)
      → i < buffer_list_size
      → k < buffer_list_size
      → i ≢ k
      → distance (next i) k + 1 ≡ distance i k
  unfolding next
  distance-next i k lt_i lt_k n = omega arith

  -- If the new offset lies between the entry at some index `k` of the list and the next one, the
  -- loop ends within as many rounds as `k` lies behind the tail, and one: it stops behind an entry
  -- for which that holds. Ten rounds are therefore enough for every such list.
  pub advance_tail-Between :
      (fuel h i k : ℕ)
      → i < buffer_list_size
      → k < buffer_list_size
      → distance i k < fuel
      → Between h k
      → (j : ℕ) × (j < buffer_list_size)
        × Between h j
        × (advance_tail list fuel h (entry list i) (next i) (entry list (next i))
            ≡ planned (next j))
  unfolding advance_tail
  advance_tail-Between zero h i k lt_i lt_k near between = absurd (omega arith)
  advance_tail-Between (suc fuel) h i k lt_i lt_k near between =
      elim (Bool-cases (overtakes (entry list i) h (entry list (next i)))) [
        | inl here ↦ (i, lt_i, here, rw (here, advance_tail) refl)
        | inr later ↦
            let closer : distance (next i) k + 1 ≡ distance i k =
              distance-next i k lt_i lt_k (λ e. cc) in
            let (j, lt_j, found, e) =
              advance_tail-Between fuel h (next i) k (next-lt i) lt_k (omega (arith, closer))
                between in
            (
              j,
              lt_j,
              found,
              rw (later, advance_tail)
                  (with_entry-entry (next (next i)) (next-lt (next i)) (λ offset.
                      advance_tail list fuel h (entry list (next i)) (next (next i)) offset)
                    ∙ e),
            )
      ]

  -- If the new offset lies between no entry and the next one, the loop never ends, however much
  -- fuel it is given.
  pub advance_tail-endless :
      (fuel h i : ℕ)
      → i < buffer_list_size
      → ((j : ℕ) → j < buffer_list_size → overtakes (entry list j) h (entry list (next j)) ≡ false)
      → advance_tail list fuel h (entry list i) (next i) (entry list (next i)) ≡ out_of_fuel
  unfolding advance_tail
  advance_tail-endless zero h i lt never = refl
  advance_tail-endless (suc fuel) h i lt never =
      rw (never i lt, advance_tail)
        (with_entry-entry (next (next i)) (next-lt (next i))
            (λ offset. advance_tail list fuel h (entry list (next i)) (next (next i)) offset)
          ∙ advance_tail-endless fuel h (next i) (next-lt i) never)
