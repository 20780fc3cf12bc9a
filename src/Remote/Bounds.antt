-- ===== src/Remote/Bounds.antt =====
-- Where the data goes, and which entries of the list are in use afterwards.
use dipp.Base.{
  ℕ, ◌+◌, ◌%◌, ◌^◌, ◌≡◌, ◌≢◌, ◌≤◌, ◌<◌, ◌⊎◌, refl, ap, ◌∙◌, List, false, arith, length, Bool-cases,
  inl, inr,
}
use dipp.Base.Int.{pos}
use dipp.Remote.Plan.{
  buffer_list_size, buffer_vmem_size, overtakes, next, Plan, planned, advance_tail, move_tail,
  finish_plan, insert_offset_of, with_entry, plan_with, plan,
}
use dipp.Remote.Advance.{entry, Between, advance_tail-Between, with_entry-entry, next-lt}

-- The data lies in the buffer, the indices in the list, and the list is not empty.
abbrev pub InBuffer : ℕ → Plan → Type 0
InBuffer len p =
    (p.insert_offset + len ≤ buffer_vmem_size)
    × (p.new_head_offset ≡ p.insert_offset + len)
    × (p.new_head < buffer_list_size)
    × (p.new_tail < buffer_list_size)
    × (p.new_head ≢ p.new_tail)

insert_offset_of-le :
    (head_offset len : ℕ)
    → head_offset ≤ buffer_vmem_size
    → len ≤ buffer_vmem_size
    → insert_offset_of head_offset (pos len) + len ≤ buffer_vmem_size
unfolding insert_offset_of
insert_offset_of-le head_offset len h l = ground arith

next-ne : (i : ℕ) → i < buffer_list_size → next i ≢ i
unfolding next
next-ne i lt = omega arith

finish_plan-InBuffer :
    (insert_offset len head tail : ℕ)
    → insert_offset + len ≤ buffer_vmem_size
    → tail < buffer_list_size
    → InBuffer len (finish_plan insert_offset (insert_offset + len) head tail)
unfolding finish_plan next
finish_plan-InBuffer insert_offset len head tail room lt = ground arith

module _ (list : List ℕ) (full : length list ≡ buffer_list_size) where
  -- Either the new offset does not overtake the tail, or it lies between two entries.
  abbrev pub Stops : ℕ → ℕ → ℕ → Type 0
  Stops head tail h =
      (overtakes (entry list head) (entry list tail) h ≡ false)
      ⊎ ((k : ℕ) × (k < buffer_list_size) × Between list full h k)

  move_tail-planned :
      (head tail h : ℕ)
      → tail < buffer_list_size
      → Stops head tail h
      → (new_tail : ℕ) × (new_tail < buffer_list_size)
        × (move_tail list 10 (entry list head) h tail (entry list tail) ≡ planned new_tail)
  unfolding move_tail
  move_tail-planned head tail h lt stops =
      elim (Bool-cases (overtakes (entry list head) (entry list tail) h)) [
        | inr free ↦ (tail, lt, rw (free, move_tail) refl)
        | inl taken ↦ elim stops [
          | inl free ↦ absurd (ground (arith, taken, free))
          | inr (k, lt_k, between) ↦
              let (j, lt_j, found, e) =
                advance_tail-Between list full 10 h tail k lt lt_k (omega arith) between in
              (
                next j,
                next-lt list full j,
                rw (taken, move_tail)
                    (with_entry-entry list full (next tail) (next-lt list full tail)
                        (λ offset. advance_tail list 10 h (entry list tail) (next tail) offset)
                      ∙ e),
              )
        ]
      ]

  plan_with-planned :
      (head tail len new_tail : ℕ)
      → entry list head ≤ buffer_vmem_size
      → len ≤ buffer_vmem_size
      → move_tail list 10
          (entry list head)
          (insert_offset_of (entry list head) (pos len) + len)
          tail
          (entry list tail)
        ≡ planned new_tail
      → plan_with list 10 head tail (pos len) (entry list head) (entry list tail)
        ≡ planned (
            finish_plan
              (insert_offset_of (entry list head) (pos len))
              (insert_offset_of (entry list head) (pos len) + len)
              head
              new_tail)
  unfolding plan_with
  plan_with-planned head tail len new_tail offset small e =
      rw (no_wrap, e, plan_with)
        (ap
          (λ h.
            planned (finish_plan (insert_offset_of (entry list head) (pos len)) h head new_tail))
          no_wrap)
    where
      no_wrap :
          (insert_offset_of (entry list head) (pos len) + len % 2 ^ 32) % 2 ^ 32
          ≡ insert_offset_of (entry list head) (pos len) + len
      no_wrap = omega (arith, insert_offset_of-le (entry list head) len offset small)

  -- Let the other node keep a list of ten offsets, its head and tail be indices of it, and the
  -- offset at its head and the length of the data be at most the size of the buffer. If the end of
  -- the data does not overtake the tail, or lies between some entry and the next one, the plan is
  -- made, with ten rounds of the loop: the data lies inside the buffer, the new head and the new
  -- tail are indices of the list and differ, and the offset that is pushed is the end of the data.
  pub plan-InBuffer :
      (head tail len : ℕ)
      → head < buffer_list_size
      → tail < buffer_list_size
      → entry list head ≤ buffer_vmem_size
      → len ≤ buffer_vmem_size
      → Stops head tail (insert_offset_of (entry list head) (pos len) + len)
      → (p : Plan) × (plan list 10 head tail (pos len) ≡ planned p) × InBuffer len p
  unfolding plan
  plan-InBuffer head tail len lt_head lt_tail offset small stops =
      let (new_tail, lt, e) = move_tail-planned head tail h lt_tail stops in
      (
        finish_plan start h head new_tail,
        with_entry-entry list full head lt_head (λ head_offset.
              with_entry list tail
                (λ tail_offset. plan_with list 10 head tail (pos len) head_offset tail_offset))
            ∙ with_entry-entry list full tail lt_tail
                (λ tail_offset. plan_with list 10 head tail (pos len) (entry list head) tail_offset)
            ∙ plan_with-planned head tail len new_tail offset small e,
        finish_plan-InBuffer start len head new_tail
            (insert_offset_of-le (entry list head) len offset small) lt,
      )
    where
      start : ℕ
      start = insert_offset_of (entry list head) (pos len)

      h : ℕ
      h = start + len
