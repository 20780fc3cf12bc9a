-- ===== src/Remote/Plan.antt =====
-- `overtake`, `next`, and what `upload` computes from the head, the tail and the list of offsets
-- that the other node keeps.
use dipp.Base.{
  ℕ, zero, suc, ◌+◌, ◌%◌, ◌^◌, List, none, some, Bool, true, false, ltb, ◌==◌, ◌&&◌, ◌||◌,
  if◌then◌else◌, get_elem?,
}
use dipp.Base.Int.{ℤ, to_u32, to_i32, lt_ℤ}

abbrev pub buffer_list_size : ℕ
buffer_list_size = 10

abbrev pub buffer_vmem_size : ℕ
buffer_vmem_size = 100000000

unfoldable pub overtake : ℤ → ℤ → ℤ → Bool
overtake old target new =
    (lt_ℤ old target && lt_ℤ target new) || (lt_ℤ target old && lt_ℤ target new && lt_ℤ new old)

-- The offsets are `uint32_t`, and `overtake` takes `int`.
unfoldable pub overtakes : ℕ → ℕ → ℕ → Bool
unfolding overtake
overtakes old target new = overtake (to_i32 old) (to_i32 target) (to_i32 new)

-- Of an index of the list.
unfoldable pub next : ℕ → ℕ
next current = (current + 1) % buffer_list_size

-- What is pushed: where the data goes, the new head and tail, and the offset behind the data.
pub record Plan : Type 0 where
  pub insert_offset : ℕ
  pub new_head : ℕ
  pub new_tail : ℕ
  pub new_head_offset : ℕ

-- A loop or a computation on the list: a result, a read outside of the list, or no fuel left.
pub data Planned (A : Type 0) : Type 0 where
  planned : A → Planned A
  out_of_list : Planned A
  out_of_fuel : Planned A

-- The head and the tail once the data is inserted.
unfoldable pub finish_plan : ℕ → ℕ → ℕ → ℕ → Plan
finish_plan insert_offset new_head_offset head tail = record {
  insert_offset = insert_offset;
  new_head = next head;
  new_tail = if tail == next head then next tail else tail;
  new_head_offset = new_head_offset;
}

unfoldable pub insert_offset_of : ℕ → ℤ → ℕ
insert_offset_of head_offset len =
    if ltb buffer_vmem_size ((head_offset + to_u32 len) % 2 ^ 32) then 0 else head_offset

module _ (list : List ℕ) where
  -- `_list[i]`, and what is computed from it.
  abbrev pub with_entry : {A : Type 0} → ℕ → (ℕ → Planned A) → Planned A
  with_entry i f = elim (get_elem? list i) [ none ↦ out_of_list | some offset ↦ f offset ]

  -- The `while` loop: the new tail.
  unfoldable pub advance_tail : ℕ → ℕ → ℕ → ℕ → ℕ → Planned ℕ
  advance_tail zero new_head_offset tail_offset next_tail next_tail_offset = out_of_fuel
  advance_tail (suc fuel) new_head_offset tail_offset next_tail next_tail_offset =
      elim (overtakes tail_offset new_head_offset next_tail_offset) [
        | true ↦ planned next_tail
        | false ↦
            with_entry (next next_tail)
              (λ offset. advance_tail fuel new_head_offset next_tail_offset (next next_tail) offset)
      ]

  -- The tail behind the data that is to be inserted.
  unfoldable pub move_tail : ℕ → ℕ → ℕ → ℕ → ℕ → Planned ℕ
  unfolding advance_tail
  move_tail fuel head_offset new_head_offset tail tail_offset =
      elim (overtakes head_offset tail_offset new_head_offset) [
        | true ↦
            with_entry (next tail)
              (λ offset. advance_tail fuel new_head_offset tail_offset (next tail) offset)
        | false ↦ planned tail
      ]

  -- What is computed from the offsets at the head and at the tail.
  unfoldable pub plan_with : ℕ → ℕ → ℕ → ℤ → ℕ → ℕ → Planned Plan
  plan_with fuel head tail len head_offset tail_offset =
      let insert_offset = insert_offset_of head_offset len in
      let new_head_offset = (insert_offset + to_u32 len) % 2 ^ 32 in
      elim (move_tail fuel head_offset new_head_offset tail tail_offset) [
        | planned new_tail ↦ planned (finish_plan insert_offset new_head_offset head new_tail)
        | out_of_list ↦ out_of_list
        | out_of_fuel ↦ out_of_fuel
      ]

  unfoldable pub plan : ℕ → ℕ → ℕ → ℤ → Planned Plan
  unfolding plan_with
  plan fuel head tail len = with_entry head (λ head_offset.
      with_entry tail (λ tail_offset. plan_with fuel head tail len head_offset tail_offset))
