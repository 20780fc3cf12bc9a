-- ===== src/Remote/Tests.antt =====
-- The theorems on src/vmem/vmem_upload.c at small lists.
use dipp.Base.{
  ℕ, zero, suc, ◌==◌, ◌≡◌, ◌<◌, refl, List, [], ◌∷◌, some, true, false, arith, replicate, inl,
}
use dipp.Base.Int.{pos}
use dipp.Samples.{sample_env}
use dipp.Machine.{Env}
use dipp.Remote.Plan.{
  Plan, planned, out_of_fuel, overtakes, next, advance_tail, move_tail, plan, finish_plan,
  insert_offset_of,
}
use dipp.Remote.Advance.{entry, Between, advance_tail-Between, advance_tail-endless}
use dipp.Remote.Bounds.{InBuffer, plan-InBuffer}

-- Ten observations of 100 bytes.
abbrev hundreds : List ℕ
hundreds = 0 ∷ 100 ∷ 200 ∷ 300 ∷ 400 ∷ 500 ∷ 600 ∷ 700 ∷ 800 ∷ 900 ∷ []

abbrev third : Plan
third = record { insert_offset = 300; new_head = 4; new_tail = 1; new_head_offset = 303 }

-- The tail moves behind the two observations that are overwritten.
tail_moved :
    plan hundreds 10 3 4 (pos 250)
    ≡ planned (record { insert_offset = 300; new_head = 4; new_tail = 6; new_head_offset = 550 })
unfolding plan move_tail insert_offset_of finish_plan overtakes next
tail_moved = refl

-- The head wraps around to 0 and runs over the observations at 0 and 100, which lie behind the
-- tail at 99999000; the tail does not move.
wrapped :
    plan
      (0 ∷ 100 ∷ 5000 ∷ 99998000 ∷ 99999000 ∷ 0 ∷ 100 ∷ 50000000 ∷ 60000000 ∷ 70000000 ∷ [])
      10
      7
      4
      (pos 60000000)
    ≡ planned (record { insert_offset = 0; new_head = 8; new_tail = 4; new_head_offset = 60000000 })
unfolding plan move_tail insert_offset_of finish_plan overtakes next
wrapped = refl

free : overtakes 300 100 303 ≡ false
unfolding overtakes
free = refl

plan-InBuffer_example : (p : Plan) × (plan hundreds 10 3 1 (pos 3) ≡ planned p) × InBuffer 3 p
unfolding insert_offset_of
plan-InBuffer_example =
    plan-InBuffer hundreds refl 3 1 3 (omega arith) (omega arith) (omega arith) (omega arith)
      (inl free)

between : overtakes 500 550 600 ≡ true
unfolding overtakes
between = refl

advance_tail-Between_example :
    (j : ℕ) × (j < 10)
    × Between hundreds refl 550 j
    × (advance_tail hundreds 10 550 400 (next 4) 500 ≡ planned (next j))
unfolding next
advance_tail-Between_example =
    advance_tail-Between hundreds refl 10 550 4 5 (omega arith) (omega arith) (omega arith) between

-- A list as it is before the first observation.
entry-zeros : (n j : ℕ) → entry (replicate n 0) j ≡ 0
entry-zeros zero j = refl
entry-zeros (suc n) zero = refl
entry-zeros (suc n) (suc j) = entry-zeros n j

nothing_between : overtakes 0 5 0 ≡ false
unfolding overtakes
nothing_between = refl

never_between :
    (j : ℕ)
    → j < 10
    → overtakes (entry (replicate 10 0) j) 5 (entry (replicate 10 0) (next j)) ≡ false
never_between j lt = rw (entry-zeros 10 j, entry-zeros 10 (next j)) nothing_between

advance_tail-endless_example : advance_tail (replicate 10 0) 1000 5 0 (next 0) 0 ≡ out_of_fuel
unfolding next
advance_tail-endless_example =
    advance_tail-endless (replicate 10 0) refl 1000 5 0 (omega arith) never_between

abbrev node_env : Env
node_env = record sample_env {
  pull_value = λ id h. elim (id == 101) [ true ↦ some 3 | false ↦ some 1 ];
  pull_list = λ id h. some hundreds;
}
