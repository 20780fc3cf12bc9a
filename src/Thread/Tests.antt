-- ===== src/Thread/Tests.antt =====
-- The threads of src/dipp_process.c in small sequences of steps.
use dipp.Base.{◌≡◌, refl, List, [], ◌∷◌, ◌++◌, true, false}
use dipp.Thread.Defs.{running, start_world, at_start, callback_step, thread_step}
use dipp.Thread.Moves.{Move, press, callback, thread, moves, moves-Reachable}
use dipp.Thread.Exclusion.{Exclusive, Reachable-Exclusive}

-- The parameter is set to 2, and the callback starts its thread.
abbrev one_run : List Move
one_run =
    press 2
    ∷ callback true
    ∷ callback true
    ∷ callback true
    ∷ callback true
    ∷ callback true
    ∷ callback true
    ∷ []

-- It processes all batches, without waiting for more.
one_run-threads : (moves one_run start_world).threads ≡ running true false ∷ []
unfolding callback_step thread_step
one_run-threads = refl

-- While it runs, a second callback returns at once.
second_run-refused :
    (moves (one_run ++ press 1 ∷ callback true ∷ []) start_world).threads ≡ running true false ∷ []
unfolding callback_step thread_step
second_run-refused = refl

Reachable-Exclusive_example : Exclusive (moves one_run start_world)
Reachable-Exclusive_example = Reachable-Exclusive (moves-Reachable one_run start_world at_start)

-- When the first thread has cleared `is_processing`, a second callback replaces the logger; the
-- first thread destroys it, and the second uses it.
abbrev race : List Move
race =
    one_run
    ++ thread 0
      ∷ press 2
      ∷ callback true
      ∷ callback true
      ∷ callback true
      ∷ callback true
      ∷ callback true
      ∷ thread 0
      ∷ thread 0
      ∷ thread 0
      ∷ thread 0
      ∷ callback true
      ∷ []

race-faulty : (moves race start_world).faulty ≡ true
unfolding callback_step thread_step
race-faulty = refl
