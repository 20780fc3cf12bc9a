-- ===== src/Thread/Exclusion.antt =====
-- At most one processing thread runs.
use dipp.Base.{
  ℕ, zero, suc, ◌+◌, ◌%◌, ltb, ◌==◌, ◌≡◌, ◌≤◌, refl, List, [], ◌∷◌, ◌++◌, some, Bool, true, false,
  arith, get_elem?, set,
}
use dipp.Thread.Defs.{
  CallbackPc, idle, claiming, creating, greeting, allocating, starting, leaving, ThreadPc, running,
  resetting, reporting, flushing, destroying, ended, World, use_logger, destroy_logger,
  create_logger, claim, start_thread, give_up, callback_step, thread_step, Step, set_pipeline_run,
  callback_goes_on, thread_goes_on, Reachable, at_start, behind,
}

abbrev is_running : ThreadPc → ℕ
is_running (running all wait) = 1
is_running pc = 0

-- How many threads are in `process_one` or `process_all`.
abbrev pub running_count : List ThreadPc → ℕ
running_count [] = 0
running_count (pc ∷ pcs) = is_running pc + running_count pcs

-- A callback that has won the compare-and-exchange and has not yet started its thread.
abbrev pub claims : CallbackPc → ℕ
claims idle = 0
claims (claiming value) = 0
claims leaving = 0
claims pc = 1

-- `is_processing` counts the running threads and the callback that is about to start one; it is at
-- most 1.
abbrev pub Exclusive : World → Type 0
Exclusive w =
    (running_count w.threads + claims w.callback ≡ w.is_processing) × (w.is_processing ≤ 1)

running_count-append :
    (xs ys : List ThreadPc) → running_count (xs ++ ys) ≡ running_count xs + running_count ys
running_count-append [] ys = omega arith
running_count-append (x ∷ xs) ys = omega (arith, running_count-append xs ys)

running_count-set :
    (xs : List ThreadPc) (i : ℕ) (old new : ThreadPc)
    → get_elem? xs i ≡ some old
    → running_count (set xs i new) + is_running old ≡ running_count xs + is_running new
running_count-set [] i old new e = cc
running_count-set (x ∷ xs) zero old new e = ground arith
running_count-set (x ∷ xs) (suc i) old new e = omega (arith, running_count-set xs i old new e)

-- What the functions of the logger leave alone.
abbrev Beside : World → World → Type 0
Beside w v =
    (v.is_processing ≡ w.is_processing) × (v.callback ≡ w.callback) × (v.threads ≡ w.threads)

use_logger-Beside : (w : World) → Beside w (use_logger w)
unfolding use_logger
use_logger-Beside w = ground arith

destroy_logger-Beside : (w : World) → Beside w (destroy_logger w)
unfolding destroy_logger
destroy_logger-Beside w = ground arith

create_logger-Beside : (ok : Bool) (w : World) → Beside w (create_logger ok w)
unfolding create_logger
create_logger-Beside true w = (refl, refl, refl)
create_logger-Beside false w = (refl, refl, refl)

callback_step-Exclusive :
    (ok : Bool) (pc : CallbackPc) (w : World)
    → w.callback ≡ pc
    → Exclusive w
    → Exclusive (callback_step ok pc w)
unfolding callback_step claim start_thread give_up
callback_step-Exclusive ok idle w e x = x
callback_step-Exclusive ok (claiming value) w e x = ground arith
callback_step-Exclusive ok (creating value) w e x = ground (arith, create_logger-Beside ok w)
callback_step-Exclusive ok (greeting value) w e x = ground (arith, use_logger-Beside w)
callback_step-Exclusive ok (allocating value) w e x = ground arith
callback_step-Exclusive ok (starting value) w e x =
    ground (arith, running_count-append w.threads (running (value % 2 == 0) (ltb 2 value) ∷ []))
callback_step-Exclusive ok leaving w e x = ground (arith, use_logger-Beside w)

thread_step-Exclusive :
    (i : ℕ) (pc : ThreadPc) (w : World)
    → get_elem? w.threads i ≡ some pc
    → Exclusive w
    → Exclusive (thread_step i pc w)
unfolding thread_step
thread_step-Exclusive i (running all wait) w e x =
    omega (arith, running_count-set w.threads i (running all wait) resetting e)
thread_step-Exclusive i resetting w e x =
    omega (arith, running_count-set w.threads i resetting reporting e)
thread_step-Exclusive i reporting w e x =
    ground (arith, running_count-set w.threads i reporting flushing e, use_logger-Beside w)
thread_step-Exclusive i flushing w e x =
    ground (arith, running_count-set w.threads i flushing destroying e, use_logger-Beside w)
thread_step-Exclusive i destroying w e x =
    ground (arith, running_count-set w.threads i destroying ended e, destroy_logger-Beside w)
thread_step-Exclusive i ended w e x = x

Step-Exclusive : {v w : World} → Step v w → Exclusive v → Exclusive w
Step-Exclusive (set_pipeline_run value v e) x = ground arith
Step-Exclusive (callback_goes_on ok v) x = callback_step-Exclusive ok v.callback v refl x
Step-Exclusive (thread_goes_on i pc v e) x = thread_step-Exclusive i pc v e x

-- However callbacks and processing threads interleave, and whatever the allocator and the kernel
-- answer: `is_processing` is the number of threads in `process_one` or `process_all`, with one for
-- a callback that is about to start one; and it is at most 1. So no two threads process batches at
-- once, and none is started while another runs.
pub Reachable-Exclusive : {w : World} → Reachable w → Exclusive w
Reachable-Exclusive at_start = (refl, omega arith)
Reachable-Exclusive (behind r step) = Step-Exclusive step (Reachable-Exclusive r)
