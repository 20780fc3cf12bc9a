-- ===== src/Thread/Defs.antt =====
-- The steps of the threads. A callback runs in the thread that serves parameters, one at a time; a
-- processing thread runs beside it. A step is one access to what they share; the work of
-- `process_one` and `process_all` is one step here, since it shares only the logger.
use dipp.Base.{
  ℕ, suc, ◌≡◌, ◌%◌, List, [], ◌∷◌, ◌++◌, Option, none, some, Bool, true, false, ltb, ◌==◌,
  if◌then◌else◌, get_elem?, set,
}

-- Where a callback is: outside, before the compare-and-exchange, before `logger_create`, before its
-- first message, before `malloc`, before `pthread_create`, before its last message.
pub data CallbackPc : Type 0 where
  idle : CallbackPc
  claiming : ℕ → CallbackPc
  creating : ℕ → CallbackPc
  greeting : ℕ → CallbackPc
  allocating : ℕ → CallbackPc
  starting : ℕ → CallbackPc
  leaving : CallbackPc

-- Where a processing thread is: in `process_all` or `process_one` with its arguments `all` and
-- `wait`, before it resets the parameter, before its message, before `logger_flush`, before
-- `logger_destroy`, at the end.
pub data ThreadPc : Type 0 where
  running : Bool → Bool → ThreadPc
  resetting : ThreadPc
  reporting : ThreadPc
  flushing : ThreadPc
  destroying : ThreadPc
  ended : ThreadPc

-- What the threads share. A `Logger *` is a number; `live` are those that have not been freed, and
-- `fresh` is the next one. `faulty` says that a freed one has been used.
pub record World : Type 0 where
  pub is_processing : ℕ
  pub pipeline_run : ℕ
  pub logger : Option ℕ
  pub live : List ℕ
  pub fresh : ℕ
  pub faulty : Bool
  pub callback : CallbackPc
  pub threads : List ThreadPc

unfoldable pub is_live : ℕ → List ℕ → Bool
is_live l [] = false
is_live l (k ∷ ks) = if k == l then true else is_live l ks

unfoldable pub remove : ℕ → List ℕ → List ℕ
remove l [] = []
remove l (k ∷ ks) = if k == l then ks else k ∷ remove l ks

-- A call of a function of the logger: a NULL pointer does nothing, a freed one is a fault.
unfoldable pub use_logger : World → World
unfolding is_live
use_logger w = elim w.logger [
  | none ↦ w
  | some l ↦ if is_live l w.live then w else record w { faulty = true }
]

-- `logger_destroy` frees the object, and leaves the global pointer as it is.
unfoldable pub destroy_logger : World → World
unfolding is_live remove
destroy_logger w = elim w.logger [
  | none ↦ w
  | some l ↦
      if is_live l w.live then record w { live = remove l w.live } else record w { faulty = true }
]

-- `logger = logger_create(full_path)`
unfoldable pub create_logger : Bool → World → World
create_logger true w = record w {
  logger = some w.fresh;
  live = w.fresh ∷ w.live;
  fresh = suc w.fresh;
}
create_logger false w = record w { logger = none }

-- The compare-and-exchange behind the test of the value.
unfoldable pub claim : ℕ → World → World
claim value w =
    if value == 0
    then record w { callback = idle }
    else (if w.is_processing == 0
        then record w { is_processing = 1; callback = creating value }
        else record w { callback = idle })

-- The new thread has `all` for an even value, and `wait` for one above 2.
unfoldable pub start_thread : ℕ → World → World
start_thread value w = record w {
  threads = w.threads ++ running (value % 2 == 0) (ltb 2 value) ∷ [];
  callback = leaving;
}

-- A callback that gives up.
unfoldable pub give_up : World → World
give_up w = record w { is_processing = 0; callback = idle }

-- One step of the callback; `ok` is the answer of the call that it makes.
unfoldable pub callback_step : Bool → CallbackPc → World → World
unfolding use_logger create_logger claim start_thread give_up
callback_step ok idle w = w
callback_step ok (claiming value) w = claim value w
callback_step ok (creating value) w = record (create_logger ok w) { callback = greeting value }
callback_step ok (greeting value) w = record (use_logger w) { callback = allocating value }
callback_step ok (allocating value) w =
    if ok then record w { callback = starting value } else give_up w
callback_step ok (starting value) w = if ok then start_thread value w else give_up w
callback_step ok leaving w = record (use_logger w) { callback = idle }

-- One step of the processing thread at index `i`.
unfoldable pub thread_step : ℕ → ThreadPc → World → World
unfolding use_logger destroy_logger
thread_step i (running all wait) w = record w {
  is_processing = 0;
  threads = set w.threads i resetting;
}
thread_step i resetting w = record w { pipeline_run = 0; threads = set w.threads i reporting }
thread_step i reporting w = record (use_logger w) { threads = set w.threads i flushing }
thread_step i flushing w = record (use_logger w) { threads = set w.threads i destroying }
thread_step i destroying w = record (destroy_logger w) { threads = set w.threads i ended }
thread_step i ended w = w

-- The steps of the whole: the parameter is set while no callback runs, a callback goes on, or a
-- processing thread does.
pub data Step : World → World → Type 0 where
  set_pipeline_run :
      (value : ℕ) (w : World)
      → w.callback ≡ idle
      → Step w (record w { pipeline_run = value; callback = claiming value })
  callback_goes_on : (ok : Bool) (w : World) → Step w (callback_step ok w.callback w)
  thread_goes_on :
      (i : ℕ) (pc : ThreadPc) (w : World)
      → get_elem? w.threads i ≡ some pc
      → Step w (thread_step i pc w)

-- The start of the program.
abbrev pub start_world : World
start_world = record {
  is_processing = 0;
  pipeline_run = 0;
  logger = none;
  live = [];
  fresh = 0;
  faulty = false;
  callback = idle;
  threads = [];
}

pub data Reachable : World → Type 0 where
  at_start : Reachable start_world
  behind : {v w : World} → Reachable v → Step v w → Reachable w
