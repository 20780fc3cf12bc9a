-- ===== src/Process/Verdict.antt =====
-- What becomes of a module, against an independent reading of how its process ended.
use dipp.Base.{ℕ, zero, suc, ◌%◌, ◌≡◌, List, [], ◌∷◌, ◌++◌, Option, none, some, Bool, true, false}
use dipp.Types.{Status, success, failure, ImageBatch, ModuleParameterList}
use dipp.Machine.{
  Env, State, History, Outcome, done, blocked, ModuleRun, returned, timed_out, exited, killed, fork,
  alarm, run, write_error,
}
use dipp.Machine.Trace.{log_status}
use dipp.Errors.{code_value, module_exit_crash, module_exit_timeout, get_error_as_uint32}
use dipp.Process.Pipes.{set_error}
use dipp.Process.Execute.{module_error_code}

-- The module passes, fails with a code, or leaves the program waiting.
pub data Verdict : Type 0 where
  passes : Verdict
  fails : ℕ → Verdict
  hangs : Verdict

-- A process that ended with a code other than 0 is judged by the first word in the error pipe.
abbrev pub first_word : List ℕ → Verdict
first_word [] = hangs
first_word (word ∷ words) = fails (module_error_code word)

abbrev pub by_exit_code : ℕ → List ℕ → Verdict
by_exit_code zero words = passes
by_exit_code (suc code) words = first_word words

-- `old` are the words that stand in the error pipe before.
abbrev pub verdict : List ℕ → ModuleRun → Verdict
verdict old (returned words result) = passes
verdict old (timed_out words) = first_word (old ++ words ++ code_value module_exit_timeout ∷ [])
verdict old (exited words code) = by_exit_code (code % 256) (old ++ words)
verdict old (killed words) = fails (code_value module_exit_crash)

-- What must have been done under a verdict, by a call that began with this error parameter, this
-- mark of the cache and this pipeline and module. A failed module sets the error parameter and
-- invalidates the cache; one that passes does neither.
abbrev pub MeetsFrom : Verdict → Option ℕ → Bool → ℕ → ℕ → Outcome Status → Type 0
MeetsFrom passes logged ready p m (done success t) =
    (log_status t.trace ≡ logged) × (t.is_setup ≡ ready)
MeetsFrom (fails code) logged ready p m (done failure t) =
    (log_status t.trace ≡ some (get_error_as_uint32 code p m)) × (t.is_setup ≡ false)
MeetsFrom hangs logged ready p m (blocked t) = Unit
MeetsFrom _ _ _ _ _ _ = ⊥

abbrev pub Meets : Verdict → State → Outcome Status → Type 0
Meets v s = MeetsFrom v (log_status s.trace) s.is_setup s.err_current_pipeline s.err_current_module

-- The kernel forks, reads and writes.
pub record Works (env : Env) : Type 0 where
  pub forks : (h : History) → env.fork_ok h ≡ true
  pub reads : (h : History) → env.read_ok h ≡ true
  pub writes : (h : History) → env.write_ok h ≡ true

-- The state once a module has put words into the error pipe.
abbrev with_words : List ℕ → State → State
with_words words s =
    set_error (record { queue = s.error_pipe.queue ++ words; writable = s.error_pipe.writable }) s

-- The state once the timeout handler has run too.
abbrev after_timeout : List ℕ → State → State
after_timeout words s =
    let t = with_words words s in
    with_words (code_value module_exit_timeout ∷ [])
      (record t { trace = write_error (code_value module_exit_timeout) ∷ t.trace })

-- The state in which a module's function has been called.
abbrev called_from : Env → ℕ → State → State
called_from env address s = record s {
  trace = run address ∷ alarm (env.module_timeout (fork ∷ s.trace)) ∷ fork ∷ s.trace;
}

module _ (env : Env) (w : Works env) where
  -- How the module behind a function pointer runs, if it is called from state `s`; NULL ends in a
  -- signal.
  abbrev pub run_of : Option ℕ → ImageBatch → Option ModuleParameterList → State → ModuleRun
  run_of none input config s = killed []
  run_of (some address) input config s =
      env.run_module address input config
        (alarm (env.module_timeout (fork ∷ s.trace)) ∷ fork ∷ s.trace)
