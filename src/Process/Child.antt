-- ===== src/Process/Child.antt =====
-- The process of a module: the branch `pid == 0` of `execute_module_in_process`, and
-- `timeout_handler`. Of what it does, the program sees the pipes and the exit status.
use dipp.Base.{ℕ, ◌%◌, List, [], ◌∷◌, ◌++◌, Option, none, some, if◌then◌else◌}
use dipp.Types.{ImageBatch, ModuleParameterList}
use dipp.Machine.{
  Env, M, ◌>>=◌, ◌>>◌, pure, ask, emit, modify, alarm, run, write_output, write_error, ModuleRun,
  returned, timed_out, exited, killed,
}
use dipp.Errors.{code_value, module_exit_timeout}
use dipp.Process.Pipes.{set_output, set_error}

-- What `waitpid` reports: a normal end with an exit code, or a signal.
pub data ExitStatus : Type 0 where
  exit_code : ℕ → ExitStatus
  signaled : ExitStatus

unfoldable pub push_errors : List ℕ → M (Unit {0})
push_errors words = modify (λ s.
    set_error (record { queue = s.error_pipe.queue ++ words; writable = s.error_pipe.writable }) s)

unfoldable pub push_output : ImageBatch → M (Unit {0})
push_output batch = modify (λ s.
    set_output
      (record { queue = s.output_pipe.queue ++ batch ∷ []; writable = s.output_pipe.writable }) s)

module _ (env : Env) where
  -- SIGALRM: the code goes into the error pipe, and the process ends with EXIT_FAILURE. The result
  -- of `write` is not looked at.
  unfoldable pub timeout_handler : M ExitStatus
  unfolding push_errors
  timeout_handler = do
    written ← ask env.write_ok (write_error (code_value module_exit_timeout))
    if written then push_errors (code_value module_exit_timeout ∷ []) else pure tt
    pure (exit_code 1)

  unfoldable pub write_result : ImageBatch → M (Unit {0})
  unfolding push_output
  write_result batch = do
    written ← ask env.write_ok write_output
    if written then push_output batch else pure tt

  -- How the process ends once the module has been called.
  unfoldable pub finish_child : ModuleRun → M ExitStatus
  unfolding push_errors
  finish_child (returned words result) = do
    push_errors words
    emit (alarm 0)
    write_result result
    pure (exit_code 0)
  finish_child (timed_out words) = push_errors words >> timeout_handler
  finish_child (exited words code) = push_errors words >> pure (exit_code (code % 256))
  finish_child (killed words) = push_errors words >> pure signaled

  -- `alarm(param_get_uint32(&module_timeout))`
  unfoldable pub start_alarm : M (Unit {0})
  start_alarm s = emit (alarm (env.module_timeout s.trace)) s

  -- A call through a NULL function pointer ends in a signal.
  unfoldable pub run_child : Option ℕ → ImageBatch → Option ModuleParameterList → M ExitStatus
  unfolding start_alarm
  run_child func input config = do
    start_alarm
    elim func [
      | none ↦ pure signaled
      | some address ↦ ask (env.run_module address input config) (run address) >>= finish_child
    ]
