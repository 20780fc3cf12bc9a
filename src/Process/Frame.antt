-- ===== src/Process/Frame.antt =====
-- What the run of a module leaves alone, however the outside world answers.
use dipp.Base.{ℕ, zero, suc, ◌≡◌, ◌∷◌, Option, none, some, arith, Bool-cases, inl, inr}
use dipp.Types.{ImageBatch, ModuleParameterList}
use dipp.Machine.{Env, State, ModuleRun, returned, timed_out, exited, killed, fork, waitpid}
use dipp.Machine.Hoare.{IfReturns, IfReturns-bind, IfReturns-mono}
use dipp.Machine.Trace.{count_events, is_fork, Untouched}
use dipp.Errors.{set_error_param}
use dipp.Process.Pipes.{read_error_pipe}
use dipp.Process.Child.{
  ExitStatus, exit_code, signaled, finish_child, timeout_handler, write_result, run_child,
}
use dipp.Process.Execute.{report_error, judge_child, execute_module_in_process}

abbrev pub forks : State → ℕ
forks s = count_events is_fork s.trace

-- The variables that only `execute_pipeline` and its callers change stay as they were.
abbrev pub Frame : State → State → Type 0
Frame s t =
    (t.err_current_pipeline ≡ s.err_current_pipeline)
    × (t.err_current_module ≡ s.err_current_module)
    × (t.pipelines ≡ s.pipelines)
    × (t.module_parameter_lists ≡ s.module_parameter_lists)
    × (t.open_ends ≡ s.open_ends)
    × (t.logger ≡ s.logger)
    × (t.log_entries ≡ s.log_entries)
    × Untouched s.trace t.trace

-- The frame, and how many processes have been forked.
abbrev pub Forked : ℕ → State → State → Type 0
Forked n s t = Frame s t × (forks t ≡ n)

module _ (env : Env) where
  finish_child-Forked :
      (r : ModuleRun) (s : State)
      → IfReturns (λ status t. Forked (forks s) s t) (finish_child env r s)
  unfolding finish_child timeout_handler write_result
  finish_child-Forked (returned words result) s = ground arith
  finish_child-Forked (timed_out words) s = ground arith
  finish_child-Forked (exited words code) s = ground arith
  finish_child-Forked (killed words) s = ground arith

  run_child-Forked :
      (func : Option ℕ) (input : ImageBatch) (config : Option ModuleParameterList) (s : State)
      → IfReturns (λ status t. Forked (forks s) s t) (run_child env func input config s)
  unfolding run_child
  run_child-Forked none input config s = ground arith
  run_child-Forked (some address) input config s = finish_child-Forked _ _

  judge_child-Forked :
      (status : ExitStatus) (s : State)
      → IfReturns (λ result t. Forked (forks s) s t) (judge_child env status s)
  unfolding judge_child read_error_pipe report_error set_error_param
  judge_child-Forked (exit_code zero) s = ground arith
  judge_child-Forked (exit_code (suc code)) s = ground arith
  judge_child-Forked signaled s = ground arith

  -- Whatever the kernel and the module do: one fork, and the rest as it was.
  pub execute_module_in_process-Forked :
      (func : Option ℕ) (input : ImageBatch) (config : Option ModuleParameterList) (s : State)
      → IfReturns
          (λ result t. Forked (suc (forks s)) s t)
          (execute_module_in_process env func input config s)
  unfolding execute_module_in_process
  execute_module_in_process-Forked func input config s = elim (Bool-cases (env.fork_ok s.trace)) [
    | inl forked ↦ rw forked (
        IfReturns-bind (λ status t. Forked (suc (forks s)) s t) _ (run_child env func input config)
          _ (record s { trace = fork ∷ s.trace })
          (run_child-Forked func input config (record s { trace = fork ∷ s.trace }))
          (λ status t f.
            IfReturns-mono (λ result. Forked (forks t) t) (λ result. Forked (suc (forks s)) s)
              (λ result u g. ground arith) _
              (judge_child-Forked status (record t { trace = waitpid ∷ t.trace }))))
    | inr not_forked ↦ rw not_forked tt
  ]
