-- ===== src/Process/Execute.antt =====
-- `execute_module_in_process` and `execute_pipeline`.
use dipp.Base.{ℕ, zero, suc, ◌+◌, ◌%◌, List, Option, none, some, ltb, if◌then◌else◌, get_elem?}
use dipp.Base.Int.{ℤ, pos, negsuc}
use dipp.Types.{Status, success, failure, ImageBatch, Pipeline, ModuleParameterList}
use dipp.Machine.{Env, M, ◌>>=◌, ◌>>◌, pure, fault, gets, modify, ask, emit, fork, waitpid}
use dipp.Errors.{
  code_value, set_error_param, pipe_read, pipe_empty, pipe_create, module_exit_normal,
  module_exit_crash, module_exit_custom,
}
use dipp.Config.{invalidate_cache}
use dipp.Process.Pipes.{
  ReadResult, read_failed, end_of_file, got, create_pipes, close_pipes, read_output_pipe,
  read_error_pipe,
}
use dipp.Process.Child.{ExitStatus, exit_code, signaled, run_child}

-- The code for a word that the module wrote: below 100 it is a custom code of the module.
unfoldable pub module_error_code : ℕ → ℕ
module_error_code word = if ltb word 100 then code_value module_exit_custom + word else word

unfoldable pub report_error : ReadResult ℕ → M (Unit {0})
unfolding module_error_code
report_error read_failed = set_error_param (code_value pipe_read)
report_error end_of_file = set_error_param (code_value module_exit_normal)
report_error (got word) = set_error_param (module_error_code word)

-- `&module_parameter_lists[id]`: `none` is a pointer outside the array.
unfoldable pub parameter_list_at : ℤ → List ModuleParameterList → Option ModuleParameterList
parameter_list_at (pos i) lists = get_elem? lists i
parameter_list_at (negsuc n) lists = none

-- `data` after `read(output_pipe[0], &result, …)`.
unfoldable pub copy_result : ImageBatch → ImageBatch → ImageBatch
copy_result batch result = record batch {
  shmid = result.shmid;
  num_images = result.num_images;
  batch_size = result.batch_size;
  pipeline_id = result.pipeline_id;
}

-- The early return of a failed round.
unfoldable pub on_success :
    (ImageBatch → M (Status × ImageBatch)) → Status × ImageBatch → M (Status × ImageBatch)
on_success next (failure, batch) = pure (failure, batch)
on_success next (success, batch) = next batch

module _ (env : Env) where
  -- The parent after `waitpid`.
  unfoldable pub judge_child : ExitStatus → M Status
  unfolding invalidate_cache
  judge_child (exit_code zero) = pure success
  judge_child (exit_code (suc code)) = do
    word ← read_error_pipe env
    report_error word
    invalidate_cache
    pure failure
  judge_child signaled = do
    set_error_param (code_value module_exit_crash)
    invalidate_cache
    pure failure

  -- If `fork` fails, `waitpid` has no child to wait for and `status` is read uninitialised.
  unfoldable pub execute_module_in_process :
      Option ℕ → ImageBatch → Option ModuleParameterList → M Status
  execute_module_in_process func input config = do
    forked ← ask env.fork_ok fork
    if forked
        then (do status ← run_child env func input config; emit waitpid; judge_child status)
        else fault

  -- What follows a module: the result is read, or the pipeline fails.
  unfoldable pub collect_result : ImageBatch → Status → M (Status × ImageBatch)
  unfolding copy_result
  collect_result batch failure = close_pipes >> pure (failure, batch)
  collect_result batch success = do
    result ← read_output_pipe env
    elim result [
      | read_failed ↦ set_error_param (code_value pipe_read) >> pure (failure, batch)
      | end_of_file ↦ set_error_param (code_value pipe_empty) >> pure (failure, batch)
      | got output ↦ pure (success, copy_result batch output)
    ]

  -- One round of the loop, for the module at index `i`.
  unfoldable pub run_module_at : Pipeline → ℕ → ImageBatch → M (Status × ImageBatch)
  unfolding parameter_list_at
  run_module_at pipeline i batch = do
    modify (λ s. record s { err_current_module = (i + 1) % 256 })
    lists ← gets (λ s. s.module_parameter_lists)
    elim (get_elem? pipeline.modules i) [
      | none ↦ fault
      | some m ↦
          execute_module_in_process m.module_function batch
            (parameter_list_at m.module_param_id lists)
          >>= collect_result batch
    ]

  -- The loop from index `i` on, with `rounds` modules left, and the closing of the pipes behind it.
  unfoldable pub run_modules : Pipeline → ℕ → ℕ → ImageBatch → M (Status × ImageBatch)
  unfolding on_success
  run_modules pipeline i zero batch = close_pipes >> pure (success, batch)
  run_modules pipeline i (suc rounds) batch =
      run_module_at pipeline i batch
      >>= on_success (λ next. run_modules pipeline (i + 1) rounds next)

  unfoldable pub execute_pipeline : Pipeline → ImageBatch → M (Status × ImageBatch)
  execute_pipeline pipeline batch = do
    created ← create_pipes env
    if created
        then run_modules pipeline 0 pipeline.num_modules batch
        else (set_error_param (code_value pipe_create) >> pure (failure, batch))
