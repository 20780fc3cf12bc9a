-- ===== src/Errors/Defs.antt =====
-- The error codes, the code's place in the pipeline, and `set_error_param`.
use dipp.Base.{ℕ, ◌+◌, ◌*◌, ◌%◌, ◌^◌, ◌∷◌}
use dipp.Machine.{M, done, set_log_status}

pub data ErrorCode : Type 0 where
  memory_malloc : ErrorCode
  memory_realloc : ErrorCode
  memory_free : ErrorCode
  msgq_not_found : ErrorCode
  msgq_empty : ErrorCode
  shm_not_found : ErrorCode
  shm_detach : ErrorCode
  shm_remove : ErrorCode
  shm_attach : ErrorCode
  shm_stats : ErrorCode
  pipe_read : ErrorCode
  pipe_empty : ErrorCode
  pipe_create : ErrorCode
  internal_pid_not_found : ErrorCode
  internal_so_not_found : ErrorCode
  internal_run_not_found : ErrorCode
  internal_param_bool_not_found : ErrorCode
  internal_param_int_not_found : ErrorCode
  internal_param_float_not_found : ErrorCode
  internal_param_string_not_found : ErrorCode
  internal_meta_bool_not_found : ErrorCode
  internal_meta_int_not_found : ErrorCode
  internal_meta_float_not_found : ErrorCode
  internal_meta_string_not_found : ErrorCode
  internal_meta_dublicate_key : ErrorCode
  internal_remote_param_pull : ErrorCode
  internal_remote_param_push : ErrorCode
  internal_vmem_not_found : ErrorCode
  internal_vmem_upload : ErrorCode
  internal_brotli_decode : ErrorCode
  internal_timespec_clockgettime : ErrorCode
  module_exit_crash : ErrorCode
  module_exit_normal : ErrorCode
  module_exit_timeout : ErrorCode
  module_exit_custom : ErrorCode

-- The number that the enumeration gives a code.
abbrev pub code_value : ErrorCode → ℕ
code_value memory_malloc = 100
code_value memory_realloc = 101
code_value memory_free = 102
code_value msgq_not_found = 200
code_value msgq_empty = 201
code_value shm_not_found = 300
code_value shm_detach = 301
code_value shm_remove = 302
code_value shm_attach = 303
code_value shm_stats = 304
code_value pipe_read = 400
code_value pipe_empty = 401
code_value pipe_create = 402
code_value internal_pid_not_found = 500
code_value internal_so_not_found = 501
code_value internal_run_not_found = 502
code_value internal_param_bool_not_found = 503
code_value internal_param_int_not_found = 504
code_value internal_param_float_not_found = 505
code_value internal_param_string_not_found = 506
code_value internal_meta_bool_not_found = 507
code_value internal_meta_int_not_found = 508
code_value internal_meta_float_not_found = 509
code_value internal_meta_string_not_found = 510
code_value internal_meta_dublicate_key = 511
code_value internal_remote_param_pull = 512
code_value internal_remote_param_push = 513
code_value internal_vmem_not_found = 514
code_value internal_vmem_upload = 515
code_value internal_brotli_decode = 516
code_value internal_timespec_clockgettime = 517
code_value module_exit_crash = 600
code_value module_exit_normal = 601
code_value module_exit_timeout = 602
code_value module_exit_custom = 700

-- In C an `ERROR_CODE` is any `int`: `execute_module_in_process` passes sums and words of a pipe.
unfoldable pub get_error_as_uint32 : ℕ → ℕ → ℕ → ℕ
get_error_as_uint32 code pipeline current_module =
    (code * 1000 + pipeline * 100 + current_module) % 2 ^ 32

unfoldable pub set_error_param : ℕ → M (Unit {0})
set_error_param code s = done tt (record s {
  trace =
      set_log_status (get_error_as_uint32 code s.err_current_pipeline s.err_current_module)
      ∷ s.trace;
})
