-- ===== src/Errors/Decode.antt =====
-- The error parameter can be read back: its digits name the code, the pipeline and the module.
use dipp.Base.{ℕ, ◌/◌, ◌%◌, ◌^◌, ◌<◌, ◌≡◌, arith}
use dipp.Errors.Defs.{get_error_as_uint32}

-- The three fields that an operator reads in `log_status`.
abbrev pub status_code : ℕ → ℕ
status_code v = v / 1000

abbrev pub status_pipeline : ℕ → ℕ
status_pipeline v = v % 1000 / 100

abbrev pub status_module : ℕ → ℕ
status_module v = v % 100

-- For every 16-bit code, a pipeline of one digit and a module of two digits, the value that is put
-- into the error parameter gives all three back.
pub status-get_error_as_uint32 :
    (code pipeline current_module : ℕ)
    → code < 2 ^ 16
    → pipeline < 10
    → current_module < 100
    → (status_code (get_error_as_uint32 code pipeline current_module) ≡ code)
      × (status_pipeline (get_error_as_uint32 code pipeline current_module) ≡ pipeline)
      × (status_module (get_error_as_uint32 code pipeline current_module) ≡ current_module)
unfolding get_error_as_uint32
status-get_error_as_uint32 code pipeline current_module hc hp hm = omega arith
