-- ===== src/Errors/Tests.antt =====
-- The examples of README.md, and the theorems on the error parameter at them.
use dipp.Base.{◌≡◌, refl, arith}
use dipp.Errors.Defs.{get_error_as_uint32}
use dipp.Errors.Decode.{status_code, status_pipeline, status_module, status-get_error_as_uint32}

module_4_failed : get_error_as_uint32 708 1 4 ≡ 708104
unfolding get_error_as_uint32
module_4_failed = refl

module_12_crashed : get_error_as_uint32 600 2 12 ≡ 600212
unfolding get_error_as_uint32
module_12_crashed = refl

status-get_error_as_uint32_example :
    (status_code (get_error_as_uint32 708 1 4) ≡ 708)
    × (status_pipeline (get_error_as_uint32 708 1 4) ≡ 1)
    × (status_module (get_error_as_uint32 708 1 4) ≡ 4)
status-get_error_as_uint32_example =
    status-get_error_as_uint32 708 1 4 (omega arith) (omega arith) (omega arith)
