-- ===== src/Errors.antt =====
-- Error codes and the error parameter: src/include/dipp_error.h and src/dipp_error.c.
mod Defs
pub mod Decode
pub mod Tests
unfoldable pub use Defs.*
