-- ===== src/Machine.antt =====
-- The state of the program and the way its functions run: src/dipp_process.c, src/dipp_config.c,
-- src/dipp_error.c and src/logger.c keep global variables, and call the C library, libparam,
-- protobuf-c, brotli and the shared objects of the modules.
mod Events
mod Answers
mod Monad
pub mod Hoare
pub mod Trace
pub mod Aside
pub use Events.*
pub use Answers.*
pub use Monad.*
