-- ===== src/Thread.antt =====
-- The processing thread and the callback that starts it: `callback_run`, `process_thread` and
-- `is_processing` of src/dipp_process.c.
mod Defs
pub mod Exclusion
pub mod Moves
pub mod Tests
unfoldable pub use Defs.*
