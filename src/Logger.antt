-- ===== src/Logger.antt =====
-- The log buffer and the log file: src/logger.c with src/include/logger.h.
mod Defs
pub mod Flush
pub mod Tests
unfoldable pub use Defs.*
