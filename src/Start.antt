-- ===== src/Start.antt =====
-- The start of the program: src/main.c and src/serial.c.
mod Options
mod Defs
pub mod Parsed
pub mod Ifaces
pub mod Tests
unfoldable pub use Options.*
unfoldable pub use Defs.*
