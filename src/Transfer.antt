-- ===== src/Transfer.antt =====
-- The server that hands out observations: src/vmem/vmem_dtp_server.c.
mod Defs
pub mod Observation
pub mod Protocol
pub mod Tests
unfoldable pub use Defs.*
