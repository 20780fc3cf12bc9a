-- ===== src/Remote.antt =====
-- The upload into the ring buffer of another node: src/vmem/vmem_upload.c with
-- src/include/vmem/vmem_upload.h.
mod Plan
mod Defs
pub mod Advance
pub mod Bounds
pub mod Sending
pub mod Outcome
pub mod Tests
unfoldable pub use Plan.*
unfoldable pub use Defs.*
