-- ===== src/Storage.antt =====
-- The storage file of the parameters: src/include/vmem/vmem_storage.h.
mod Defs
pub mod Disjoint
pub mod Tests
unfoldable pub use Defs.*
