-- ===== src/Upload.antt =====
-- The upload of a batch into the local ring buffer, one observation for each image:
-- src/vmem/vmem_upload_local.c, which src/dipp_process.c calls.
mod Defs
pub mod Blocks
pub mod Frame
pub mod Vars
pub mod Tests
unfoldable pub use Defs.*
