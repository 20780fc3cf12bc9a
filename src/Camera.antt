-- ===== src/Camera.antt =====
-- The simulated camera: sim/camera_control.c.
mod Defs
mod Main
pub mod Written
pub mod Uploaded
pub mod Generated
pub mod Sent
pub mod Delivered
pub mod Tests
unfoldable pub use Defs.*
unfoldable pub use Main.*
