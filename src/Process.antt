-- ===== src/Process.antt =====
-- Running the pipelines: src/dipp_process.c with src/include/dipp_process.h.
mod Pipes
mod Child
mod Execute
mod Batch
mod Queue
mod Loop
mod Save
pub mod Saved
pub mod Verdict
pub mod Frame
pub mod Segment
pub mod Kept
pub mod Between
pub mod Clean
pub mod Delivery
pub mod Rounds
pub mod Drained
pub mod Cold
pub mod Lookup
pub mod Message
pub mod Compose
pub mod Pipeline
pub mod Tests
unfoldable pub use Pipes.*
unfoldable pub use Child.*
unfoldable pub use Execute.*
unfoldable pub use Batch.*
unfoldable pub use Queue.*
unfoldable pub use Loop.*
unfoldable pub use Save.*
