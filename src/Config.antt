-- ===== src/Config.antt =====
-- The cached configuration: src/dipp_config.c with src/include/dipp_config.h and the tables of
-- src/include/param/dipp_config_param.h.
mod Params
mod Buffer
mod Pipelines
mod Modules
mod Cache
pub mod Slots
pub mod Stored
pub mod Spec
pub mod Calls
pub mod Cached
pub mod Listed
pub mod Refined
pub mod Copied
pub mod Aside
pub mod Filled
pub mod Entries
pub mod Shape
pub mod Ready
pub mod Start
pub mod Tests
unfoldable pub use Params.*
unfoldable pub use Buffer.*
unfoldable pub use Pipelines.*
unfoldable pub use Modules.*
unfoldable pub use Cache.*
