-- ===== src/Config.antt =====
-- harness/config.py: campaigns and scenarios, their validation, sizes and loading.
mod Schema
mod Validate
mod Sizes
mod Load
pub mod Loaded
pub mod Nodes
unfoldable pub use Schema.*
unfoldable pub use Validate.*
unfoldable pub use Sizes.*
unfoldable pub use Load.*
