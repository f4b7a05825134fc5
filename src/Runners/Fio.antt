-- ===== src/Runners/Fio.antt =====
-- harness/runners/fio.py: the fio runner.
mod Render
mod Prepare
mod Jobs
pub mod Database
pub mod Raises
pub mod Agreement
unfoldable pub use Render.*
unfoldable pub use Prepare.*
unfoldable pub use Jobs.*
