-- ===== src/Report.antt =====
-- harness/report.py
mod Spec
mod Sections
pub mod Format
pub mod Laws
unfoldable pub use Spec.*
unfoldable pub use Sections.*
