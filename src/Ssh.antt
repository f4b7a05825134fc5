-- ===== src/Ssh.antt =====
-- harness/ssh.py: remote commands, and `preflight_target` in a child.
mod Remote
mod Target
pub mod Database
pub mod Raises
pub mod Verdict
unfoldable pub use Remote.*
unfoldable pub use Target.*
