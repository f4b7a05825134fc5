-- ===== src/DataGen/Teacher.antt =====
-- data-gen/orchestrator.py: the teacher run, which restarts vLLM for each chunk of requests.
mod Commands
mod Shell
mod Chunks
pub mod BailOut
pub mod Stops
pub mod Bounds
pub mod Wait
unfoldable pub use Commands.*
unfoldable pub use Shell.*
unfoldable pub use Chunks.*
