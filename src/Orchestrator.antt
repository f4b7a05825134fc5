-- ===== src/Orchestrator.antt =====
-- harness/orchestrator.py. The registered runners are a parameter, as `register_runner` makes them.
mod Scenario
mod Campaign
pub mod Database
pub mod Invariant
pub mod Latest
pub mod Resume
unfoldable pub use Scenario.*
unfoldable pub use Campaign.*
