-- ===== src/Store.antt =====
-- harness/store.py: the SQLite store. The children hold its tables, its statements and its queries.
mod Schema
mod Writes
mod Reads
pub mod Invariant
pub mod Resume
pub mod Metrics
unfoldable pub use Schema.*
unfoldable pub use Writes.*
unfoldable pub use Reads.*
