-- ===== src/DataGen/Generate.antt =====
-- data-gen/generate.py: the requests to vLLM for the prompts, and their rows.
pub mod Outcome
pub mod Chunked
pub mod Resume
pub mod Returns
mod Request
mod Reply
mod Run
unfoldable pub use Request.*
unfoldable pub use Reply.*
unfoldable pub use Run.*
