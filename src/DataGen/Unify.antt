-- ===== src/DataGen/Unify.antt =====
-- data-gen/pass1_schema_unify.py: the rows of three sources in one schema.
mod Extract
mod Run
mod Collected
pub mod Schema
pub mod InSchema
unfoldable pub use Extract.*
unfoldable pub use Run.*
