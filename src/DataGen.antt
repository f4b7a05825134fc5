-- ===== src/DataGen.antt =====
-- artifacts/concepts/llm-pipeline-on-a-workstation/reproduce/data-gen: from generated answers to the
-- splits of a training set.
pub mod Classify
pub mod Generate
pub mod Prompts
pub mod Rows
pub mod Lines
pub mod Leak
pub mod Filter
pub mod Chat
pub mod Shards
pub mod Split
pub mod Teacher
pub mod Unify
