-- ===== src/Parsers.antt =====
-- harness/parsers.
pub mod Fio
