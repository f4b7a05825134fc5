-- ===== src/Runners.antt =====
-- harness/runners: the interface of a runner, and the fio runner.
pub mod Interface
pub mod Fio
