-- ===== src/Local.antt =====
-- LocalJob (services/tasks/LocalJob.go, services/tasks/LobalJob_inventory.go): the run of a task on the
-- server itself.
pub mod Args
pub mod Prepare
pub mod Job
pub mod Cleanup
pub mod Arguments
