-- ===== src/Tasks.antt =====
-- services/tasks: the pool of tasks and the runner of one task.
pub mod World
pub mod Incoming
pub mod Alert
pub mod Status
pub mod Pool
pub mod System
pub mod Version
pub mod Details
pub mod Add
pub mod Stop
pub mod Run
pub mod Remote
