-- ===== src/Examples.antt =====
-- Concrete stores and states, and the theorems at them.
pub mod Disk
pub mod Statuses
pub mod Adding
pub mod Pools
pub mod Versions
pub mod Store
pub mod Files
pub mod Teams
pub mod Hubs
pub mod Ciphering
pub mod Hosts
pub mod Scheduling
pub mod Sessions
pub mod Migrating
pub mod Remote
pub mod Configured
pub mod Events
