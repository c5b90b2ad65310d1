-- ===== src/Bolt.antt =====
-- db/bolt: the key-value store under the interface db.Store.
pub mod Object
pub mod Props
pub mod Database
pub mod Objects
pub mod Query
pub mod Connections
pub mod Ids
pub mod Identity
pub mod Reading
pub mod Paging
pub mod References
pub mod Deleted
pub mod Migration
pub mod Sessions
pub mod Schedules
pub mod Events
