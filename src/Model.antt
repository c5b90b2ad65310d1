-- ===== src/Model.antt =====
-- The entities of package db (db/*.go) and the task status of package lib (lib/Logger.go). An `int`
-- identifier is a native number, a `string` its bytes, a pointer an `Option`, a time.Time a number.
pub mod Status
pub mod Resources
pub mod Template
pub mod Task
pub mod Roles
pub mod Store
