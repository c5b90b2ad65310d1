-- ===== src/Config.antt =====
-- The configuration (util/config.go).
pub mod Settings
pub mod Database
pub mod Defaults
pub mod Loaded
pub mod Secrecy
