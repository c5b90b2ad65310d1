-- ===== src/Runners.antt =====
-- The runners: their pool of jobs (services/runners) and the server's side of it (api/runners).
pub mod Data
pub mod Pool
pub mod Server
pub mod Unique
pub mod Progress
