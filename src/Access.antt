-- ===== src/Access.antt =====
-- Who may do what in a project (db/ProjectUser.go, api/projects).
pub mod Team
pub mod Owner
