-- ===== src/Sockets.antt =====
-- The web sockets (api/sockets).
pub mod Hub
pub mod Delivery
