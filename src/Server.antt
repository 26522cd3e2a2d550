-- ===== src/Server.antt =====
-- crates/donut-server: the server's data plane.
pub mod Mux
pub mod Header
pub mod Session
pub mod Users
pub mod Fragment
