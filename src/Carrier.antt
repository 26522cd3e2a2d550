-- ===== src/Carrier.antt =====
-- crates/donut-carrier: the XHTTP transport.
pub mod Config
pub mod SessionId
pub mod Extract
pub mod PacketUp
pub mod Client
