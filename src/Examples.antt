-- ===== src/Examples.antt =====
-- Runs at concrete inputs.
pub mod Data
pub mod Wire
pub mod Vision
pub mod Server
pub mod Sessions
pub mod Text
pub mod Store
pub mod Entry
pub mod Tls
pub mod Hex
pub mod Carrier
pub mod Fragment
pub mod Geo
