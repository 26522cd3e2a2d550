-- ===== src/Wire.antt =====
-- crates/donut-wire: the codec of the VLESS inner frame and of Vision padding.
pub mod Error
pub mod Varint
pub mod Addons
pub mod Reader
pub mod Request
pub mod Vision
