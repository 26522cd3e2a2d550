-- ===== src/Io.antt =====
-- crates/donut-io: Vision as xray-core does it, and what the relay needs besides.
pub mod VisionXray
pub mod Vision
