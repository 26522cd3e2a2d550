-- ===== src/Vision.antt =====
-- XTLS-Vision padding: the format that crates/donut-wire/src/vision.rs and
-- crates/donut-io/src/vision_xray.rs both implement, one byte at a time.
pub mod Stream
pub mod Runs
pub mod Frames
