-- ===== src/Core.antt =====
-- crates/donut-core: the vocabulary of the other crates.
pub mod Address
pub mod Kinds
pub mod Id
pub mod Auth
