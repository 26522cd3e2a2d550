-- ===== src/Wire/Error.antt =====
-- crates/donut-wire/src/error.rs
use hold_the_donut.Prelude.{ℕ}

pub data WireError : Type 0 where
  bad_version : ℕ → WireError
  truncated : (want have : ℕ) → WireError
  unknown_command : ℕ → WireError
  unknown_address_type : ℕ → WireError
  zero_domain : WireError
  invalid_domain_utf8 : WireError
  addon_too_large : ℕ → WireError
  unknown_flow : WireError
  bad_addons_proto : WireError
  varint_overflow : WireError
