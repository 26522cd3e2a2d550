-- ===== src/Core/Id.antt =====
-- `UserId` of crates/donut-core/src/id.rs: the 16 bytes of a UUID.
use hold_the_donut.Prelude.{ℕ, ◌≡◌, List, length, All, IsByte}

abbrev pub UserId : Type 0
UserId = List ℕ

abbrev pub IsUserId : UserId → Type 0
IsUserId u = (length u ≡ 16) × All IsByte u
