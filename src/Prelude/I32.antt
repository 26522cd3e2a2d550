-- ===== src/Prelude/I32.antt =====
-- An i32 as the number that its bit pattern is, below 2 ^ 32.
use Prim.Native.Nat.{ℕ, ◌+◌, ◌-◌, ◌%◌, ◌^◌, ◌≤◌, ◌<◌}
use mathlib.Core.Path.{◌≡◌}
use mathlib.Core.Bool.{Bool, true, ◌&&◌}
use native.Mathlib.Omega.{arith}
use hold_the_donut.Prelude.Tests.{ltb, if◌then◌else◌}

abbrev pub minus_one : ℕ
minus_one = 2 ^ 32 - 1

-- `w > 0`
abbrev pub is_positive : ℕ → Bool
is_positive w = ltb 0 w && ltb w (2 ^ 31)

-- `a - b`, and `n as i32` before it.
unfoldable pub sub_i32 : ℕ → ℕ → ℕ
sub_i32 a n = (a + (2 ^ 32 - n % 2 ^ 32)) % 2 ^ 32

-- `w as usize`: the sign is extended to 64 bits.
unfoldable pub as_usize : ℕ → ℕ
as_usize w = if ltb w (2 ^ 31) then w else w + (2 ^ 64 - 2 ^ 32)

pub sub_i32-small : (a n : ℕ) → n ≤ a → a < 65536 → sub_i32 a n ≡ a - n
unfolding sub_i32
sub_i32-small a n h k = omega arith

pub as_usize-small : (w : ℕ) → w < 65536 → as_usize w ≡ w
unfolding as_usize
as_usize-small w h = ground arith

pub is_positive-small : (w : ℕ) → 0 < w → w < 65536 → is_positive w ≡ true
is_positive-small w h k = ground arith
