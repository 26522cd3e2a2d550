-- ===== src/Prelude/Bits.antt =====
-- Laws of `|`, `&` and `^` at variables, from the recursion on binary digits that they stand for.
use Prim.Native.Nat.{ℕ, zero, suc, ◌+◌, ◌*◌, ◌/◌, ◌%◌, ◌^◌, ◌≤◌, ◌<◌, max}
use Prim.Native.Nat.{bit_and, bit_or, bit_xor, bitwise, digits, differ}
use Prim.Native.Nat.{bit_or-bitwise, bit_xor-bitwise}
use mathlib.Core.Path.{◌≡◌, refl, ap}
use mathlib.Core.Bool.{Bool, true, ◌&&◌}
use native.Mathlib.Nat.{pow-suc}
use native.Mathlib.Omega.{arith}
use hold_the_donut.Prelude.Tests.{◌==◌, ==_iff}

-- The count of digits to go does not matter once it covers the first number.
module _ (z : ℕ → ℕ) (f : ℕ → ℕ → ℕ) where
  digits-eq : (n m a b : ℕ) → a ≤ n → a ≤ m → digits z f n a b ≡ digits z f m a b
  digits-eq zero zero zero b le le_m = refl
  digits-eq zero (suc m) zero b le le_m = refl
  digits-eq (suc n) zero zero b le le_m = refl
  digits-eq (suc n) (suc m) zero b le le_m = refl
  digits-eq zero m (suc a) b le le_m = absurd (omega arith)
  digits-eq (suc n) zero (suc a) b le le_m = absurd (omega arith)
  digits-eq (suc n) (suc m) (suc a) b le le_m =
      rw (digits-eq n m (suc a / 2) (b / 2) (omega arith) (omega arith))

  pub lowest_digit :
      (a b : ℕ)
      → bitwise z f (suc a) b ≡ bitwise z f (suc a / 2) (b / 2) * 2 + f (suc a % 2) (b % 2)
  lowest_digit a b = rw (digits-eq a (suc a / 2) (suc a / 2) (b / 2) (omega arith) (omega arith))

bit_or-zero_left : (b : ℕ) → bit_or 0 b ≡ b
bit_or-zero_left b = bit_or-bitwise 0 b

bit_xor-zero_left : (b : ℕ) → bit_xor 0 b ≡ b
bit_xor-zero_left b = bit_xor-bitwise 0 b

bit_or_digit : (a b : ℕ) → bit_or a b ≡ bit_or (a / 2) (b / 2) * 2 + max (a % 2) (b % 2)
bit_or_digit zero b = omega (arith, bit_or-zero_left b, bit_or-zero_left (b / 2))
bit_or_digit (suc a) b = simp bit_or-bitwise (lowest_digit (λ y. y) max a b)

bit_xor_digit : (a b : ℕ) → bit_xor a b ≡ bit_xor (a / 2) (b / 2) * 2 + differ (a % 2) (b % 2)
bit_xor_digit zero b = simp bit_xor-zero_left (omega arith)
bit_xor_digit (suc a) b = simp bit_xor-bitwise (lowest_digit (λ y. y) differ a b)

or_zero_right_fuel : (n a : ℕ) → a ≤ n → bit_or a 0 ≡ a
or_zero_right_fuel n zero h = bit_or-zero_left 0
or_zero_right_fuel zero (suc a) h = absurd (omega arith)
or_zero_right_fuel (suc n) (suc a) h =
    omega (arith, bit_or_digit (suc a) 0, or_zero_right_fuel n (suc a / 2) (omega arith))

pub bit_or-zero : (a : ℕ) → bit_or a 0 ≡ a
bit_or-zero a = or_zero_right_fuel a a (omega arith)

double_pow : (b k : ℕ) → b * 2 ^ suc k ≡ 2 * (b * 2 ^ k)
double_pow b k = omega (arith, ap (λ (t : ℕ). b * t) (pow-suc 2 k))

-- `a | (b << k)` is a sum when `a` fits `k` bits.
pub bit_or_shifted : (k a b : ℕ) → a < 2 ^ k → bit_or a (b * 2 ^ k) ≡ a + b * 2 ^ k
bit_or_shifted zero a b h = ground (arith, bit_or-zero_left b)
bit_or_shifted (suc k) a b h = ground (
  arith,
  bit_or_digit a (b * 2 ^ suc k),
  double_pow b k,
  pow-suc 2 k,
  bit_or_shifted k (a / 2) b (omega (arith, pow-suc 2 k)),
)

-- `(b << k) | a` too.
pub shifted_bit_or : (k a b : ℕ) → a < 2 ^ k → bit_or (b * 2 ^ k) a ≡ b * 2 ^ k + a
shifted_bit_or zero a b h = ground (arith, bit_or-zero b)
shifted_bit_or (suc k) a b h = ground (
  arith,
  bit_or_digit (b * 2 ^ suc k) a,
  double_pow b k,
  pow-suc 2 k,
  shifted_bit_or k (a / 2) b (omega (arith, pow-suc 2 k)),
)

or_zero_fuel : (n a b : ℕ) → a ≤ n → bit_or a b ≡ 0 → (a ≡ 0) × (b ≡ 0)
or_zero_fuel n zero b h e = omega (arith, bit_or-zero_left b)
or_zero_fuel zero (suc a) b h e = absurd (omega arith)
or_zero_fuel (suc n) (suc a) b h e = omega (
  arith,
  bit_or_digit (suc a) b,
  or_zero_fuel n (suc a / 2) (b / 2) (omega arith) (omega (arith, bit_or_digit (suc a) b)),
)

pub bit_or-eq_zero : (a b : ℕ) → bit_or a b ≡ 0 → (a ≡ 0) × (b ≡ 0)
bit_or-eq_zero a b = or_zero_fuel a a b (omega arith)

differ_zero : (x y : ℕ) → differ x y ≡ 0 → x ≡ y
differ_zero zero y h = omega arith
differ_zero (suc x) zero h = absurd (omega arith)
differ_zero (suc x) (suc y) h = omega (arith, differ_zero x y h)

differ_self : (x : ℕ) → differ x x ≡ 0
differ_self zero = refl
differ_self (suc x) = differ_self x

xor_zero_fuel : (n a b : ℕ) → a ≤ n → bit_xor a b ≡ 0 → a ≡ b
xor_zero_fuel n zero b h e = omega (arith, bit_xor-zero_left b)
xor_zero_fuel zero (suc a) b h e = absurd (omega arith)
xor_zero_fuel (suc n) (suc a) b h e = omega (
  arith,
  differ_zero (suc a % 2) (b % 2) (omega (arith, bit_xor_digit (suc a) b)),
  xor_zero_fuel n (suc a / 2) (b / 2) (omega arith) (omega (arith, bit_xor_digit (suc a) b)),
)

pub bit_xor-eq_zero : (a b : ℕ) → bit_xor a b ≡ 0 → a ≡ b
bit_xor-eq_zero a b = xor_zero_fuel a a b (omega arith)

xor_self_fuel : (n a : ℕ) → a ≤ n → bit_xor a a ≡ 0
xor_self_fuel n zero h = bit_xor-zero_left 0
xor_self_fuel zero (suc a) h = absurd (omega arith)
xor_self_fuel (suc n) (suc a) h = omega (
  arith,
  bit_xor_digit (suc a) (suc a),
  differ_self (suc a % 2),
  xor_self_fuel n (suc a / 2) (omega arith),
)

pub bit_xor_self : (a : ℕ) → bit_xor a a ≡ 0
bit_xor_self a = xor_self_fuel a a (omega arith)

differ_bit : (x y : ℕ) → x < 2 → y < 2 → differ x y < 2
differ_bit zero y h k = k
differ_bit (suc x) zero h k = h
differ_bit (suc x) (suc y) h k = differ_bit x y (omega arith) (omega arith)

-- Neither operation needs more digits than its operands have.
pub bit_or-lt : (k a b : ℕ) → a < 2 ^ k → b < 2 ^ k → bit_or a b < 2 ^ k
bit_or-lt zero zero b h p = omega (arith, bit_or-zero_left b)
bit_or-lt zero (suc a) b h p = absurd (omega arith)
bit_or-lt (suc k) a b h p = omega (
  arith,
  pow-suc 2 k,
  bit_or_digit a b,
  bit_or-lt k (a / 2) (b / 2) (omega (arith, pow-suc 2 k)) (omega (arith, pow-suc 2 k)),
)

pub bit_xor-lt : (k a b : ℕ) → a < 2 ^ k → b < 2 ^ k → bit_xor a b < 2 ^ k
bit_xor-lt zero zero b h p = omega (arith, bit_xor-zero_left b)
bit_xor-lt zero (suc a) b h p = absurd (omega arith)
bit_xor-lt (suc k) a b h p = omega (
  arith,
  pow-suc 2 k,
  bit_xor_digit a b,
  differ_bit (a % 2) (b % 2) (omega arith) (omega arith),
  bit_xor-lt k (a / 2) (b / 2) (omega (arith, pow-suc 2 k)) (omega (arith, pow-suc 2 k)),
)

-- A fact about every byte, by evaluation at each.
unfoldable pub holds_below : (ℕ → Bool) → ℕ → Bool
holds_below p zero = true
holds_below p (suc n) = p n && holds_below p n

pub holds_below_sound : (p : ℕ → Bool) (n x : ℕ) → holds_below p n ≡ true → x < n → p x ≡ true
unfolding holds_below
holds_below_sound p zero x h lt = absurd (omega arith)
holds_below_sound p (suc n) x h lt = ground (arith, holds_below_sound p n x)

low_seven_table : holds_below (λ b. bit_and b 0x7f == b % 128) 256 ≡ true
unfolding holds_below
low_seven_table = refl

pub bit_and_low_seven : (b : ℕ) → b < 256 → bit_and b 0x7f ≡ b % 128
bit_and_low_seven b h = (==_iff _ _).0 (holds_below_sound _ 256 b low_seven_table h)

top_bit_table : holds_below (λ b. bit_and b 0x80 == b / 128 * 128) 256 ≡ true
unfolding holds_below
top_bit_table = refl

pub bit_and_top_bit : (b : ℕ) → b < 256 → bit_and b 0x80 ≡ b / 128 * 128
bit_and_top_bit b h = (==_iff _ _).0 (holds_below_sound _ 256 b top_bit_table h)

set_top_table : holds_below (λ b. bit_or b 0x80 == b + 128) 128 ≡ true
unfolding holds_below
set_top_table = refl

pub bit_or_top_bit : (b : ℕ) → b < 128 → bit_or b 0x80 ≡ b + 128
bit_or_top_bit b h = (==_iff _ _).0 (holds_below_sound _ 128 b set_top_table h)
