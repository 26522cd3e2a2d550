-- ===== src/Prelude/Masks.antt =====
-- Laws of `&` with a mask of leading bits.
use Prim.Native.Nat.{ℕ, zero, suc, ◌+◌, ◌-◌, ◌*◌, ◌/◌, ◌%◌, ◌^◌, ◌<◌, min}
use Prim.Native.Nat.{bit_and, bit_and-bitwise}
use mathlib.Core.Path.{◌≡◌, ap, sym, ◌∙◌}
use mathlib.Core.Logic.{◌↔◌}
use native.Mathlib.Nat.{
  pow-suc, pow-succ', div-div-eq-div-mul, eq_of_mul-eq-mul_right, div-lt_iff_lt-mul,
}
use native.Mathlib.Omega.{arith}
use hold_the_donut.Prelude.Bits.{lowest_digit}

bit_and-zero_left : (b : ℕ) → bit_and 0 b ≡ 0
bit_and-zero_left b = bit_and-bitwise 0 b

bit_and_digit : (a b : ℕ) → bit_and a b ≡ bit_and (a / 2) (b / 2) * 2 + min (a % 2) (b % 2)
bit_and_digit zero b = omega (arith, bit_and-zero_left b, bit_and-zero_left (b / 2))
bit_and_digit (suc a) b = simp bit_and-bitwise (lowest_digit (λ y. 0) min a b)

-- A mask whose last `k` bits are clear.
pub bit_and_high : (k a m : ℕ) → bit_and a (m * 2 ^ k) ≡ bit_and (a / 2 ^ k) m * 2 ^ k
bit_and_high zero a m =
    ap (λ t. bit_and a t) (one m)
    ∙ sym (ap (λ t. bit_and t m) (whole a))
    ∙ sym (one (bit_and (a / 2 ^ 0) m))
  where
    one : (n : ℕ) → n * 2 ^ 0 ≡ n
    one n = omega arith

    whole : (n : ℕ) → n / 2 ^ 0 ≡ n
    whole n = omega arith
bit_and_high (suc k) a m = omega (
  arith,
  bit_and_digit a (m * 2 ^ suc k),
  pow-suc 2 k,
  doubled m,
  ap (λ (t : ℕ). bit_and (a / 2) t) (half m),
  bit_and_high k (a / 2) m,
  doubled (bit_and (a / 2 / 2 ^ k) m),
  ap (λ (t : ℕ). bit_and t m * 2 ^ suc k) (deeper a),
)
  where
    assoc : (a b : ℕ) → a * b * 2 ≡ a * (b * 2)
    assoc a b = omega arith

    doubled : (m : ℕ) → m * 2 ^ suc k ≡ m * 2 ^ k * 2
    doubled m = ap (λ (t : ℕ). m * t) (pow-suc 2 k) ∙ sym (assoc m (2 ^ k))

    deeper : (a : ℕ) → a / 2 / 2 ^ k ≡ a / 2 ^ suc k
    deeper a = div-div-eq-div-mul a 2 (2 ^ k) ∙ ap (λ (t : ℕ). a / t) (sym (pow-succ' 2 k))

    half : (m : ℕ) → m * 2 ^ suc k / 2 ≡ m * 2 ^ k
    half m = omega (arith, doubled m)

-- A mask of `p` set bits.
pub bit_and_low : (p a : ℕ) → a < 2 ^ p → bit_and a (2 ^ p - 1) ≡ a
bit_and_low zero a h = omega (arith, bit_and-zero_left 0, zero_lem h)
  where
    none_left : a < 1 → a ≡ 0
    none_left h = omega arith

    zero_lem : a < 1 → bit_and a 0 ≡ bit_and 0 0
    zero_lem h = ap (λ (t : ℕ). bit_and t 0) (none_left h)
bit_and_low (suc p) a h = omega (
  arith,
  bit_and_digit a (2 ^ suc p - 1),
  pow-suc 2 p,
  ap (λ (t : ℕ). bit_and (a / 2) t) half,
  bit_and_low p (a / 2) (omega (arith, pow-suc 2 p)),
)
  where
    half : (2 ^ suc p - 1) / 2 ≡ 2 ^ p - 1
    half = omega (arith, pow-suc 2 p)

pub pow_positive : (k : ℕ) → 0 < 2 ^ k
pow_positive zero = omega arith
pow_positive (suc k) = omega (arith, pow-suc 2 k, pow_positive k)

-- Under a mask of `p` set bits before `k` clear ones, numbers of `p + k` bits are alike exactly if their leading
-- `p` bits are.
pub masked_iff :
    (p k a b : ℕ)
    → a < 2 ^ p * 2 ^ k
    → b < 2 ^ p * 2 ^ k
    → (bit_and a ((2 ^ p - 1) * 2 ^ k) ≡ bit_and b ((2 ^ p - 1) * 2 ^ k)) ↔ (a / 2 ^ k ≡ b / 2 ^ k)
masked_iff p k a b ha hb = (
  (λ e.
      eq_of_mul-eq-mul_right (2 ^ k) positive (a / 2 ^ k) (b / 2 ^ k)
        (sym (leading a ha) ∙ e ∙ leading b hb)),
  (λ e. leading a ha ∙ ap (λ (t : ℕ). t * 2 ^ k) e ∙ sym (leading b hb)),
)
  where
    positive : 0 < 2 ^ k
    positive = pow_positive k

    leading : (a : ℕ) → a < 2 ^ p * 2 ^ k → bit_and a ((2 ^ p - 1) * 2 ^ k) ≡ a / 2 ^ k * 2 ^ k
    leading a h =
        bit_and_high k a (2 ^ p - 1)
        ∙ ap (λ (t : ℕ). t * 2 ^ k) (bit_and_low p (a / 2 ^ k) ((div-lt_iff_lt-mul positive).1 h))
