-- ===== src/Carrier/Client/Decimal.antt =====
-- The decimal form of a sequence number, as the client writes it and the server reads it.
use hold_the_donut.Prelude.{
  ℕ, zero, suc, ◌+◌, ◌-◌, ◌*◌, ◌/◌, ◌%◌, ◌≤◌, ◌<◌, ◌≡◌, refl, ◌∙◌, some, List, [], ◌∷◌, inl, inr,
  lt_or_le, ne→==, lt→ltb, le→ltb, le→leb, arith,
}
use hold_the_donut.Carrier.Extract.{is_ascii_digit, u64_digits, parse_u64}
use hold_the_donut.Carrier.Client.{decimal, to_string}

pow10 : ℕ → ℕ
pow10 zero = 1
pow10 (suc f) = 10 * pow10 f

u64_digits_step :
    (a d : ℕ) (s : List ℕ)
    → d < 10
    → a * 10 + d < 18446744073709551616
    → u64_digits a ((d + 48) ∷ s) ≡ u64_digits (a * 10 + d) s
unfolding u64_digits is_ascii_digit
u64_digits_step a d s small fits =
    rw
      (
        le→leb 48 (d + 48) (omega arith),
        le→leb (d + 48) 57 (omega arith),
        back d,
        lt→ltb (a * 10 + d) 18446744073709551616 fits,
      )
      refl
  where
    back : (d : ℕ) → d + 48 - 48 ≡ d
    back d = omega arith

u64_digits-decimal :
    (f n : ℕ) (s : List ℕ)
    → n < pow10 f
    → n < 18446744073709551616
    → 1 ≤ f
    → u64_digits 0 (decimal f n s) ≡ u64_digits n s
unfolding decimal pow10
u64_digits-decimal zero n s fits small one = absurd (omega arith)
u64_digits-decimal (suc f) n s fits small one = elim (lt_or_le n 10) [
  | inl less ↦
      rw (lt→ltb n 10 less, u64_digits_step 0 (n % 10) s (omega arith) (omega arith), last less)
        refl
  | inr more ↦
      rw
        (
          le→ltb n 10 more,
          u64_digits-decimal f (n / 10) ((n % 10 + 48) ∷ s) (omega arith) (omega arith)
              (deep f more fits),
          u64_digits_step (n / 10) (n % 10) s (omega arith) (omega arith),
          whole n,
        )
        refl
]
  where
    last : n < 10 → 0 * 10 + n % 10 ≡ n
    last less = omega arith

    whole : (n : ℕ) → n / 10 * 10 + n % 10 ≡ n
    whole n = omega arith

    deep : (f : ℕ) → 10 ≤ n → n < 10 * pow10 f → 1 ≤ f
    deep zero more fits = absurd (omega arith)
    deep (suc f) more fits = omega arith

-- The first character is a digit.
data Starts : List ℕ → Type 0 where
  digit_first : {c : ℕ} {s : List ℕ} → 48 ≤ c → Starts (c ∷ s)

decimal-Starts : (f n : ℕ) (s : List ℕ) → Starts s → Starts (decimal f n s)
unfolding decimal
decimal-Starts zero n s h = h
decimal-Starts (suc f) n s h = elim (lt_or_le n 10) [
  | inl less ↦ rw (lt→ltb n 10 less) (digit_first (omega arith))
  | inr more ↦
      rw (le→ltb n 10 more)
        (decimal-Starts f (n / 10) ((n % 10 + 48) ∷ s) (digit_first (omega arith)))
]

to_string-Starts : (n : ℕ) → Starts (to_string n)
unfolding to_string decimal
to_string-Starts n = elim (lt_or_le n 10) [
  | inl less ↦ rw (lt→ltb n 10 less) (digit_first (omega arith))
  | inr more ↦
      rw (le→ltb n 10 more)
        (decimal-Starts 19 (n / 10) ((n % 10 + 48) ∷ []) (digit_first (omega arith)))
]

parse_u64-digits : (s : List ℕ) → Starts s → parse_u64 s ≡ u64_digits 0 s
unfolding parse_u64
parse_u64-digits [] h = elim h [ ]
parse_u64-digits (c ∷ []) (digit_first h) = refl
parse_u64-digits (c ∷ d ∷ s) (digit_first h) =
    rw (ne→== c b'+' (λ e. absurd (omega (arith, e)))) refl

-- A number of 64 bits is read back from its decimal form.
pub parse_u64-to_string : (n : ℕ) → n < 18446744073709551616 → parse_u64 (to_string n) ≡ some n
unfolding to_string pow10 u64_digits
parse_u64-to_string n small =
    parse_u64-digits (to_string n) (to_string-Starts n)
    ∙ u64_digits-decimal 20 n [] (fits n small) small (omega arith)
    ∙ done n
  where
    done : (n : ℕ) → u64_digits n [] ≡ some n
    done n = refl

    fits : (n : ℕ) → n < 18446744073709551616 → n < pow10 20
    fits n small = omega arith
