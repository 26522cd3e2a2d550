-- ===== src/Examples/Hex.antt =====
-- A hexadecimal coding, for the parameter that stands for the crate `hex`.
use hold_the_donut.Prelude.{
  ℕ, zero, suc, ◌+◌, ◌-◌, ◌*◌, ◌/◌, ◌%◌, ◌<◌, ◌≡◌, ◌≢◌, refl, ap, inl, inr, Option, none, some,
  List, [], ◌∷◌, length, ltb, if◌then◌else◌, All, IsByte, lt_or_le, lt→ltb, le→ltb, arith,
}
use hold_the_donut.Carrier.SessionId.{Hex, IsHex, NoDash, dash, slash}

-- Hexadecimal digits.
unfoldable pub digit : ℕ → ℕ
digit n = if ltb n 10 then n + 48 else n + 87

unfoldable pub value : ℕ → ℕ
value c = if ltb c 58 then c - 48 else c - 87

unfoldable pub encode : List ℕ → List ℕ
unfolding digit
encode [] = []
encode (b ∷ bs) = digit (b / 16 % 16) ∷ digit (b % 16) ∷ encode bs

unfoldable pub decode : List ℕ → ℕ → Option (List ℕ)
unfolding value
decode [] zero = some []
decode (h ∷ l ∷ cs) (suc n) = elim (decode cs n) [
  | none ↦ none
  | some bs ↦ some ((value h * 16 + value l) ∷ bs)
]
decode cs n = none

abbrev pub hex : Hex
hex = record { encode = encode; decode_to_slice = decode }

value-digit : (n : ℕ) → n < 16 → value (digit n) ≡ n
unfolding digit value
value-digit n lt = elim (lt_or_le n 10) [
  | inl less ↦ rw (lt→ltb n 10 less, lt→ltb (n + 48) 58 (omega arith)) (omega arith)
  | inr ge ↦ rw (le→ltb n 10 ge, le→ltb (n + 87) 58 (omega arith)) (omega arith)
]

digit-NoDash : (n : ℕ) → (digit n ≢ dash) × (digit n ≢ slash)
unfolding digit
digit-NoDash n = elim (lt_or_le n 10) [
  | inl less ↦
      rw (lt→ltb n 10 less) ((λ e. absurd (omega (arith, e))), (λ e. absurd (omega (arith, e))))
  | inr ge ↦
      rw (le→ltb n 10 ge) ((λ e. absurd (omega (arith, e))), (λ e. absurd (omega (arith, e))))
]

length-encode : (xs : List ℕ) → length (encode xs) ≡ 2 * length xs
unfolding encode
length-encode [] = omega arith
length-encode (x ∷ xs) = omega (arith, length-encode xs)

encode-NoDash : (xs : List ℕ) → NoDash (encode xs)
unfolding encode
encode-NoDash [] = tt
encode-NoDash (x ∷ xs) = (digit-NoDash (x / 16 % 16), (digit-NoDash (x % 16), encode-NoDash xs))

decode-encode : (xs : List ℕ) → All IsByte xs → decode (encode xs) (length xs) ≡ some xs
unfolding encode decode
decode-encode [] h = refl
decode-encode (x ∷ xs) (b, h) =
    rw
      (
        decode-encode xs h,
        value-digit (x / 16 % 16) (omega arith),
        value-digit (x % 16) (omega arith),
      )
      (ap (λ v. some (v ∷ xs)) (nibbles b))
  where
    nibbles : {x : ℕ} → x < 256 → x / 16 % 16 * 16 + x % 16 ≡ x
    nibbles b = omega arith

pub hex-IsHex : IsHex hex
hex-IsHex = record {
  two_digits = length-encode;
  only_digits = encode-NoDash;
  decodes = decode-encode;
}
