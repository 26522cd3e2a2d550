-- ===== src/Wire/Varint/RoundTrip.antt =====
-- `get_varint` reads what `put_varint` wrote, and what it takes from any input.
use Prim.Native.Nat.{bit_and, bit_or}
use native.Mathlib.Nat.{pow-suc, div-add-mod}
use native.Mathlib.Numerals.{towards_suc, add-one}
use hold_the_donut.Prelude.{
  ℕ, zero, suc, ◌+◌, ◌*◌, ◌/◌, ◌%◌, ◌^◌, ◌<◌, ◌≡◌, ap, arith, List, ◌∷◌, ◌++◌, ◌∙◌, inl, inr,
  length, ok, ltb, lt→ltb, ltb→lt, Bool-cases,
}
use hold_the_donut.Prelude.Bits.{bit_or_shifted, bit_and_low_seven, bit_and_top_bit, bit_or_top_bit}
use hold_the_donut.Wire.Varint.{
  IsU64, varint_len_loop, varint_len, put_varint_loop, put_varint, add_group, get_varint_loop,
  get_varint,
}

seven_more : (i : ℕ) → 2 ^ (7 * (i + 1)) ≡ 128 * 2 ^ (7 * i)
seven_more i =
    let split : 7 * (i + 1) ≡ 7 * i + 7 = omega arith in rw split (simp towards_suc (omega arith))

-- One group lands above the bits that are already there.
add_group-eq :
    (n g i : ℕ)
    → g < 256
    → n < 2 ^ (7 * i)
    → g % 128 * 2 ^ (7 * i) < 2 ^ 64
    → add_group n g i ≡ n + g % 128 * 2 ^ (7 * i)
unfolding add_group
add_group-eq n g i hg hn fits =
    ground (arith, bit_and_low_seven g hg, bit_or_shifted (7 * i) n (g % 128) hn)

inner_byte : (w : ℕ) → bit_or (bit_and (w % 256) 0x7f) 0x80 ≡ w % 128 + 128
inner_byte w =
    rw (bit_and_low_seven (w % 256) (omega arith))
      (rw (bit_or_top_bit (w % 256 % 128) (omega arith)) (omega arith))

-- One round on a byte of each kind.
last_round :
    (rounds i n w : ℕ) (rest : List ℕ)
    → w < 128
    → n < 2 ^ (7 * i)
    → n + w * 2 ^ (7 * i) < 2 ^ 64
    → get_varint_loop (suc rounds) i n ((w % 256) ∷ rest) ≡ ok (n + w * 2 ^ (7 * i), rest)
unfolding get_varint_loop
last_round rounds i n w rest hw hn fits =
    let same : w % 256 ≡ w = omega arith in
    let group : w % 128 ≡ w = omega arith in
    rw same (
      ground (
        arith,
        bit_and_top_bit w (omega arith),
        add_group-eq n w i (omega arith) hn (rw group (omega arith)),
        ap (λ (t : ℕ). t * 2 ^ (7 * i)) group,
      ))

inner_round :
    (rounds i n g : ℕ) (rest : List ℕ)
    → g < 128
    → n < 2 ^ (7 * i)
    → n + g * 2 ^ (7 * i) < 2 ^ 64
    → get_varint_loop (suc rounds) i n ((g + 128) ∷ rest)
      ≡ get_varint_loop rounds (i + 1) (n + g * 2 ^ (7 * i)) rest
unfolding get_varint_loop
inner_round rounds i n g rest hg hn fits =
    let group : (g + 128) % 128 ≡ g = omega arith in
    let byte : bit_and (g + 128) 0x80 ≡ 128 =
      bit_and_top_bit (g + 128) (omega arith) ∙ omega arith in
    rw byte (rw (add_group-eq n (g + 128) i (omega arith) hn (rw group (omega arith))) (rw group))

split_group : (w i : ℕ) → w * 2 ^ (7 * i) ≡ w % 128 * 2 ^ (7 * i) + w / 128 * 2 ^ (7 * (i + 1))
split_group w i = omega (
  arith,
  ap (λ (t : ℕ). t * 2 ^ (7 * i)) (div-add-mod w 128),
  ap (λ (t : ℕ). w / 128 * t) (seven_more i),
)

above : (n g P : ℕ) → n < P → g < 128 → n + g * P < 128 * P
above n g P h k = grind arith

-- `w` is what is still to be written, from bit `7 * i` on.
get_put_loop :
    (rounds i w n : ℕ) (rest : List ℕ)
    → w < 128 ^ suc rounds
    → n < 2 ^ (7 * i)
    → n + w * 2 ^ (7 * i) < 2 ^ 64
    → get_varint_loop (suc rounds) i n (put_varint_loop (suc rounds) w ++ rest)
      ≡ ok (n + w * 2 ^ (7 * i), rest)
unfolding put_varint_loop
get_put_loop zero i w n rest hw hn fits =
    rw (lt→ltb w 128 (omega arith)) (last_round zero i n w rest (omega arith) hn fits)
get_put_loop (suc rounds) i w n rest hw hn fits = elim (Bool-cases (ltb w 0x80)) [
  | inl small ↦ rw small (last_round (suc rounds) i n w rest (ltb→lt w 128 small) hn fits)
  | inr big ↦
      rw (big, inner_byte w)
        (inner_round (suc rounds) i n (w % 128) _ (omega arith) hn (omega (arith, split_group w i))
          ∙ get_put_loop rounds (i + 1) (w / 128) (n + w % 128 * 2 ^ (7 * i)) rest
              (omega (arith, pow-suc 128 (suc rounds)))
              (rw seven_more (above n (w % 128) _ hn (omega arith)))
              (omega (arith, split_group w i))
          ∙ ap (λ (t : ℕ). ok (t, rest)) (omega (arith, split_group w i)))
]

-- Every u64 that `put_varint` writes, whatever follows it, is read back by `get_varint`, which
-- leaves what follows.
pub get_varint-put_varint :
    (n : ℕ) (rest : List ℕ) → IsU64 n → get_varint (put_varint n ++ rest) ≡ ok (n, rest)
unfolding get_varint put_varint
get_varint-put_varint n rest h =
    get_put_loop 9 0 n 0 rest (omega arith) (omega arith) (omega arith)
    ∙ ap (λ (t : ℕ). ok (t, rest)) (omega arith)

length-put_varint_loop :
    (k n c : ℕ)
    → n < 128 ^ suc k
    → varint_len_loop (suc k) n (suc c) ≡ c + length (put_varint_loop (suc k) n)
unfolding varint_len_loop put_varint_loop
length-put_varint_loop zero n c h = rw (lt→ltb n 128 (omega arith)) (omega arith)
length-put_varint_loop (suc k) n c h = elim (Bool-cases (ltb n 0x80)) [
  | inl small ↦ rw small (omega arith)
  | inr big ↦ rw big (
      rw add-one (
        omega
          (arith, length-put_varint_loop k (n / 128) (suc c) (omega (arith, pow-suc 128 (suc k))))))
]

-- `varint_len` counts the bytes that `put_varint` writes.
pub length-put_varint : (n : ℕ) → IsU64 n → length (put_varint n) ≡ varint_len n
unfolding varint_len put_varint
length-put_varint n h = omega (arith, length-put_varint_loop 9 n 0 (omega arith))
