-- ===== src/Wire/Varint.antt =====
-- The varints of crates/donut-wire/src/addons.rs: a u64 in groups of seven bits, lowest first.
pub mod RoundTrip
pub mod Decode
use Prim.Native.Nat.{bit_and, bit_or}
use hold_the_donut.Prelude.{
  ℕ, zero, suc, ◌+◌, ◌*◌, ◌/◌, ◌%◌, ◌^◌, ◌<◌, List, [], ◌∷◌, Outcome, ok, err, ltb, ◌==◌,
  if◌then◌else◌,
}
use hold_the_donut.Wire.Error.{WireError, bad_addons_proto, varint_overflow}

abbrev pub IsU64 : ℕ → Type 0
IsU64 n = n < 2 ^ 64

-- `while n >= 0x80 { n >>= 7; c += 1; }`, on fuel: a u64 has at most ten groups.
unfoldable pub varint_len_loop : ℕ → ℕ → ℕ → ℕ
varint_len_loop zero n c = c
varint_len_loop (suc fuel) n c =
    let rest = varint_len_loop fuel (n / 128) (c + 1) in if ltb n 0x80 then c else rest

unfoldable pub varint_len : ℕ → ℕ
unfolding varint_len_loop
varint_len n = varint_len_loop 10 n 1

-- The loop of `put_varint` and the push behind it, on the same fuel.
unfoldable pub put_varint_loop : ℕ → ℕ → List ℕ
put_varint_loop zero n = []
put_varint_loop (suc fuel) n =
    let rest = put_varint_loop fuel (n / 128) in
    if ltb n 0x80 then (n % 256) ∷ [] else bit_or (bit_and (n % 256) 0x7f) 0x80 ∷ rest

unfoldable pub put_varint : ℕ → List ℕ
unfolding put_varint_loop
put_varint n = put_varint_loop 10 n

-- `n |= ((b & 0x7f) as u64) << (7 * i)`: a shifted u64 loses the bits above the 64th.
unfoldable pub add_group : ℕ → ℕ → ℕ → ℕ
add_group n b i = bit_or n (bit_and b 0x7f * 2 ^ (7 * i) % 2 ^ 64)

-- `for i in 0..10`, with `rounds` of the ten still to go.
unfoldable pub get_varint_loop : ℕ → ℕ → ℕ → List ℕ → Outcome WireError (ℕ × List ℕ)
unfolding add_group
get_varint_loop zero i n bytes = err varint_overflow
get_varint_loop (suc rounds) i n [] = err bad_addons_proto
get_varint_loop (suc rounds) i n (b ∷ bytes) =
    let n' = add_group n b i in
    let more = get_varint_loop rounds (i + 1) n' bytes in
    if bit_and b 0x80 == 0 then ok (n', bytes) else more

unfoldable pub get_varint : List ℕ → Outcome WireError (ℕ × List ℕ)
unfolding get_varint_loop
get_varint bytes = get_varint_loop 10 0 0 bytes
