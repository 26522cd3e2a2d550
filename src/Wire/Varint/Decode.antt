-- ===== src/Wire/Varint/Decode.antt =====
-- `get_varint` on any input, well formed or not.
use Prim.Native.Nat.{bit_and}
use mathlib.Core.Path.{subst}
use hold_the_donut.Prelude.{
  ℕ, zero, suc, ◌+◌, ◌<◌, ◌≡◌, ◌≢◌, arith, List, [], ◌∷◌, length, All, IsByte, ok, panic, ok_snd,
  inl, inr, Bool-cases, ◌==◌,
}
use hold_the_donut.Wire.Varint.{add_group, get_varint_loop, get_varint}

get_varint_loop-ne-panic :
    (rounds i n : ℕ) (bytes : List ℕ) → get_varint_loop rounds i n bytes ≢ panic
unfolding get_varint_loop
get_varint_loop-ne-panic zero i n bytes h = cc
get_varint_loop-ne-panic (suc rounds) i n [] h = cc
get_varint_loop-ne-panic (suc rounds) i n (b ∷ bytes) h =
    ground (arith, get_varint_loop-ne-panic rounds (i + 1) (add_group n b i) bytes)

pub get_varint-ne-panic : (bytes : List ℕ) → get_varint bytes ≢ panic
unfolding get_varint
get_varint-ne-panic bytes = get_varint_loop-ne-panic 10 0 0 bytes

get_varint_loop-rest :
    (rounds i n : ℕ) (bytes : List ℕ) (v : ℕ) (rest : List ℕ)
    → get_varint_loop rounds i n bytes ≡ ok (v, rest)
    → length rest < length bytes
unfolding get_varint_loop
get_varint_loop-rest zero i n bytes v rest h = cc
get_varint_loop-rest (suc rounds) i n [] v rest h = cc
get_varint_loop-rest (suc rounds) i n (b ∷ bytes) v rest h =
    ground (arith, get_varint_loop-rest rounds (i + 1) (add_group n b i) bytes v rest)

-- A number takes at least one byte.
pub length-get_varint :
    (bytes : List ℕ) (v : ℕ) (rest : List ℕ)
    → get_varint bytes ≡ ok (v, rest)
    → length rest < length bytes
unfolding get_varint
length-get_varint bytes v rest h = get_varint_loop-rest 10 0 0 bytes v rest h

get_varint_loop-All :
    (rounds i n : ℕ) (bytes : List ℕ) (v : ℕ) (rest : List ℕ)
    → All IsByte bytes
    → get_varint_loop rounds i n bytes ≡ ok (v, rest)
    → All IsByte rest
unfolding get_varint_loop
get_varint_loop-All zero i n bytes v rest p h = cc
get_varint_loop-All (suc rounds) i n [] v rest p h = cc
get_varint_loop-All (suc rounds) i n (b ∷ bytes) v rest (pb, p) h =
    elim (Bool-cases (bit_and b 0x80 == 0)) [
      | inl last ↦ subst (All IsByte) (ok_snd (rw last at h)) p
      | inr more ↦
          get_varint_loop-All rounds (i + 1) (add_group n b i) bytes v rest p (rw more at h)
    ]

pub get_varint-All :
    (bytes : List ℕ) (v : ℕ) (rest : List ℕ)
    → All IsByte bytes
    → get_varint bytes ≡ ok (v, rest)
    → All IsByte rest
unfolding get_varint
get_varint-All bytes v rest p h = get_varint_loop-All 10 0 0 bytes v rest p h
