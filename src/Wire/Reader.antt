-- ===== src/Wire/Reader.antt =====
-- Reading from a `bytes::Buf` in crates/donut-wire/src/request.rs: a decoder takes the bytes that
-- are left and gives its result with those left behind it. The `get_*` methods panic past the end.
pub mod Incremental
pub mod Ensures
use hold_the_donut.Prelude.{
  ℕ, ◌+◌, ◌*◌, List, [], ◌∷◌, Option, none, some, Outcome, ok, err, panic, ltb, if◌then◌else◌,
  length, take, drop,
}
use hold_the_donut.Prelude
use hold_the_donut.Wire.Error.{WireError, truncated}

abbrev pub Reader : Type 0 → Type 0
Reader A = List ℕ → Outcome WireError (A × List ℕ)

infixl 5 ◌>>=◌ ◌>>◌
abbrev pub ◌>>=◌ : {A B : Type 0} → Reader A → (A → Reader B) → Reader B
◌>>=◌ m f buf = Prelude.◌>>=◌ (m buf) (λ r. f r.0 r.1)

abbrev pub ◌>>◌ : {A B : Type 0} → Reader A → Reader B → Reader B
m >> k = m >>= λ _. k

abbrev pub pure : {A : Type 0} → A → Reader A
pure a buf = ok (a, buf)

abbrev pub fail : {A : Type 0} → WireError → Reader A
fail e buf = err e

-- `.ok_or(e)?`
abbrev pub ok_or : {A : Type 0} → Option A → WireError → Reader A
ok_or none e = fail e
ok_or (some a) e = pure a

-- `f(..)?` for a function that reads nothing of the buffer.
abbrev pub lift : {A : Type 0} → Outcome WireError A → Reader A
lift r buf = Prelude.◌>>=◌ r (λ a. ok (a, buf))

-- `ensure`
unfoldable ensure : ℕ → Reader Unit
ensure n buf = if ltb (length buf) n then err (truncated n (length buf)) else ok (tt, buf)

unfoldable get_u8 : Reader ℕ
get_u8 [] = panic
get_u8 (b ∷ buf) = ok (b, buf)

unfoldable get_u16 : Reader ℕ
get_u16 [] = panic
get_u16 (a ∷ []) = panic
get_u16 (a ∷ b ∷ buf) = ok (a * 256 + b, buf)

-- `copy_to_slice` into `n` bytes.
unfoldable copy_to_slice : ℕ → Reader (List ℕ)
copy_to_slice n buf = if ltb (length buf) n then panic else ok (take n buf, drop n buf)

-- `ensure(buf, 1)?; buf.get_u8()`
unfoldable pub read_u8 : Reader ℕ
unfolding ensure get_u8
read_u8 = do ensure 1; get_u8

-- `ensure(buf, n)?` and a copy of `n` bytes.
unfoldable pub read_bytes : ℕ → Reader (List ℕ)
unfolding ensure copy_to_slice
read_bytes n = do ensure n; copy_to_slice n

-- `ensure(buf, 3)?; buf.get_u16(); buf.get_u8()`
unfoldable pub read_u16_u8 : Reader (ℕ × ℕ)
unfolding ensure get_u8 get_u16
read_u16_u8 = do ensure 3; port ← get_u16; atype ← get_u8; pure (port, atype)
