-- ===== src/Wire/Addons.antt =====
-- The `Addons` message of crates/donut-wire/src/addons.rs: two length-delimited protobuf fields.
pub mod RoundTrip
pub mod Decode
use hold_the_donut.Prelude.{
  ℕ, zero, suc, ◌+◌, List, [], ◌∷◌, ◌++◌, Outcome, ok, err, panic, ◌>>=◌, ltb, ◌==◌, if◌then◌else◌,
  length, take, drop, Bool, ◌&&◌, not, ◌<◌, ◌≡◌, true, All, IsByte,
}
use hold_the_donut.Prelude.Utf8.{is_utf8}
use hold_the_donut.Wire.Error.{WireError, bad_addons_proto}
use hold_the_donut.Wire.Varint.{IsU64, varint_len, put_varint, get_varint}

abbrev pub tag_flow : ℕ
tag_flow = 0x0a

abbrev pub tag_seed : ℕ
tag_seed = 0x12

pub record Addons : Type 0 where
  pub flow : List ℕ
  pub seed : List ℕ

abbrev pub no_addons : Addons
no_addons = record { flow = []; seed = [] }

abbrev pub is_empty : List ℕ → Bool
is_empty [] = true
is_empty (x ∷ xs) = Bool.false

-- One field of `encoded_len` and of `encode`: nothing at all for an empty value.
unfoldable pub field_len : List ℕ → ℕ
field_len value = if is_empty value then 0 else 1 + varint_len (length value) + length value

unfoldable pub put_field : ℕ → List ℕ → List ℕ
put_field tag value = if is_empty value then [] else tag ∷ (put_varint (length value) ++ value)

-- `Addons::encoded_len`
unfoldable pub addons_len : Addons → ℕ
unfolding field_len
addons_len a = field_len a.flow + field_len a.seed

-- `Addons::encode`
unfoldable pub encode_addons : Addons → List ℕ
unfolding put_field
encode_addons a = put_field tag_flow a.flow ++ put_field tag_seed a.seed

-- The `match tag` of `Addons::decode`.
unfoldable pub set_field : ℕ → List ℕ → Addons → Outcome WireError Addons
set_field tag value me =
    if tag == tag_flow
    then (if is_utf8 value then ok (record me { flow = value }) else err bad_addons_proto)
    else if tag == tag_seed
    then ok (record me { seed = value })
    else err bad_addons_proto

-- One round of the `while !bytes.is_empty()` loop behind the tag: the fields so far and the bytes left.
unfoldable pub decode_field : Addons → ℕ → List ℕ → Outcome WireError (Addons × List ℕ)
unfolding set_field
decode_field me tag bytes = do
  (len, bytes') ← get_varint bytes
  if ltb (length bytes') len
      then err bad_addons_proto
      else do me' ← set_field tag (take len bytes') me; ok (me', drop len bytes')

-- The loop, on fuel; it never runs out, since each round takes two bytes at least.
unfoldable pub decode_loop : ℕ → Addons → List ℕ → Outcome WireError Addons
unfolding decode_field
decode_loop fuel me [] = ok me
decode_loop zero me (tag ∷ bytes) = panic
decode_loop (suc fuel) me (tag ∷ bytes) = do
  (me', rest) ← decode_field me tag bytes
  decode_loop fuel me' rest

-- `Addons::decode`
unfoldable pub decode_addons : List ℕ → Outcome WireError Addons
unfolding decode_loop
decode_addons bytes = decode_loop (length bytes) no_addons bytes

-- What the types say: the flow is a `String`, and a length fits a u64.
pub record IsAddons (a : Addons) : Type 0 where
  pub flow_utf8 : is_utf8 a.flow ≡ true
  pub flow_bytes : All IsByte a.flow
  pub flow_fits : IsU64 (length a.flow)
  pub seed_bytes : All IsByte a.seed
  pub seed_fits : IsU64 (length a.seed)
