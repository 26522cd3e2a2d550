-- ===== src/Carrier/SessionId.antt =====
-- `SessionId` of crates/donut-carrier/src/session.rs: 16 bytes, written as 32 hexadecimal digits or as a
-- UUID with dashes.
pub mod RoundTrip
use hold_the_donut.Prelude.{
  ℕ, ◌+◌, ◌*◌, ◌-◌, ◌≡◌, ◌≢◌, Bool, true, false, not, Option, none, some, List, [], ◌∷◌, ◌++◌,
  length, take, drop, ◌==◌, if◌then◌else◌, All, IsByte, Outcome, ok, err,
}
use hold_the_donut.Carrier.Config.{CarrierError, invalid_session_id}

abbrev pub SessionId : Type 0
SessionId = List ℕ

abbrev pub IsSessionId : SessionId → Type 0
IsSessionId s = (length s ≡ 16) × All IsByte s

-- The crate `hex`: `encode`, and `decode_to_slice` into a slice of so many bytes.
pub record Hex : Type 0 where
  pub encode : List ℕ → List ℕ
  pub decode_to_slice : List ℕ → ℕ → Option (List ℕ)

abbrev pub dash : ℕ
dash = b'-'

abbrev pub slash : ℕ
slash = b'/'

abbrev pub NoDash : List ℕ → Type 0
NoDash = All (λ c. (c ≢ dash) × (c ≢ slash))

-- What `hex` documents: two digits for each byte, and what is encoded can be decoded.
pub record IsHex (hex : Hex) : Type 0 where
  pub two_digits : (xs : List ℕ) → length (hex.encode xs) ≡ 2 * length xs
  pub only_digits : (xs : List ℕ) → NoDash (hex.encode xs)
  pub decodes :
      (xs : List ℕ) → All IsByte xs → hex.decode_to_slice (hex.encode xs) (length xs) ≡ some xs

abbrev hex_len : ℕ
hex_len = 32

abbrev uuid_len : ℕ
uuid_len = 36

unfoldable pub to_hex : Hex → SessionId → List ℕ
to_hex hex s = hex.encode s

-- `&h[from..to]`
unfoldable pub digits : ℕ → ℕ → List ℕ → List ℕ
digits from to h = take (to - from) (drop from h)

-- `to_uuid`
unfoldable pub to_uuid : Hex → SessionId → List ℕ
unfolding digits to_hex
to_uuid hex s =
    let h = to_hex hex s in
    digits 0 8 h
    ++ (dash
        ∷ (digits 8 12 h
            ++ (dash ∷ (digits 12 16 h ++ (dash ∷ (digits 16 20 h ++ (dash ∷ digits 20 32 h)))))))

-- `s.chars().filter(|&c| c != '-')`
unfoldable pub strip_dashes : List ℕ → List ℕ
strip_dashes [] = []
strip_dashes (c ∷ s) = if c == dash then strip_dashes s else c ∷ strip_dashes s

-- `map_err(|_| CarrierError::InvalidSessionId)` of a decoding into 16 bytes.
unfoldable pub decode_id : Hex → List ℕ → Outcome CarrierError SessionId
decode_id hex s = elim (hex.decode_to_slice s 16) [
  | none ↦ err invalid_session_id
  | some bytes ↦ ok bytes
]

-- `from_str`
unfoldable pub from_str : Hex → List ℕ → Outcome CarrierError SessionId
unfolding decode_id strip_dashes
from_str hex s =
    if length s == hex_len
    then decode_id hex s
    else if length s == uuid_len
    then (let stripped = strip_dashes s in
        if length stripped == hex_len then decode_id hex stripped else err invalid_session_id)
    else err invalid_session_id
