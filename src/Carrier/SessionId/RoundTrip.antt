-- ===== src/Carrier/SessionId/RoundTrip.antt =====
-- Both forms of a session id read back as the id.
use hold_the_donut.Prelude.{
  ℕ, zero, suc, ◌+◌, ◌≤◌, ◌≡◌, ◌≢◌, refl, ap, sym, ◌-◌, List, [], ◌∷◌, ◌++◌, length, take, drop,
  ne→==, All, All-append, All-take, All-drop, length-append, length-take, length-drop,
  take-append-drop, ok, arith,
}
use hold_the_donut.Carrier.SessionId.{
  SessionId, IsSessionId, Hex, IsHex, NoDash, dash, slash, to_hex, digits, to_uuid, strip_dashes,
  decode_id, from_str,
}

strip_dashes-append : (xs ys : List ℕ) → NoDash xs → strip_dashes (xs ++ ys) ≡ xs ++ strip_dashes ys
unfolding strip_dashes
strip_dashes-append [] ys h = refl
strip_dashes-append (x ∷ xs) ys ((p, q), h) = rw (ne→== x dash p, strip_dashes-append xs ys h) refl

strip_dashes-dash : (ys : List ℕ) → strip_dashes (dash ∷ ys) ≡ strip_dashes ys
unfolding strip_dashes
strip_dashes-dash ys = refl

strip_dashes_id : (xs : List ℕ) → NoDash xs → strip_dashes xs ≡ xs
unfolding strip_dashes
strip_dashes_id [] h = refl
strip_dashes_id (x ∷ xs) ((p, q), h) = rw (ne→== x dash p, strip_dashes_id xs h) refl

-- The pieces of a text, joined.
drop-drop : (m n : ℕ) (xs : List ℕ) → drop n (drop m xs) ≡ drop (m + n) xs
drop-drop zero n xs = rw (zero-plus n) refl
  where
    zero-plus : (n : ℕ) → 0 + n ≡ n
    zero-plus n = omega arith
drop-drop (suc m) n [] = rw (suc-plus m n) (drop_nil n)
  where
    drop_nil : (n : ℕ) → drop {A = ℕ} n [] ≡ []
    drop_nil zero = refl
    drop_nil (suc n) = refl

    suc-plus : (m n : ℕ) → suc m + n ≡ suc (m + n)
    suc-plus m n = omega arith
drop-drop (suc m) n (x ∷ xs) = rw (suc-plus m n) (drop-drop m n xs)
  where
    suc-plus : (m n : ℕ) → suc m + n ≡ suc (m + n)
    suc-plus m n = omega arith

digits-append-drop : (m k : ℕ) (h : List ℕ) → digits m (m + k) h ++ drop (m + k) h ≡ drop m h
unfolding digits
digits-append-drop m k h = rw (k_of m k, sym (drop-drop m k h)) (take-append-drop k (drop m h))
  where
    k_of : (m k : ℕ) → m + k - m ≡ k
    k_of m k = omega arith

take_all : (n : ℕ) (xs : List ℕ) → length xs ≡ n → take n xs ≡ xs
take_all zero [] h = refl
take_all zero (x ∷ xs) h = absurd (omega arith)
take_all (suc n) [] h = absurd (omega arith)
take_all (suc n) (x ∷ xs) h = ap (λ t. x ∷ t) (take_all n xs (omega arith))

digits_last : (h : List ℕ) → length h ≡ 32 → digits 20 32 h ≡ drop 20 h
unfolding digits
digits_last h len = take_all 12 (drop 20 h) (omega (arith, length-drop 20 h))

digits-NoDash : (a b : ℕ) (h : List ℕ) → NoDash h → NoDash (digits a b h)
unfolding digits
digits-NoDash a b h d = All-take _ (b - a) (drop a h) (All-drop _ a h d)

strip_dashes_piece :
    (xs ys : List ℕ) → NoDash xs → strip_dashes (xs ++ (dash ∷ ys)) ≡ xs ++ strip_dashes ys
strip_dashes_piece xs ys h = rw (strip_dashes-append xs (dash ∷ ys) h, strip_dashes-dash ys) refl

strip_dashes-to_uuid :
    (hex : Hex) (s : SessionId)
    → NoDash (to_hex hex s)
    → length (to_hex hex s) ≡ 32
    → strip_dashes (to_uuid hex s) ≡ to_hex hex s
unfolding to_uuid
strip_dashes-to_uuid hex s d len =
    let h = to_hex hex s in
    rw
      (
        strip_dashes_piece (digits 0 8 h) _ (digits-NoDash 0 8 h d),
        strip_dashes_piece (digits 8 12 h) _ (digits-NoDash 8 12 h d),
        strip_dashes_piece (digits 12 16 h) _ (digits-NoDash 12 16 h d),
        strip_dashes_piece (digits 16 20 h) _ (digits-NoDash 16 20 h d),
        strip_dashes_id (digits 20 32 h) (digits-NoDash 20 32 h d),
        digits_last h len,
        digits-append-drop 16 4 h,
        digits-append-drop 12 4 h,
        digits-append-drop 8 4 h,
      )
      (digits-append-drop 0 8 h)

length-digits : (a b : ℕ) (h : List ℕ) → b ≤ length h → length (digits a b h) ≡ b - a
unfolding digits
length-digits a b h le = omega (arith, length-take (b - a) (drop a h), length-drop a h)

pub length-to_uuid :
    (hex : Hex) (s : SessionId) → length (to_hex hex s) ≡ 32 → length (to_uuid hex s) ≡ 36
unfolding to_uuid
length-to_uuid hex s len =
    let h = to_hex hex s in
    rw
      (
        length-append (digits 0 8 h) _,
        length-append (digits 8 12 h) _,
        length-append (digits 12 16 h) _,
        length-append (digits 16 20 h) _,
        length-digits 0 8 h (omega arith),
        length-digits 8 12 h (omega arith),
        length-digits 12 16 h (omega arith),
        length-digits 16 20 h (omega arith),
        length-digits 20 32 h (omega arith),
      )
      refl

pub length-to_hex :
    (hex : Hex) → IsHex hex → (s : SessionId) → IsSessionId s → length (to_hex hex s) ≡ 32
unfolding to_hex
length-to_hex hex is s (len, bytes) = omega (arith, is.two_digits s)

to_hex-NoDash : (hex : Hex) → IsHex hex → (s : SessionId) → NoDash (to_hex hex s)
unfolding to_hex
to_hex-NoDash hex is s = is.only_digits s

-- A written id holds no slash.
NoDash-NoSlash : (xs : List ℕ) → NoDash xs → All (λ c. c ≢ slash) xs
NoDash-NoSlash [] h = tt
NoDash-NoSlash (x ∷ xs) ((p, q), h) = (q, NoDash-NoSlash xs h)

pub to_hex-NoSlash : (hex : Hex) → IsHex hex → (s : SessionId) → All (λ c. c ≢ slash) (to_hex hex s)
to_hex-NoSlash hex is s = NoDash-NoSlash (to_hex hex s) (to_hex-NoDash hex is s)

pub to_uuid-NoSlash :
    (hex : Hex) → IsHex hex → (s : SessionId) → All (λ c. c ≢ slash) (to_uuid hex s)
unfolding to_uuid
to_uuid-NoSlash hex is s =
    let h = to_hex hex s in
    let piece = λ (a b : ℕ). NoDash-NoSlash _ (digits-NoDash a b h (to_hex-NoDash hex is s)) in
    let dashed = λ (a b : ℕ) (r : List ℕ) (k : All (λ c. c ≢ slash) r).
      All-append _ (digits a b h) (dash ∷ r) (piece a b) (dash-ne-slash, k) in
    dashed 0 8 _ (dashed 8 12 _ (dashed 12 16 _ (dashed 16 20 _ (piece 20 32))))
  where
    dash-ne-slash : dash ≢ slash
    dash-ne-slash = λ e. absurd (omega (arith, e))

decode_id-to_hex :
    (hex : Hex) → IsHex hex → (s : SessionId) → IsSessionId s → decode_id hex (to_hex hex s) ≡ ok s
unfolding to_hex decode_id
decode_id-to_hex hex is s (len, bytes) = rw (decode_id, rw len at (is.decodes s bytes)) refl

-- Either written form of a 16-byte session id, 32 hexadecimal digits or a UUID with dashes, is read back as
-- that id, whatever digits the crate writes, provided that it writes two of them for a byte, never a dash
-- nor a slash, and decodes what it encodes.
pub from_str-to_hex-to_uuid :
    (hex : Hex)
    → IsHex hex
    → (s : SessionId) → IsSessionId s
    → (from_str hex (to_hex hex s) ≡ ok s) × (from_str hex (to_uuid hex s) ≡ ok s)
unfolding from_str
from_str-to_hex-to_uuid hex is s good =
    let len = length-to_hex hex is s good in
    let d = to_hex-NoDash hex is s in
    (
      rw (len) (decode_id-to_hex hex is s good),
      rw (length-to_uuid hex s len, strip_dashes-to_uuid hex s d len, len)
          (decode_id-to_hex hex is s good),
    )
