-- ===== src/Carrier/Extract/Found.antt =====
-- Where the client's session id and sequence number are found again.
use hold_the_donut.Prelude.{
  ℕ, suc, length, ◌+◌, ◌*◌, ◌-◌, ◌<◌, ◌≡◌, ◌≢◌, refl, ap, sym, ◌⊎◌, inl, inr, Bool, true, false,
  ◌&&◌, Option, none, some, List, [], ◌∷◌, ◌++◌, ltb, ltb→lt, ◌==◌, ==_refl, ne→==, Bool-cases, All,
  ok, ok-injective, ◌∙◌, Option-cases, arith,
}
use hold_the_donut.Carrier.Config.{ServerConfig, in_path}
use hold_the_donut.Carrier.SessionId.{
  SessionId, IsSessionId, Hex, IsHex, slash, to_hex, to_uuid, from_str,
}
use hold_the_donut.Carrier.SessionId.RoundTrip.{
  from_str-to_hex-to_uuid, to_hex-NoSlash, to_uuid-NoSlash, length-to_hex, length-to_uuid,
}
use hold_the_donut.Carrier.Extract.{
  Head, unwrap_or, strip_prefix, first_segment, with_tail, placed_id, host_pinned, session_id,
  u64_digits, parse_u64, seq_text, sequence, is_ascii_digit,
}

strip_prefix-append : (p s : List ℕ) → strip_prefix p (p ++ s) ≡ some s
unfolding strip_prefix
strip_prefix-append [] s = refl
strip_prefix-append (c ∷ p) s = rw (==_refl c) (strip_prefix-append p s)

abbrev NoSlash : List ℕ → Type 0
NoSlash = All (λ c. c ≢ slash)

-- What may follow the session id: nothing, or further segments.
pub data IsTail : List ℕ → Type 0 where
  at_end : IsTail []
  segments : {s : List ℕ} → IsTail (slash ∷ s)

first_segment-append :
    (w tail : List ℕ) → NoSlash w → IsTail tail → first_segment (w ++ tail) ≡ (w, tail)
unfolding first_segment
first_segment-append [] _ h at_end = refl
first_segment-append [] _ h segments = refl
first_segment-append (c ∷ w) tail (ne, h) is =
    rw (ne→== c slash ne, first_segment-append w tail h is) refl

-- A slash before the id is taken off; an id does not begin with one.
first_slash :
    (sep : List ℕ) (c : ℕ) (r : List ℕ)
    → (sep ≡ []) ⊎ (sep ≡ slash ∷ [])
    → c ≢ slash
    → unwrap_or (strip_prefix (slash ∷ []) (sep ++ (c ∷ r))) (sep ++ (c ∷ r)) ≡ c ∷ r
unfolding unwrap_or strip_prefix
first_slash sep c r (inr h) ne = rw h refl
first_slash sep c r (inl h) ne = rw (h, ne→== slash c (λ q. ne (sym q))) refl

-- A text with no slash in it, set after the prefix, is what is read as the id.
session_id_at :
    (hex : Hex) (config : ServerConfig) (req : Head) (sid : SessionId) (sep w tail : List ℕ)
    → (sep ≡ []) ⊎ (sep ≡ slash ∷ [])
    → NoSlash w
    → w ≢ []
    → from_str hex w ≡ ok sid
    → IsTail tail
    → host_pinned req (config.host) ≡ true
    → config.session_placement ≡ in_path
    → req.path ≡ config.path_prefix ++ (sep ++ (w ++ tail))
    → session_id hex req config ≡ ok (sid, tail)
unfolding session_id placed_id with_tail
session_id_at hex config req sid sep [] tail s ns ne reads is host at path = absurd (ne refl)
session_id_at hex config req sid sep (c ∷ w) tail s (nc, ns) ne reads is host at path =
    rw
      (
        host,
        path,
        strip_prefix-append (config.path_prefix) (sep ++ (c ∷ (w ++ tail))),
        at,
        first_slash sep c (w ++ tail) s nc,
        first_segment-append (c ∷ w) tail (nc, ns) is,
        reads,
      )
      refl

nonempty : (n : ℕ) (w : List ℕ) → length w ≡ suc n → w ≢ []
nonempty n [] h = absurd (omega arith)
nonempty n (c ∷ w) h = λ e. cc

-- A request whose path is the configured prefix, a slash or none, the session id in either of its two forms
-- and a tail, which is empty or begins with a slash, is found to be of that session and to have that tail,
-- where ids are placed in the path and the request meets the host pin, if any.
pub session_id-to_hex-to_uuid :
    (hex : Hex)
    → IsHex hex
    → (config : ServerConfig) (req : Head) (sid : SessionId) (sep tail : List ℕ) → IsSessionId sid
    → (sep ≡ []) ⊎ (sep ≡ slash ∷ [])
    → IsTail tail
    → host_pinned req (config.host) ≡ true
    → config.session_placement ≡ in_path
    → (req.path ≡ config.path_prefix ++ (sep ++ (to_hex hex sid ++ tail)))
      ⊎ (req.path ≡ config.path_prefix ++ (sep ++ (to_uuid hex sid ++ tail)))
    → session_id hex req config ≡ ok (sid, tail)
session_id-to_hex-to_uuid hex is config req sid sep tail good s t host at (inl path) =
    session_id_at hex config req sid sep (to_hex hex sid) tail s (to_hex-NoSlash hex is sid)
      (nonempty 31 _ (length-to_hex hex is sid good)) ((from_str-to_hex-to_uuid hex is sid good).0)
      t host at path
session_id-to_hex-to_uuid hex is config req sid sep tail good s t host at (inr path) =
    session_id_at hex config req sid sep (to_uuid hex sid) tail s (to_uuid-NoSlash hex is sid)
      (nonempty 35 _ (length-to_uuid hex sid (length-to_hex hex is sid good)))
      ((from_str-to_hex-to_uuid hex is sid good).1) t host at path

-- Only what a u64 holds is read as a sequence number.
some-injective : {a b : ℕ} → ◌≡◌ {A = Option ℕ} (some a) (some b) → a ≡ b
some-injective h = cc

none-ne : {a : ℕ} → ◌≢◌ {A = Option ℕ} none (some a)
none-ne h = cc

and_snd : (a b : Bool) → (a && b) ≡ true → b ≡ true
and_snd true b h = h
and_snd false b h = cc

u64_digits-lt :
    (acc : ℕ) (s : List ℕ) (n : ℕ)
    → acc < 18446744073709551616
    → u64_digits acc s ≡ some n
    → n < 18446744073709551616
unfolding u64_digits
u64_digits-lt acc [] n lt h = omega (arith, some-injective h)
u64_digits-lt acc (c ∷ s) n lt h =
    elim (Bool-cases (is_ascii_digit c && ltb (acc * 10 + (c - 48)) 18446744073709551616)) [
      | inl t ↦
          u64_digits-lt (acc * 10 + (c - 48)) s n (ltb→lt _ _ (and_snd (is_ascii_digit c) _ t))
            (rw t at h)
      | inr f ↦ absurd (none-ne (rw f at h))
    ]

parse_u64-lt : (s : List ℕ) (n : ℕ) → parse_u64 s ≡ some n → n < 18446744073709551616
unfolding parse_u64
parse_u64-lt [] n h = absurd (none-ne h)
parse_u64-lt (c ∷ []) n h = u64_digits-lt 0 (c ∷ []) n (omega arith) h
parse_u64-lt (c ∷ d ∷ s) n h = elim (Bool-cases (c == b'+')) [
  | inl t ↦ u64_digits-lt 0 (d ∷ s) n (omega arith) (rw t at h)
  | inr f ↦ u64_digits-lt 0 (c ∷ d ∷ s) n (omega arith) (rw f at h)
]

sequence-lt :
    (req : Head) (config : ServerConfig) (n : ℕ)
    → sequence req config ≡ ok n
    → n < 18446744073709551616
unfolding sequence
sequence-lt req config n h = elim (Option-cases (seq_text req config (config.seq_placement))) [
  | inl e ↦ cc (rw (sequence, e) at h)
  | inr (s, e) ↦ elim (Option-cases (parse_u64 s)) [
    | inl e' ↦ cc (rw (sequence, e, e') at h)
    | inr (m, e') ↦
        parse_u64-lt s n (e' ∙ ap (λ x. some x) (ok-injective (rw (sequence, e, e') at h)))
  ]
]
