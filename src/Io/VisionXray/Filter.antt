-- ===== src/Io/VisionXray/Filter.antt =====
-- `FilterState` of crates/donut-io/src/vision_xray.rs: does the inner stream speak TLS 1.3?
use hold_the_donut.Prelude.{
  ℕ, ◌+◌, ◌*◌, ◌≡◌, ◌≢◌, refl, sym, ◌∙◌, Bool, true, false, not, ◌&&◌, ◌||◌, List, [], ◌∷◌, length,
  take, min, get_or, ltb, leb, ◌==◌, ==_iff, if◌then◌else◌, bytes_eq, Bool-cases, inl, inr,
}
use hold_the_donut.Prelude.I32.{is_positive, sub_i32, as_usize}

-- The i32 fields hold bit patterns.
pub record FilterState : Type 0 where
  number_to_filter : ℕ
  pub enable_xtls : Bool
  is_tls12_or_above : Bool
  is_tls : Bool
  cipher : ℕ
  remaining_server_hello : ℕ

-- `FilterState::default`
abbrev pub default_filter : FilterState
default_filter = record {
  number_to_filter = 8;
  enable_xtls = false;
  is_tls12_or_above = false;
  is_tls = false;
  cipher = 0;
  remaining_server_hello = 0;
}

abbrev tls13_supported_versions : List ℕ
tls13_supported_versions = 0x00 ∷ 0x2b ∷ 0x00 ∷ 0x02 ∷ 0x03 ∷ 0x04 ∷ []

-- The suite TLS_AES_128_CCM_8_SHA256.
abbrev refused_suite : ℕ
refused_suite = 0x1305

-- `haystack.windows(n).any(|w| w == needle)`
unfoldable pub windows_any : List ℕ → List ℕ → Bool
windows_any [] needle = false
windows_any (x ∷ haystack) needle =
    bytes_eq (take (length needle) (x ∷ haystack)) needle || windows_any haystack needle

-- `contains`
unfoldable pub contains : List ℕ → List ℕ → Bool
contains haystack needle =
    if length needle == 0 || ltb (length haystack) (length needle)
    then false
    else windows_any haystack needle

-- The suite of a ServerHello, where the buffer has it; its indices are in range by the tests before them.
unfoldable pub read_cipher : FilterState → List ℕ → FilterState
read_cipher s b =
    let i = 43 + get_or b 43 0 in
    if (leb 79 (length b) && leb 79 s.remaining_server_hello) && leb (i + 3) (length b)
    then record s { cipher = get_or b (i + 1) 0 * 256 + get_or b (i + 2) 0 }
    else s

-- What the start of the buffer says: a ServerHello, a ClientHello, or nothing.
unfoldable pub look : FilterState → List ℕ → FilterState
look s (a ∷ v ∷ w ∷ h ∷ l ∷ ty ∷ more) =
    if (a == 0x16 && (v == 0x03 && w == 0x03)) && ty == 0x02
    then read_cipher
        (record s {
          remaining_server_hello = h * 256 + l + 5;
          is_tls12_or_above = true;
          is_tls = true;
        })
        (a ∷ v ∷ w ∷ h ∷ l ∷ ty ∷ more)
    else if (a == 0x16 && v == 0x03) && ty == 0x01
    then record s { is_tls = true }
    else s
look s b = s

-- The search for the version of TLS 1.3 in what is left of the ServerHello.
unfoldable pub search_version : FilterState → List ℕ → FilterState
search_version s b =
    let end = min (as_usize s.remaining_server_hello) (length b) in
    let left = sub_i32 s.remaining_server_hello (length b) in
    if contains (take end b) tls13_supported_versions
    then record s {
      remaining_server_hello = left;
      enable_xtls = if s.cipher == refused_suite then s.enable_xtls else true;
      number_to_filter = 0;
    }
    else if not (is_positive left)
    then record s { remaining_server_hello = left; number_to_filter = 0 }
    else record s { remaining_server_hello = left }

-- `FilterState::filter`
unfoldable pub filter : FilterState → List ℕ → FilterState
filter s b =
    let seen = look (record s { number_to_filter = sub_i32 s.number_to_filter 1 }) b in
    if is_positive seen.remaining_server_hello then search_version seen b else seen

-- Splicing is enabled, or a ServerHello is being read, only where one of TLS 1.2 or above began.
pub record IsSeen (s : FilterState) : Type 0 where
  when_enabled : s.enable_xtls ≡ true → (s.is_tls12_or_above ≡ true) × (s.is_tls ≡ true)
  when_reading :
      is_positive s.remaining_server_hello ≡ true → (s.is_tls12_or_above ≡ true) × (s.is_tls ≡ true)

read_cipher-IsSeen : (s : FilterState) (b : List ℕ) → IsSeen s → IsSeen (read_cipher s b)
unfolding read_cipher
read_cipher-IsSeen s b h =
    elim (Bool-cases (
      (leb 79 (length b) && leb 79 s.remaining_server_hello)
      && leb (43 + get_or b 43 0 + 3) (length b))) [
        | inl e ↦ rw e (record { when_enabled = h.when_enabled; when_reading = h.when_reading })
        | inr e ↦ rw e h
      ]

look-IsSeen : (s : FilterState) (b : List ℕ) → IsSeen s → IsSeen (look s b)
unfolding look
look-IsSeen s [] h = h
look-IsSeen s (a ∷ []) h = h
look-IsSeen s (a ∷ v ∷ []) h = h
look-IsSeen s (a ∷ v ∷ w ∷ []) h = h
look-IsSeen s (a ∷ v ∷ w ∷ x ∷ []) h = h
look-IsSeen s (a ∷ v ∷ w ∷ x ∷ l ∷ []) h = h
look-IsSeen s (a ∷ v ∷ w ∷ x ∷ l ∷ ty ∷ more) h =
    elim (Bool-cases ((a == 0x16 && (v == 0x03 && w == 0x03)) && ty == 0x02)) [
      | inl server ↦ rw server (
          read_cipher-IsSeen _ _
            (record { when_enabled = λ _. (refl, refl); when_reading = λ _. (refl, refl) }))
      | inr other ↦ elim (Bool-cases ((a == 0x16 && v == 0x03) && ty == 0x01)) [
        | inl client ↦
            rw (other, client)
              (record {
                when_enabled = λ e. ((h.when_enabled e).0, refl);
                when_reading = λ e. ((h.when_reading e).0, refl);
              })
        | inr none ↦ rw (other, none) h
      ]
    ]

search_version-IsSeen :
    (s : FilterState) (b : List ℕ)
    → is_positive s.remaining_server_hello ≡ true
    → IsSeen s
    → IsSeen (search_version s b)
unfolding search_version
search_version-IsSeen s b p h =
    let t = h.when_reading p in
    elim (Bool-cases (
      contains (take (min (as_usize s.remaining_server_hello) (length b)) b)
        tls13_supported_versions)) [
          | inl found ↦ rw found (record { when_enabled = λ _. t; when_reading = λ _. t })
          | inr absent ↦
              elim (Bool-cases (is_positive (sub_i32 s.remaining_server_hello (length b)))) [
                | inl more ↦
                    rw (absent, more) (record { when_enabled = λ _. t; when_reading = λ _. t })
                | inr none ↦
                    rw (absent, none) (record { when_enabled = λ _. t; when_reading = λ _. t })
              ]
        ]

-- From a state in which splicing is enabled, or a ServerHello is being read, only if one of TLS 1.2 or
-- above has begun, the filter goes to such a state, on any buffer.
filter-IsSeen : (s : FilterState) (b : List ℕ) → IsSeen s → IsSeen (filter s b)
unfolding filter
filter-IsSeen s b h =
    let start : FilterState = record s { number_to_filter = sub_i32 s.number_to_filter 1 } in
    let seen =
      look-IsSeen start b
        (record { when_enabled = h.when_enabled; when_reading = h.when_reading }) in
    elim (Bool-cases (is_positive (look start b).remaining_server_hello)) [
      | inl p ↦ rw p (search_version-IsSeen (look start b) b p seen)
      | inr p ↦ rw p seen
    ]

read_cipher-enable_xtls :
    (s : FilterState) (b : List ℕ) → (read_cipher s b).enable_xtls ≡ s.enable_xtls
unfolding read_cipher
read_cipher-enable_xtls s b =
    elim (Bool-cases (
      (leb 79 (length b) && leb 79 s.remaining_server_hello)
      && leb (43 + get_or b 43 0 + 3) (length b))) [ inl e ↦ rw e refl | inr e ↦ rw e refl ]

look-enable_xtls : (s : FilterState) (b : List ℕ) → (look s b).enable_xtls ≡ s.enable_xtls
unfolding look
look-enable_xtls s [] = refl
look-enable_xtls s (a ∷ []) = refl
look-enable_xtls s (a ∷ v ∷ []) = refl
look-enable_xtls s (a ∷ v ∷ w ∷ []) = refl
look-enable_xtls s (a ∷ v ∷ w ∷ x ∷ []) = refl
look-enable_xtls s (a ∷ v ∷ w ∷ x ∷ l ∷ []) = refl
look-enable_xtls s (a ∷ v ∷ w ∷ x ∷ l ∷ ty ∷ more) =
    elim (Bool-cases ((a == 0x16 && (v == 0x03 && w == 0x03)) && ty == 0x02)) [
      | inl server ↦ rw server (read_cipher-enable_xtls _ _)
      | inr other ↦ elim (Bool-cases ((a == 0x16 && v == 0x03) && ty == 0x01)) [
        | inl client ↦ rw (other, client) refl
        | inr none ↦ rw (other, none) refl
      ]
    ]

search_version-cipher :
    (s : FilterState) (b : List ℕ)
    → s.enable_xtls ≡ false
    → (search_version s b).enable_xtls ≡ true
    → (search_version s b).cipher ≢ refused_suite
unfolding search_version
search_version-cipher s b off on =
    elim (Bool-cases (
      contains (take (min (as_usize s.remaining_server_hello) (length b)) b)
        tls13_supported_versions)) [
          | inl found ↦ elim (Bool-cases (s.cipher == refused_suite)) [
            | inl same ↦ cc (off, rw (search_version, found, same) at on)
            | inr other ↦ rw found λ e. cc (sym other ∙ (==_iff s.cipher refused_suite).1 e)
          ]
          | inr absent ↦
              elim (Bool-cases (is_positive (sub_i32 s.remaining_server_hello (length b)))) [
                | inl more ↦ cc (off, rw (search_version, absent, more) at on)
                | inr none ↦ cc (off, rw (search_version, absent, none) at on)
              ]
        ]

-- The buffer on which the filter enables splicing leaves a cipher suite other than the one that Xray
-- refuses to splice.
filter-cipher :
    (s : FilterState) (b : List ℕ)
    → s.enable_xtls ≡ false
    → (filter s b).enable_xtls ≡ true
    → (filter s b).cipher ≢ refused_suite
unfolding filter
filter-cipher s b off on =
    let start : FilterState = record s { number_to_filter = sub_i32 s.number_to_filter 1 } in
    let still = look-enable_xtls start b ∙ off in
    elim (Bool-cases (is_positive (look start b).remaining_server_hello)) [
      | inl p ↦ rw p (search_version-cipher (look start b) b still (rw (filter, p) at on))
      | inr p ↦ cc (still, rw (filter, p) at on)
    ]
