-- ===== src/Io/VisionXray/Records.antt =====
-- `is_complete_record` of crates/donut-io/src/vision_xray.rs: is a buffer a sequence of whole TLS records of
-- application data?
use hold_the_donut.Prelude.{
  ℕ, zero, suc, ◌+◌, ◌*◌, ◌/◌, ◌%◌, ◌≤◌, ◌<◌, ◌≡◌, ◌↔◌, inl, inr, refl, sym, ◌∙◌, arith, Bool, true,
  false, not, ◌&&◌, List, [], ◌∷◌, ◌++◌, length, take, drop, ltb, le→ltb, ◌==◌, if◌then◌else◌, be16,
  All, All-drop, IsByte, Bool-cases, lt_or_le, lt→ltb, take-append-drop, drop-append, length-append,
  length-take,
}

-- The loop, on fuel: each round takes five bytes at least.
unfoldable is_complete_loop : ℕ → List ℕ → Bool
is_complete_loop fuel [] = true
is_complete_loop zero (t ∷ b) = false
is_complete_loop (suc fuel) (t ∷ []) = false
is_complete_loop (suc fuel) (t ∷ v ∷ []) = false
is_complete_loop (suc fuel) (t ∷ v ∷ w ∷ []) = false
is_complete_loop (suc fuel) (t ∷ v ∷ w ∷ h ∷ []) = false
is_complete_loop (suc fuel) (t ∷ v ∷ w ∷ h ∷ l ∷ b) =
    let rest = is_complete_loop fuel (drop (h * 256 + l) b) in
    if not (t == 0x17 && (v == 0x03 && w == 0x03))
    then false
    else if ltb (length b) (h * 256 + l)
    then false
    else rest

-- `is_complete_record`
unfoldable pub is_complete_record : List ℕ → Bool
unfolding is_complete_loop
is_complete_record b = is_complete_loop (length b) b

-- Records of application data with these payloads, one after the other.
abbrev pub records : List (List ℕ) → List ℕ
records [] = []
records (p ∷ payloads) = 0x17 ∷ 0x03 ∷ 0x03 ∷ (be16 (length p) ++ (p ++ records payloads))

abbrev pub IsPayload : List ℕ → Type 0
IsPayload p = length p ≤ 65535

record_length : (n : ℕ) → n ≤ 65535 → n / 256 % 256 * 256 + n % 256 ≡ n
record_length n h = omega arith

complete-records :
    (fuel : ℕ) (payloads : List (List ℕ))
    → All IsPayload payloads
    → length (records payloads) ≤ fuel
    → is_complete_loop fuel (records payloads) ≡ true
unfolding is_complete_loop
complete-records fuel [] h k = refl
complete-records zero (p ∷ payloads) h k = absurd (omega arith)
complete-records (suc fuel) (p ∷ payloads) (short, h) k =
    let fits : length p ≤ length (p ++ records payloads) =
      omega (arith, length-append p (records payloads)) in
    rw (record_length (length p) short, le→ltb _ _ fits, drop-append p (records payloads))
      (complete-records fuel payloads h (omega (arith, length-append p (records payloads))))

-- What a round that goes on has seen.
record Whole (fuel t v w h l : ℕ) (b : List ℕ) : Type 0 where
  kind : t ≡ 0x17
  major : v ≡ 0x03
  minor : w ≡ 0x03
  fits : h * 256 + l ≤ length b
  rest : is_complete_loop fuel (drop (h * 256 + l) b) ≡ true

is_kind :
    (t v w : ℕ)
    → (t == 0x17 && (v == 0x03 && w == 0x03)) ≡ true
    → (t ≡ 0x17) × (v ≡ 0x03) × (w ≡ 0x03)
is_kind t v w h = ground arith

whole :
    (fuel t v w h l : ℕ) (b : List ℕ)
    → is_complete_loop (suc fuel) (t ∷ v ∷ w ∷ h ∷ l ∷ b) ≡ true
    → Whole fuel t v w h l b
unfolding is_complete_loop
whole fuel t v w h l b e = elim (Bool-cases (t == 0x17 && (v == 0x03 && w == 0x03))) [
  | inr other ↦ cc (rw (is_complete_loop, other) at e)
  | inl k ↦
      let (kind, major, minor) = is_kind t v w k in
      elim (lt_or_le (length b) (h * 256 + l)) [
        | inl short ↦ cc (rw (is_complete_loop, k, lt→ltb _ _ short) at e)
        | inr full ↦ record {
          kind = kind;
          major = major;
          minor = minor;
          fits = full;
          rest = rw (is_complete_loop, k, le→ltb _ _ full) at e;
        }
      ]
]

length_bytes :
    (h l : ℕ) → h < 256 → l < 256 → ((h * 256 + l) / 256 % 256 ≡ h) × ((h * 256 + l) % 256 ≡ l)
length_bytes h l p q = (omega arith, omega arith)

-- The payloads of a buffer.
record Split (b : List ℕ) : Type 0 where
  payloads : List (List ℕ)
  short : All IsPayload payloads
  same : b ≡ records payloads

too_short :
    (fuel t v w h : ℕ)
    → (is_complete_loop fuel (t ∷ []) ≡ false)
      × (is_complete_loop fuel (t ∷ v ∷ []) ≡ false)
      × (is_complete_loop fuel (t ∷ v ∷ w ∷ []) ≡ false)
      × (is_complete_loop fuel (t ∷ v ∷ w ∷ h ∷ []) ≡ false)
unfolding is_complete_loop
too_short zero t v w h = (refl, refl, refl, refl)
too_short (suc fuel) t v w h = (refl, refl, refl, refl)

no_fuel : (x : ℕ) (b : List ℕ) → is_complete_loop zero (x ∷ b) ≡ false
unfolding is_complete_loop
no_fuel x b = refl

complete→Split : (fuel : ℕ) (b : List ℕ) → All IsByte b → is_complete_loop fuel b ≡ true → Split b
complete→Split fuel [] bytes e = record { payloads = []; short = tt; same = refl }
complete→Split zero (t ∷ b) bytes e = cc (sym (no_fuel t b) ∙ e)
complete→Split (suc fuel) (t ∷ []) bytes e = cc (sym (too_short (suc fuel) t 0 0 0).0 ∙ e)
complete→Split (suc fuel) (t ∷ v ∷ []) bytes e = cc (sym (too_short (suc fuel) t v 0 0).1 ∙ e)
complete→Split (suc fuel) (t ∷ v ∷ w ∷ []) bytes e = cc (sym (too_short (suc fuel) t v w 0).2 ∙ e)
complete→Split (suc fuel) (t ∷ v ∷ w ∷ h ∷ []) bytes e =
    cc (sym (too_short (suc fuel) t v w h).3 ∙ e)
complete→Split (suc fuel) (t ∷ v ∷ w ∷ h ∷ l ∷ b) (pt, (pv, (pw, (ph, (pl, bytes))))) e =
    let k = whole fuel t v w h l b e in
    let n = h * 256 + l in
    let later = complete→Split fuel (drop n b) (All-drop IsByte n b bytes) k.rest in
    let size : length (take n b) ≡ n = omega (arith, length-take n b, k.fits) in
    let (high, low) = length_bytes h l ph pl in
    record {
      payloads = take n b ∷ later.payloads;
      short = (omega arith, later.short);
      same =
          rw (size, high, low, ← later.same, take-append-drop n b) (cc (k.kind, k.major, k.minor));
    }

-- On bytes, `is_complete_record` is true exactly for the buffers that are TLS application data records of
-- version 3.3, whole and one after the other, each with a payload of at most 65535 bytes.
pub is_complete_record-records :
    (b : List ℕ)
    → All IsByte b
    → (is_complete_record b ≡ true)
      ↔ ((payloads : List (List ℕ)) × All IsPayload payloads × (b ≡ records payloads))
unfolding is_complete_record
is_complete_record-records b bytes = (
  λ e. let s = complete→Split (length b) b bytes e in (s.payloads, s.short, s.same),
  λ h.
      let (payloads, short, same) = h in
      rw same (complete-records (length (records payloads)) payloads short (omega arith)),
)
