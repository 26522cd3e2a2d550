-- ===== src/Wire/Addons/Decode.antt =====
-- `Addons::decode` on any input: it ends, and what it returns is well formed.
use mathlib.Core.Path.{subst}
use hold_the_donut.Prelude.{
  ℕ, zero, suc, ◌≤◌, ◌<◌, ◌≡◌, ◌≢◌, refl, arith, List, [], ◌∷◌, length, ok, panic, All, IsByte,
  All-take, All-drop, length-take, length-drop, >>=-eq-ok, >>=-ne-panic, inl, inr, Bool-cases, ltb,
  ◌==◌, take, drop, true, ltb→le, sym, ap, ok_snd, ok-injective, ◌^◌,
}
use hold_the_donut.Prelude.Utf8.{is_utf8}
use hold_the_donut.Wire.Varint.{get_varint}
use hold_the_donut.Wire.Varint.Decode.{get_varint-ne-panic, length-get_varint, get_varint-All}
use hold_the_donut.Wire.Addons.{
  Addons, IsAddons, no_addons, tag_flow, tag_seed, set_field, decode_field, decode_loop,
  decode_addons,
}

set_field-ne-panic : (tag : ℕ) (value : List ℕ) (me : Addons) → set_field tag value me ≢ panic
unfolding set_field
set_field-ne-panic tag value me h = ground arith

decode_field-ne-panic : (me : Addons) (tag : ℕ) (bytes : List ℕ) → decode_field me tag bytes ≢ panic
unfolding decode_field
decode_field-ne-panic me tag bytes =
    >>=-ne-panic (get_varint bytes) _ (get_varint-ne-panic bytes)
      λ r _ h. ground (arith, set_field-ne-panic tag (take r.0 r.1) me)

-- What a decoded field came from.
decode_field-parts :
    (me : Addons) (tag : ℕ) (bytes : List ℕ) (r : Addons × List ℕ)
    → decode_field me tag bytes ≡ ok r
    → (len : ℕ) × (left : List ℕ) × (get_varint bytes ≡ ok (len, left))
      × (len ≤ length left)
      × (set_field tag (take len left) me ≡ ok r.0)
      × (r.1 ≡ drop len left)
unfolding decode_field
decode_field-parts me tag bytes r h =
    let (v, got, more) = >>=-eq-ok (get_varint bytes) _ h in
    elim (Bool-cases (ltb (length v.1) v.0)) [
      | inl short ↦ cc (rw short at more)
      | inr fits ↦
          let (me', set, done) = >>=-eq-ok (set_field tag (take v.0 v.1) me) _ (rw fits at more) in
          (v.0, v.1, got, ltb→le _ _ fits, cc, sym (ok_snd done))
    ]

length-decode_field :
    (me : Addons) (tag : ℕ) (bytes : List ℕ) (r : Addons × List ℕ)
    → decode_field me tag bytes ≡ ok r
    → length r.1 < length bytes
length-decode_field me tag bytes r h =
    let (len, left, got, fits, set, cut) = decode_field-parts me tag bytes r h in
    omega (arith, length-get_varint bytes len left got, length-drop len left, ap length cut)

decode_loop-ne-panic :
    (fuel : ℕ) (me : Addons) (bytes : List ℕ)
    → length bytes ≤ fuel
    → decode_loop fuel me bytes ≢ panic
unfolding decode_loop
decode_loop-ne-panic fuel me [] h = λ p. cc
decode_loop-ne-panic zero me (tag ∷ bytes) h = absurd (omega arith)
decode_loop-ne-panic (suc fuel) me (tag ∷ bytes) h =
    >>=-ne-panic (decode_field me tag bytes) _ (decode_field-ne-panic me tag bytes) λ r got.
      decode_loop-ne-panic fuel r.0 r.1 (omega (arith, length-decode_field me tag bytes r got))

-- `Addons::decode` returns on every input: its loop never runs out of fuel.
pub decode_addons-ne-panic : (bytes : List ℕ) → decode_addons bytes ≢ panic
unfolding decode_addons
decode_addons-ne-panic bytes = decode_loop-ne-panic (length bytes) no_addons bytes (omega arith)

-- The fields found so far.
record IsRead (bound : ℕ) (a : Addons) : Type 0 where
  flow_utf8 : is_utf8 a.flow ≡ true
  flow_bytes : All IsByte a.flow
  flow_short : length a.flow ≤ bound
  seed_bytes : All IsByte a.seed
  seed_short : length a.seed ≤ bound

set_field-IsRead :
    (bound tag : ℕ) (value : List ℕ) (me me' : Addons)
    → All IsByte value
    → length value ≤ bound
    → IsRead bound me
    → set_field tag value me ≡ ok me'
    → IsRead bound me'
unfolding set_field
set_field-IsRead bound tag value me me' p h r e = elim (Bool-cases (tag == tag_flow)) [
  | inl is_flow ↦ elim (Bool-cases (is_utf8 value)) [
    | inl u ↦ subst (IsRead bound) (ok-injective (rw (is_flow, u) at e)) (record {
      flow_utf8 = u;
      flow_bytes = p;
      flow_short = h;
      seed_bytes = r.seed_bytes;
      seed_short = r.seed_short;
    })
    | inr bad ↦ cc (rw (is_flow, bad) at e)
  ]
  | inr not_flow ↦ elim (Bool-cases (tag == tag_seed)) [
    | inl is_seed ↦ subst (IsRead bound) (ok-injective (rw (not_flow, is_seed) at e)) (record {
      flow_utf8 = r.flow_utf8;
      flow_bytes = r.flow_bytes;
      flow_short = r.flow_short;
      seed_bytes = p;
      seed_short = h;
    })
    | inr unknown ↦ cc (rw (not_flow, unknown) at e)
  ]
]

decode_loop-IsRead :
    (bound fuel : ℕ) (me a : Addons) (bytes : List ℕ)
    → All IsByte bytes
    → length bytes ≤ bound
    → IsRead bound me
    → decode_loop fuel me bytes ≡ ok a
    → IsRead bound a
unfolding decode_loop
decode_loop-IsRead bound fuel me a [] p h r e = subst (IsRead bound) (ok-injective e) r
decode_loop-IsRead bound zero me a (tag ∷ bytes) p h r e = cc
decode_loop-IsRead bound (suc fuel) me a (tag ∷ bytes) (pt, p) h r e =
    let (s, got, more) = >>=-eq-ok (decode_field me tag bytes) _ e in
    let (len, left, num, fits, set, cut) = decode_field-parts me tag bytes s got in
    let pl = get_varint-All bytes len left p num in
    decode_loop-IsRead bound fuel s.0 a s.1 (rw cut (All-drop IsByte len left pl))
      (omega (arith, length-decode_field me tag bytes s got))
      (set_field-IsRead bound tag (take len left) me s.0 (All-take IsByte len left pl)
        (omega (arith, length-take len left, length-get_varint bytes len left num)) r set)
      more

-- What `Addons::decode` returns for a slice shorter than 2 ^ 64 is well formed: the flow is UTF-8,
-- and both fields are bytes that are no more than the slice had.
pub decode_addons-IsAddons :
    (bytes : List ℕ) (a : Addons)
    → All IsByte bytes
    → length bytes < 2 ^ 64
    → decode_addons bytes ≡ ok a
    → IsAddons a × (length a.flow ≤ length bytes) × (length a.seed ≤ length bytes)
unfolding decode_addons is_utf8
decode_addons-IsAddons bytes a p h e =
    let r =
      decode_loop-IsRead (length bytes) (length bytes) no_addons a bytes p (omega arith)
        (record {
          flow_utf8 = refl;
          flow_bytes = tt;
          flow_short = omega arith;
          seed_bytes = tt;
          seed_short = omega arith;
        })
        e in
    (
      record {
        flow_utf8 = r.flow_utf8;
        flow_bytes = r.flow_bytes;
        flow_fits = omega (arith, r.flow_short);
        seed_bytes = r.seed_bytes;
        seed_fits = omega (arith, r.seed_short);
      },
      r.flow_short,
      r.seed_short,
    )
