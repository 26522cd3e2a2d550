-- ===== src/Wire/Addons/RoundTrip.antt =====
-- `Addons::decode` reads what `Addons::encode` wrote, and `encoded_len` is its length.
use hold_the_donut.Prelude.{
  ℕ, zero, suc, ◌≤◌, ◌≡◌, refl, arith, List, [], ◌∷◌, ◌++◌, ◌∙◌, length, ok, length-append,
  append_assoc, append-nil, take-append, drop-append, le→ltb, sym,
}
use hold_the_donut.Wire.Varint.{IsU64, put_varint}
use hold_the_donut.Wire.Varint.RoundTrip.{get_varint-put_varint, length-put_varint}
use hold_the_donut.Wire.Addons.{
  Addons, IsAddons, no_addons, tag_flow, tag_seed, field_len, put_field, addons_len, encode_addons,
  set_field, decode_field, decode_loop, decode_addons,
}

length-put_field :
    (tag : ℕ) (v : List ℕ) → IsU64 (length v) → length (put_field tag v) ≡ field_len v
unfolding put_field field_len
length-put_field tag [] h = refl
length-put_field tag (x ∷ v) h = omega (
  arith,
  length-append (put_varint (length (x ∷ v))) (x ∷ v),
  length-put_varint (length (x ∷ v)) h,
)

-- For any addons, `encoded_len` is the number of bytes that `encode` writes.
pub length-encode_addons : (a : Addons) → IsAddons a → length (encode_addons a) ≡ addons_len a
unfolding encode_addons addons_len
length-encode_addons a h = omega (
  arith,
  length-append (put_field tag_flow a.flow) (put_field tag_seed a.seed),
  length-put_field tag_flow a.flow h.flow_fits,
  length-put_field tag_seed a.seed h.seed_fits,
)

-- One field that stands before `rest`.
decode_put_field :
    (me me' : Addons) (tag x : ℕ) (v rest : List ℕ)
    → IsU64 (length (x ∷ v))
    → set_field tag (x ∷ v) me ≡ ok me'
    → decode_field me tag ((put_varint (length (x ∷ v)) ++ (x ∷ v)) ++ rest) ≡ ok (me', rest)
unfolding decode_field
decode_put_field me me' tag x v rest fits set =
    rw (append_assoc, get_varint-put_varint (length (x ∷ v)) ((x ∷ v) ++ rest) fits)
      (rw (
        le→ltb (length ((x ∷ v) ++ rest)) (length (x ∷ v)) (omega (arith, length-append v rest)),
        take-append (x ∷ v) rest,
        drop-append (x ∷ v) rest,
        set,
      ))

-- The loop over one written field, on fuel for the bytes left.
loop_put_field :
    (fuel : ℕ) (me me' : Addons) (tag : ℕ) (v rest : List ℕ)
    → IsU64 (length v)
    → set_field tag v me ≡ ok me'
    → (v ≡ [] → me ≡ me')
    → length (put_field tag v ++ rest) ≤ fuel
    → ((n : ℕ) → length rest ≤ n → decode_loop n me' rest ≡ decode_loop (length rest) me' rest)
    → decode_loop fuel me (put_field tag v ++ rest) ≡ decode_loop (length rest) me' rest
unfolding put_field decode_loop
loop_put_field fuel me me' tag [] rest fits set same h more = rw (same refl) (more fuel h)
loop_put_field zero me me' tag (x ∷ v) rest fits set same h more = absurd (omega arith)
loop_put_field (suc fuel) me me' tag (x ∷ v) rest fits set same h more =
    rw (decode_put_field me me' tag x v rest fits set)
      (more fuel (omega (arith, length-append (put_varint (length (x ∷ v)) ++ (x ∷ v)) rest)))

loop_end : (me : Addons) (n : ℕ) → decode_loop n me [] ≡ ok me
unfolding decode_loop
loop_end me zero = refl
loop_end me (suc n) = refl

loop_seed :
    (me : Addons) (v : List ℕ)
    → IsU64 (length v)
    → me.seed ≡ []
    → (n : ℕ) → length (put_field tag_seed v) ≤ n
    → decode_loop n me (put_field tag_seed v) ≡ ok (record me { seed = v })
unfolding decode_loop
loop_seed me v fits e n h =
    let whole =
      loop_put_field n me (record me { seed = v }) tag_seed v [] fits (unfold set_field in refl)
        (λ z. λ i. record { flow = me.flow; seed = (e ∙ sym z) i }) (rw append-nil h)
        (λ k _. loop_end (record me { seed = v }) k) in
    rw append-nil at whole

-- Any addons whose flow is UTF-8 are decoded from what `encode` wrote for them.
pub decode_addons-encode_addons : (a : Addons) → IsAddons a → decode_addons (encode_addons a) ≡ ok a
unfolding decode_addons encode_addons
decode_addons-encode_addons a h =
    loop_put_field _ no_addons (record { flow = a.flow; seed = [] }) tag_flow a.flow
      (put_field tag_seed a.seed) h.flow_fits (unfold set_field in rw h.flow_utf8)
      (λ z. λ i. record { flow = sym z i; seed = [] }) (omega arith)
      (λ n m.
        loop_seed _ a.seed h.seed_fits refl n m
        ∙ sym (loop_seed _ a.seed h.seed_fits refl _ (omega arith)))
    ∙ loop_seed _ a.seed h.seed_fits refl _ (omega arith)
