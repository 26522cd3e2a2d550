-- ===== src/Wire/Reader/Incremental.antt =====
-- Readers that can be fed a stream piece by piece, and a rule for each way to build one.
use mathlib.Core.Path.{subst}
use hold_the_donut.Prelude.{
  ℕ, ◌+◌, ◌≤◌, ◌≡◌, ◌≢◌, ◌⊎◌, inl, inr, refl, sym, ap, arith, List, [], ◌∷◌, ◌++◌, Option, none,
  some, Outcome, ok, err, panic, Bool, true, false, if◌then◌else◌, ltb, length, take, drop,
  append_assoc, length-append, take-append_le, drop-append_le, take-append-drop, Bool-cases, ltb→le,
  le→ltb, ok_fst, ok_snd, >>=-eq-ok, err-injective, lt_or_le, get_or, append-ne-nil, lt→ltb, ◌∙◌,
  ◌<◌, ◌*◌,
}
use hold_the_donut.Prelude
use hold_the_donut.Wire.Error.{WireError, truncated}
use hold_the_donut.Wire.Reader.{
  Reader, ◌>>=◌, pure, fail, ok_or, lift, read_u8, read_bytes, read_u16_u8,
}

pub data IsTruncated : WireError → Type 0 where
  cut : (want have : ℕ) → IsTruncated (truncated want have)

-- The reader never panics; it takes a prefix of its input; bytes behind a success do not change it;
-- and an error other than `Truncated` is final.
pub record IsIncremental {A : Type 0} (m : Reader A) : Type 0 where
  pub total : (buf : List ℕ) → m buf ≢ panic
  pub takes :
      (buf : List ℕ) (a : A) (rest : List ℕ)
      → m buf ≡ ok (a, rest)
      → (t : List ℕ) × (buf ≡ t ++ rest)
  stable :
      (buf more : List ℕ) (a : A) (rest : List ℕ)
      → m buf ≡ ok (a, rest)
      → m (buf ++ more) ≡ ok (a, rest ++ more)
  final :
      (buf more : List ℕ) (e : WireError)
      → m buf ≡ err e
      → IsTruncated e ⊎ (m (buf ++ more) ≡ err e)

module _ {A : Type 0} where
  pub Incremental-pure : (a : A) → IsIncremental (pure a)
  Incremental-pure a = record {
    total = λ buf h. cc;
    takes = λ buf x rest h. ([], ok_snd h);
    stable = λ buf more x rest h. cc (ok_fst h, ap (λ t. t ++ more) (ok_snd h));
    final = λ buf more e h. cc;
  }

  pub Incremental-fail : (e : WireError) → IsIncremental (fail {A = A} e)
  Incremental-fail e = record {
    total = λ buf h. cc;
    takes = λ buf x rest h. cc;
    stable = λ buf more x rest h. cc;
    final = λ buf more e' h. inr h;
  }

  pub Incremental-ok_or : (o : Option A) (e : WireError) → IsIncremental (ok_or o e)
  Incremental-ok_or none e = Incremental-fail e
  Incremental-ok_or (some a) e = Incremental-pure a

  pub Incremental-lift : (r : Outcome WireError A) → r ≢ panic → IsIncremental (lift r)
  Incremental-lift (ok a) h = Incremental-pure a
  Incremental-lift (err e) h = Incremental-fail e
  Incremental-lift panic h = absurd (h refl)

  pub Incremental-if :
      (b : Bool) (m n : Reader A)
      → IsIncremental m
      → IsIncremental n
      → IsIncremental (if b then m else n)
  Incremental-if true m n hm hn = hm
  Incremental-if false m n hm hn = hn

module _ {A B : Type 0} (m : Reader A) (f : A → Reader B) where
  bind_total :
      IsIncremental m → ((a : A) → IsIncremental (f a)) → (buf : List ℕ) → (m >>= f) buf ≢ panic
  bind_total hm hf buf = Prelude.>>=-ne-panic (m buf) _ (hm.total buf) (λ r _. (hf r.0).total r.1)

  bind_takes :
      IsIncremental m
      → ((a : A) → IsIncremental (f a))
      → (buf : List ℕ) (b : B) (rest : List ℕ) → (m >>= f) buf ≡ ok (b, rest)
      → (t : List ℕ) × (buf ≡ t ++ rest)
  bind_takes hm hf buf b rest h =
      let (r, e, k) = >>=-eq-ok (m buf) (λ r. f r.0 r.1) h in
      let (t, p) = hm.takes buf r.0 r.1 e in
      let (u, q) = (hf r.0).takes r.1 b rest k in (t ++ u, rw (p, q) (sym (append_assoc t u rest)))

  bind_stable :
      IsIncremental m
      → ((a : A) → IsIncremental (f a))
      → (buf more : List ℕ) (b : B) (rest : List ℕ) → (m >>= f) buf ≡ ok (b, rest)
      → (m >>= f) (buf ++ more) ≡ ok (b, rest ++ more)
  bind_stable hm hf buf more b rest h =
      let (r, e, k) = >>=-eq-ok (m buf) (λ r. f r.0 r.1) h in
      rw (hm.stable buf more r.0 r.1 e) ((hf r.0).stable r.1 more b rest k)

  bind_final :
      IsIncremental m
      → ((a : A) → IsIncremental (f a))
      → (buf more : List ℕ) (e : WireError) → (m >>= f) buf ≡ err e
      → IsTruncated e ⊎ ((m >>= f) (buf ++ more) ≡ err e)
  bind_final hm hf buf more e h = go (m buf) refl
    where
      go :
          (r : Outcome WireError (A × List ℕ))
          → m buf ≡ r
          → IsTruncated e ⊎ ((m >>= f) (buf ++ more) ≡ err e)
      go (ok (a, rest)) got =
          rw (hm.stable buf more a rest got) ((hf a).final rest more e (rw got at h))
      go (err e') got =
          let same : e' ≡ e = err-injective (rw got at h) in
          elim (hm.final buf more e' got) [
            | inl t ↦ inl (subst IsTruncated same t)
            | inr p ↦ inr (rw p (ap (λ x. err x) same))
          ]
      go panic got = absurd (hm.total buf got)

  pub Incremental-bind : IsIncremental m → ((a : A) → IsIncremental (f a)) → IsIncremental (m >>= f)
  Incremental-bind hm hf = record {
    total = bind_total hm hf;
    takes = bind_takes hm hf;
    stable = bind_stable hm hf;
    final = bind_final hm hf;
  }

-- A reader of a fixed number of bytes.
module _ {A : Type 0} (n : ℕ) (f : List ℕ → A) (m : Reader A) where
  abbrev IsTake : Type 0
  IsTake =
      (buf : List ℕ)
      → m buf ≡ (
          if ltb (length buf) n
          then err (truncated n (length buf))
          else ok (f (take n buf), drop n buf))

  take_short : IsTake → (buf : List ℕ) → length buf < n → m buf ≡ err (truncated n (length buf))
  take_short eq buf h = eq buf ∙ rw (lt→ltb _ _ h)

  take_enough : IsTake → (buf : List ℕ) → n ≤ length buf → m buf ≡ ok (f (take n buf), drop n buf)
  take_enough eq buf h = eq buf ∙ rw (le→ltb _ _ h)

  pub Incremental-take : IsTake → IsIncremental m
  Incremental-take eq = record {
    total = λ buf h. elim (lt_or_le (length buf) n) [
      | inl short ↦ cc (take_short eq buf short)
      | inr enough ↦ cc (take_enough eq buf enough)
    ];
    takes = λ buf a rest h. elim (lt_or_le (length buf) n) [
      | inl short ↦ cc (take_short eq buf short)
      | inr enough ↦ (
        take n buf,
        rw (← ok_snd (sym (take_enough eq buf enough) ∙ h)) (sym (take-append-drop n buf)),
      )
    ];
    stable = λ buf more a rest h. elim (lt_or_le (length buf) n) [
      | inl short ↦ cc (take_short eq buf short)
      | inr enough ↦
          take_enough eq (buf ++ more) (omega (arith, length-append buf more))
          ∙ rw (take-append_le n buf more enough, drop-append_le n buf more enough)
              (cc (
                sym (take_enough eq buf enough) ∙ h,
                ap (λ t. t ++ more) (ok_snd (sym (take_enough eq buf enough) ∙ h)),
                ok_fst (sym (take_enough eq buf enough) ∙ h),
              ))
    ];
    final = λ buf more e h. elim (lt_or_le (length buf) n) [
      | inl short ↦ inl (
          subst IsTruncated (err-injective (sym (take_short eq buf short) ∙ h))
            (cut n (length buf)))
      | inr enough ↦ cc (take_enough eq buf enough)
    ];
  }

read_u8-take :
    (buf : List ℕ)
    → read_u8 buf ≡ (
        if ltb (length buf) 1
        then err (truncated 1 (length buf))
        else ok (get_or (take 1 buf) 0 0, drop 1 buf))
unfolding read_u8
read_u8-take [] = refl
read_u8-take (b ∷ buf) = rw (le→ltb (length (b ∷ buf)) 1 (omega arith))

pub Incremental-read_u8 : IsIncremental read_u8
Incremental-read_u8 = Incremental-take 1 (λ t. get_or t 0 0) read_u8 read_u8-take

read_u16_u8-take :
    (buf : List ℕ)
    → read_u16_u8 buf ≡ (
        if ltb (length buf) 3
        then err (truncated 3 (length buf))
        else ok (
          (get_or (take 3 buf) 0 0 * 256 + get_or (take 3 buf) 1 0, get_or (take 3 buf) 2 0),
          drop 3 buf,
        ))
unfolding read_u16_u8
read_u16_u8-take [] = refl
read_u16_u8-take (a ∷ []) = refl
read_u16_u8-take (a ∷ b ∷ []) = refl
read_u16_u8-take (a ∷ b ∷ c ∷ buf) = rw (le→ltb (length (a ∷ b ∷ c ∷ buf)) 3 (omega arith))

pub Incremental-read_u16_u8 : IsIncremental read_u16_u8
Incremental-read_u16_u8 =
    Incremental-take 3 (λ t. (get_or t 0 0 * 256 + get_or t 1 0, get_or t 2 0)) read_u16_u8
      read_u16_u8-take

read_bytes-take :
    (n : ℕ) (buf : List ℕ)
    → read_bytes n buf
      ≡ (if ltb (length buf) n then err (truncated n (length buf)) else ok (take n buf, drop n buf))
unfolding read_bytes
read_bytes-take n buf = elim (Bool-cases (ltb (length buf) n)) [
  | inl short ↦ rw short
  | inr enough ↦ rw enough (rw enough)
]

pub Incremental-read_bytes : (n : ℕ) → IsIncremental (read_bytes n)
Incremental-read_bytes n = Incremental-take n (λ t. t) (read_bytes n) (read_bytes-take n)

pub ruleset incremental_rules = (
  Incremental-pure, Incremental-fail, Incremental-ok_or, Incremental-lift, Incremental-if,
  Incremental-bind, Incremental-read_u8, Incremental-read_u16_u8, Incremental-read_bytes,
)

-- On a proper prefix of what it reads to the end, such a reader asks for more.
pub prefix-IsTruncated :
    {A : Type 0} (m : Reader A) (front : List ℕ) (x : ℕ) (back : List ℕ) (a : A)
    → IsIncremental m
    → m (front ++ (x ∷ back)) ≡ ok (a, [])
    → (e : WireError) × (m front ≡ err e) × IsTruncated e
prefix-IsTruncated {A} m front x back a inc whole = go (m front) refl
  where
    go :
        (r : Outcome WireError (A × List ℕ))
        → m front ≡ r
        → (e : WireError) × (m front ≡ err e) × IsTruncated e
    go (ok (b, rest)) got =
        absurd (
          append-ne-nil rest x back (ok_snd (sym (inc.stable front (x ∷ back) b rest got) ∙ whole)))
    go (err e) got = elim (inc.final front (x ∷ back) e got) [
      | inl t ↦ (e, got, t)
      | inr never ↦ cc (whole)
    ]
    go panic got = absurd (inc.total front got)
