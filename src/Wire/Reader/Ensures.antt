-- ===== src/Wire/Reader/Ensures.antt =====
-- What a reader's results are, on an input of bytes, and a rule for each way to build a reader.
use hold_the_donut.Prelude.{
  ℕ, ◌+◌, ◌*◌, ◌≡◌, refl, arith, List, [], ◌∷◌, Option, none, some, Outcome, ok, err, panic, Bool,
  true, false, if◌then◌else◌, ltb, length, take, All, IsByte, IsU16, All-take, All-drop,
  length-take, Bool-cases, inl, inr, ltb→le, le→ltb, ok_fst, ok_snd, >>=-eq-ok,
}
use mathlib.Core.Path.{subst}
use hold_the_donut.Wire.Error.{WireError}
use hold_the_donut.Wire.Reader.{
  Reader, ◌>>=◌, pure, fail, ok_or, lift, read_u8, read_bytes, read_u16_u8,
}

pub record Ensures {A : Type 0} (P : A → Type 0) (m : Reader A) : Type 0 where
  pub at :
      (buf : List ℕ) (a : A) (rest : List ℕ)
      → All IsByte buf
      → m buf ≡ ok (a, rest)
      → P a × All IsByte rest

module _ {A : Type 0} {P : A → Type 0} where
  pub Ensures-pure : (a : A) → P a → Ensures P (pure a)
  Ensures-pure a p = record {
    at = λ buf x rest b h. (subst P (ok_fst h) p, subst (All IsByte) (ok_snd h) b);
  }

  pub Ensures-fail : (e : WireError) → Ensures P (fail e)
  Ensures-fail e = record { at = λ buf x rest b h. cc }

  pub Ensures-ok_or :
      (o : Option A) (e : WireError) → ((a : A) → o ≡ some a → P a) → Ensures P (ok_or o e)
  Ensures-ok_or none e k = Ensures-fail e
  Ensures-ok_or (some a) e k = Ensures-pure a (k a refl)

  pub Ensures-lift : (r : Outcome WireError A) → ((a : A) → r ≡ ok a → P a) → Ensures P (lift r)
  Ensures-lift (ok a) k = Ensures-pure a (k a refl)
  Ensures-lift (err e) k = Ensures-fail e
  Ensures-lift panic k = record { at = λ buf x rest b h. cc }

  pub Ensures-if :
      (b : Bool) (m n : Reader A) → Ensures P m → Ensures P n → Ensures P (if b then m else n)
  Ensures-if true m n hm hn = hm
  Ensures-if false m n hm hn = hn

module _ {A B : Type 0} {P : A → Type 0} {Q : B → Type 0} where
  pub Ensures-bind :
      (m : Reader A) (f : A → Reader B)
      → Ensures P m
      → ((a : A) → P a → Ensures Q (f a))
      → Ensures Q (m >>= f)
  Ensures-bind m f hm hf = record {
    at = λ buf b rest bytes h.
        let (r, e, k) = >>=-eq-ok (m buf) (λ r. f r.0 r.1) h in
        let (p, left) = hm.at buf r.0 r.1 bytes e in (hf r.0 p).at r.1 b rest left k;
  }

-- Where nothing need be known of the value.
pub Ensures-some : {A : Type 0} (o : Option A) (e : WireError) → Ensures (λ _. Unit {0}) (ok_or o e)
Ensures-some none e = record { at = λ buf x rest b h. cc }
Ensures-some (some a) e = record { at = λ buf x rest b h. (tt, subst (All IsByte) (ok_snd h) b) }

pub Ensures-read_u8 : Ensures IsByte read_u8
unfolding read_u8
Ensures-read_u8 = record { at = λ buf b rest bytes h. u8 buf b rest bytes h }
  where
    u8 :
        (buf : List ℕ) (b : ℕ) (rest : List ℕ)
        → All IsByte buf
        → read_u8 buf ≡ ok (b, rest)
        → IsByte b × All IsByte rest
    u8 [] b rest bytes h = cc
    u8 (x ∷ buf) b rest (px, bytes) h =
        let same : ◌≡◌ {A = Outcome WireError (ℕ × List ℕ)} (ok (x, buf)) (ok (b, rest)) =
          rw (le→ltb (length (x ∷ buf)) 1 (omega arith)) at h in
        (subst IsByte (ok_fst same) px, subst (All IsByte) (ok_snd same) bytes)

pub Ensures-read_bytes : (n : ℕ) → Ensures (λ xs. (length xs ≡ n) × All IsByte xs) (read_bytes n)
unfolding read_bytes
Ensures-read_bytes n = record {
  at = λ buf xs rest bytes h. elim (Bool-cases (ltb (length buf) n)) [
    | inl short ↦ cc (rw short at h)
    | inr enough ↦
        let same = rw enough at (rw enough at h) in
        let len : length (take n buf) ≡ n = omega (arith, length-take n buf, ltb→le _ _ enough) in
        (
          (rw (← ok_fst same) len, subst (All IsByte) (ok_fst same) (All-take IsByte n buf bytes)),
          subst (All IsByte) (ok_snd same) (All-drop IsByte n buf bytes),
        )
  ];
}

pub Ensures-read_u16_u8 : Ensures (λ pt. IsU16 pt.0 × IsByte pt.1) read_u16_u8
unfolding read_u16_u8
Ensures-read_u16_u8 = record { at = λ buf b rest bytes h. u16_u8 buf b rest bytes h }
  where
    u16_u8 :
        (buf : List ℕ) (b : ℕ × ℕ) (rest : List ℕ)
        → All IsByte buf
        → read_u16_u8 buf ≡ ok (b, rest)
        → (IsU16 b.0 × IsByte b.1) × All IsByte rest
    u16_u8 [] b rest bytes h = cc
    u16_u8 (x ∷ []) b rest bytes h = cc
    u16_u8 (x ∷ y ∷ []) b rest bytes h = cc
    u16_u8 (x ∷ y ∷ z ∷ buf) b rest (px, (py, (pz, bytes))) h =
        let same : ◌≡◌ {A = Outcome WireError ((ℕ × ℕ) × List ℕ)} (ok ((x * 256 + y, z), buf))
            (ok (b, rest)) =
          rw (le→ltb (length (x ∷ y ∷ z ∷ buf)) 3 (omega arith)) at h in
        (
          subst (λ (p : ℕ × ℕ). IsU16 p.0 × IsByte p.1) (ok_fst same) (omega arith, pz),
          subst (All IsByte) (ok_snd same) bytes,
        )

pub ruleset ensures_rules = (
  Ensures-fail, Ensures-if, Ensures-bind, Ensures-pure, Ensures-read_u8, Ensures-read_bytes,
  Ensures-read_u16_u8,
)
