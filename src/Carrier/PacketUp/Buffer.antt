-- ===== src/Carrier/PacketUp/Buffer.antt =====
-- The buffer of packet_up.rs as a map: what `get`, `insert` and `remove` do to each other.
use hold_the_donut.Prelude.{
  ℕ, suc, Bool, false, ◌≤◌, ◌<◌, ◌≡◌, ◌≢◌, refl, sym, ◌∙◌, Option, some, [], ◌∷◌, length, ◌==◌,
  ==_iff, ==_refl, ne→==, inl, inr, Bool-cases, if◌then◌else◌, All, arith,
}
use hold_the_donut.Carrier.PacketUp.{Bytes, Buffered, get, insert, remove}

module _ (P : ℕ × Bytes → Type 0) where
  pub All-insert : (k : ℕ) (c : Bytes) (b : Buffered) → P (k, c) → All P b → All P (insert k c b)
  unfolding insert
  All-insert k c [] p h = (p, tt)
  All-insert k c ((j, d) ∷ r) p (q, h) = elim (Bool-cases (j == k)) [
    | inl t ↦ rw t (p, h)
    | inr f ↦ rw f (q, All-insert k c r p h)
  ]

  pub All-remove : (k : ℕ) (b : Buffered) → All P b → All P (remove k b)
  unfolding remove
  All-remove k [] h = tt
  All-remove k ((j, d) ∷ r) (q, h) = elim (Bool-cases (j == k)) [
    | inl t ↦ rw t (All-remove k r h)
    | inr f ↦ rw f (q, All-remove k r h)
  ]

  pub All-get : (k : ℕ) (b : Buffered) (c : Bytes) → All P b → get k b ≡ some c → P (k, c)
  unfolding get
  All-get k [] c h e = cc
  All-get k ((j, d) ∷ r) c (q, h) e = elim (Bool-cases (j == k)) [
    | inl t ↦
        let e' : ◌≡◌ {A = Option Bytes} (some d) (some c) = rw t at e in
        rw (pair_eq ((==_iff j k).0 t) e') at q
    | inr f ↦ All-get k r c h (rw f at e)
  ]
    where
      pair_eq :
          {j k : ℕ} {d c : Bytes}
          → j ≡ k
          → ◌≡◌ {A = Option Bytes} (some d) (some c)
          → ◌≡◌ {A = ℕ × Bytes} (j, d) (k, c)
      pair_eq p q = cc

-- No key is left that was removed.
pub remove-ne : (k : ℕ) (b : Buffered) → All (λ kc. kc.0 ≢ k) (remove k b)
unfolding remove
remove-ne k [] = tt
remove-ne k ((j, d) ∷ r) = elim (Bool-cases (j == k)) [
  | inl t ↦ rw t (remove-ne k r)
  | inr f ↦ rw f (differ f, remove-ne k r)
]
  where
    differ : {j k : ℕ} → (j == k) ≡ false → j ≢ k
    differ f = ground arith

pub length-insert_le : (k : ℕ) (c : Bytes) (b : Buffered) → length (insert k c b) ≤ suc (length b)
unfolding insert
length-insert_le k c [] = omega arith
length-insert_le k c ((j, d) ∷ r) = elim (Bool-cases (j == k)) [
  | inl t ↦ rw t (omega arith)
  | inr f ↦ rw f (omega (arith, length-insert_le k c r))
]

pub length-remove_le : (k : ℕ) (b : Buffered) → length (remove k b) ≤ length b
unfolding remove
length-remove_le k [] = omega arith
length-remove_le k ((j, d) ∷ r) = elim (Bool-cases (j == k)) [
  | inl t ↦ rw t (omega (arith, length-remove_le k r))
  | inr f ↦ rw f (omega (arith, length-remove_le k r))
]

pub length-remove_lt :
    (k : ℕ) (b : Buffered) (c : Bytes) → get k b ≡ some c → length (remove k b) < length b
unfolding get remove
length-remove_lt k [] c e = cc
length-remove_lt k ((j, d) ∷ r) c e = elim (Bool-cases (j == k)) [
  | inl t ↦ rw t (omega (arith, length-remove_le k r))
  | inr f ↦ rw f (omega (arith, length-remove_lt k r c (rw f at e)))
]

pub get-insert_same : (k : ℕ) (c : Bytes) (b : Buffered) → get k (insert k c b) ≡ some c
unfolding get insert
get-insert_same k c [] = rw (==_refl k) refl
get-insert_same k c ((j, d) ∷ r) = elim (Bool-cases (j == k)) [
  | inl t ↦ rw (t, ==_refl k) refl
  | inr f ↦ rw (f, f) (get-insert_same k c r)
]

pub get-insert_other : (j k : ℕ) (c : Bytes) (b : Buffered) → k ≢ j → get j (insert k c b) ≡ get j b
unfolding get insert
get-insert_other j k c [] ne = rw (ne→== k j ne) refl
get-insert_other j k c ((i, d) ∷ r) ne = elim (Bool-cases (i == k)) [
  | inl t ↦ let e = (==_iff i k).0 t in rw (t, ne→== k j ne, ne→== i j (λ q. ne (sym e ∙ q))) refl
  | inr f ↦ rw f (same_test (i == j) d (get-insert_other j k c r ne))
]
  where
    same_test :
        (t : Bool) (d : Bytes) {x y : Option Bytes}
        → x ≡ y
        → (if t then some d else x) ≡ (if t then some d else y)
    same_test t d e = rw e refl

pub get-remove_other : (j k : ℕ) (b : Buffered) → k ≢ j → get j (remove k b) ≡ get j b
unfolding get remove
get-remove_other j k [] ne = refl
get-remove_other j k ((i, d) ∷ r) ne = elim (Bool-cases (i == k)) [
  | inl t ↦
      let e = (==_iff i k).0 t in
      rw (t, ne→== i j (λ q. ne (sym e ∙ q))) (get-remove_other j k r ne)
  | inr f ↦ rw (f, get-remove_other j k r ne) refl
]
