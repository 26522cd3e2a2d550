-- ===== src/Carrier/PacketUp/Release.antt =====
-- The loop of packet_up.rs that releases chunks, as a relation, and what it keeps.
use hold_the_donut.Prelude.{
  ℕ, zero, suc, ◌≤◌, ◌<◌, ◌≡◌, ◌≢◌, refl, sym, ◌⊎◌, inl, inr, none, some, List, [], ◌∷◌, ◌++◌,
  append-nil, append_assoc, length, lt_or_le, ◌==◌, ==_iff, Bool, true, false, Bool-cases, All,
  arith, Option-cases,
}
use hold_the_donut.Carrier.PacketUp.{Bytes, Buffered, get, remove, release, u64_succ}
use hold_the_donut.Carrier.PacketUp.Buffer.{
  All-remove, All-get, remove-ne, length-remove_le, length-remove_lt, get-remove_other,
}

-- From a next number and a buffer the chunks `cs` are released, and then this number and buffer stand.
pub data Releases : ℕ → Buffered → List Bytes → ℕ → Buffered → Type 0 where
  stop : {n : ℕ} {b : Buffered} → get n b ≡ none → Releases n b [] n b
  step :
      {n m : ℕ} {b b' : Buffered} (c : Bytes) (cs : List Bytes)
      → get n b ≡ some c
      → Releases (u64_succ n) (remove n b) cs m b'
      → Releases n b (c ∷ cs) m b'

nothing_left : (b : Buffered) (n : ℕ) → length b ≤ 0 → get n b ≡ none
unfolding get
nothing_left [] n h = refl
nothing_left (kc ∷ b) n h = absurd (omega arith)

-- With a round for each chunk the loop ends by itself.
pub release-Releases :
    (fuel n : ℕ) (b : Buffered)
    → length b ≤ fuel
    → let r = release fuel n b in Releases n b (r.0) (r.1.0) (r.1.1)
unfolding release
release-Releases zero n b le = stop (nothing_left b n le)
release-Releases (suc fuel) n b le = elim (Option-cases (get n b)) [
  | inl e ↦ rw (release, e) (stop e)
  | inr (c, e) ↦
      rw (release, e) (step c _ e (release-Releases fuel (u64_succ n) (remove n b) (less c e)))
]
  where
    less : (c : Bytes) → get n b ≡ some c → length (remove n b) ≤ fuel
    less c e = omega (arith, length-remove_lt n b c e)

-- The chunks of a stream before one, joined.
unfoldable pub upto : (ℕ → Bytes) → ℕ → Bytes
upto sent zero = []
upto sent (suc n) = upto sent n ++ sent n

unfoldable pub concat : List Bytes → Bytes
concat [] = []
concat (c ∷ cs) = c ++ concat cs

module _ (sent : ℕ → Bytes) where
  -- A buffered chunk is the stream's, no earlier than the next one.
  abbrev pub Awaited : ℕ → ℕ × Bytes → Type 0
  Awaited n kc = (kc.1 ≡ sent (kc.0)) × (n ≤ kc.0) × (kc.0 < 18446744073709551615)

  u64_succ_lem : (n : ℕ) → n < 18446744073709551615 → u64_succ n ≡ suc n
  unfolding u64_succ
  u64_succ_lem n h = omega arith

  All-Awaited-remove :
      (n : ℕ) (b : Buffered) → All (Awaited n) b → All (Awaited (suc n)) (remove n b)
  All-Awaited-remove n b h = later (remove n b) (All-remove (Awaited n) n b h) (remove-ne n b)
    where
      after : (j : ℕ) → n ≤ j → j ≢ n → suc n ≤ j
      after j le ne = omega arith

      later : (b : Buffered) → All (Awaited n) b → All (λ kc. kc.0 ≢ n) b → All (Awaited (suc n)) b
      later [] h k = tt
      later (kc ∷ b) ((e, le, lt), h) (ne, k) = ((e, after (kc.0) le ne, lt), later b h k)

  -- What is released is the stream's next part, and what is kept is later.
  pub Releases-upto :
      {n m : ℕ} {b b' : Buffered} {cs : List Bytes}
      → All (Awaited n) b
      → Releases n b cs m b'
      → upto sent n ++ concat cs ≡ upto sent m
  unfolding upto concat
  Releases-upto h (stop e) = append-nil _
  Releases-upto {n} {m} {b} h (step c cs e r) =
      let (same, le, lt) = All-get (Awaited n) n b c h e in
      let h' : All (Awaited (u64_succ n)) (remove n b) =
        rw (u64_succ_lem n lt) (All-Awaited-remove n b h) in
      let ih : upto sent (suc n) ++ concat cs ≡ upto sent m =
        (rw (u64_succ_lem n lt) at (Releases-upto h' r)) in
      rw (same, sym (append_assoc (upto sent n) (sent n) (concat cs))) ih

  pub Releases-Awaited :
      {n m : ℕ} {b b' : Buffered} {cs : List Bytes}
      → All (Awaited n) b
      → Releases n b cs m b'
      → All (Awaited m) b' × (n ≤ m) × (length b' ≤ length b)
  Releases-Awaited h (stop e) = (h, omega arith, omega arith)
  Releases-Awaited {n} {m} {b} h (step c cs e r) =
      let (same, le, lt) = All-get (Awaited n) n b c h e in
      let h' : All (Awaited (u64_succ n)) (remove n b) =
        rw (u64_succ_lem n lt) (All-Awaited-remove n b h) in
      let (k, up, fewer) = Releases-Awaited h' r in
      (k, omega (arith, u64_succ_lem n lt), omega (arith, length-remove_le n b))

-- The loop ends where the next chunk is missing.
pub Releases-get :
    {n m : ℕ} {b b' : Buffered} {cs : List Bytes} → Releases n b cs m b' → get m b' ≡ none
Releases-get (stop e) = e
Releases-get (step c cs e r) = Releases-get r

true-ne : {t : Bool} → t ≡ false → t ≢ true
true-ne f h = cc

-- A chunk that has come: it is already released, or it waits in the buffer.
abbrev pub Has : ℕ → Buffered → ℕ → Type 0
Has n b j = (j < n) ⊎ (get j b ≢ none)

pub Releases-Has :
    (sent : ℕ → Bytes) {n m : ℕ} {b b' : Buffered} {cs : List Bytes} (j : ℕ)
    → All (Awaited sent n) b
    → Releases n b cs m b'
    → Has n b j
    → Has m b' j
Releases-Has sent j h (stop e) has = has
Releases-Has sent {n} {m} {b} j h (step c cs e r) has =
    let (same, le, lt) = All-get (Awaited sent n) n b c h e in
    let h' : All (Awaited sent (u64_succ n)) (remove n b) =
      rw (u64_succ_lem sent n lt) (All-Awaited-remove sent n b h) in
    Releases-Has sent j h' r (carry lt has)
  where
    carry : n < 18446744073709551615 → Has n b j → Has (u64_succ n) (remove n b) j
    carry lt (inl less) = inl (omega (arith, u64_succ_lem sent n lt))
    carry lt (inr there) = elim (Bool-cases (n == j)) [
      | inl t ↦ inl (omega (arith, u64_succ_lem sent n lt, (==_iff n j).0 t))
      | inr f ↦ inr (rw (get-remove_other j n b (λ q. true-ne f ((==_iff n j).1 q))) there)
    ]

Releases-length :
    {n m : ℕ} {b b' : Buffered} {cs : List Bytes} → Releases n b cs m b' → length b' ≤ length b
Releases-length (stop e) = omega arith
Releases-length {n} {m} {b} (step c cs e r) = omega (arith, length-remove_le n b, Releases-length r)

-- Where the next chunk is there, fewer are kept.
pub Releases-length_lt :
    {n m : ℕ} {b b' : Buffered} {cs : List Bytes} (c : Bytes)
    → get n b ≡ some c
    → Releases n b cs m b'
    → length b' < length b
Releases-length_lt c there (stop e) = cc
Releases-length_lt {n} {m} {b} c there (step d cs e r) =
    omega (arith, length-remove_lt n b d e, Releases-length r)

-- A next chunk that is there is released.
pub Releases-lt :
    (sent : ℕ → Bytes) {n m : ℕ} {b b' : Buffered} {cs : List Bytes} (c : Bytes)
    → All (Awaited sent n) b
    → get n b ≡ some c
    → Releases n b cs m b'
    → n < m
Releases-lt sent {n} {m} c h there r = elim (Releases-Has sent n h r (inr (rw there (λ e. cc)))) [
  | inl lt ↦ lt
  | inr ne ↦ passed _ ((Releases-Awaited sent h r).1) ne (Releases-get r)
]
  where
    same : m ≤ n → n ≤ m → n ≡ m
    same ge le = omega arith

    passed : (b : Buffered) → n ≤ m → get n b ≢ none → get m b ≡ none → n < m
    passed b le ne e = elim (lt_or_le n m) [
      | inl lt ↦ lt
      | inr ge ↦ absurd (ne (rw (same ge le) e))
    ]
