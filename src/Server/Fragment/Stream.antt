-- ===== src/Server/Fragment/Stream.antt =====
-- Reading the first record of a stream.
use hold_the_donut.Prelude.{
  ℕ, zero, suc, ◌≤◌, ◌<◌, ◌≡◌, refl, ap, sym, ◌∙◌, ◌⊎◌, inl, inr, List, [], ◌∷◌, ◌++◌, append_assoc,
  append-nil, length, take, drop, get_or, length-append, length-take, take-append-drop, ltb,
  lt_or_le, lt→ltb, le→ltb, if◌then◌else◌, Outcome-cases, ok, ok-injective, arith,
}
use hold_the_donut.Server.Fragment.{
  ReadResult, got, read_failed, fill, record_total, split_record, read_payload, read_first_record,
}

-- The bytes that a stream still gives, up to its end or its first failure.
unfoldable pub bytes_of : List ReadResult → List ℕ
bytes_of [] = []
bytes_of (read_failed ∷ rs) = []
bytes_of (got [] ∷ rs) = []
bytes_of (got (x ∷ xs) ∷ rs) = (x ∷ xs) ++ bytes_of rs

-- What `fill` ends with: the buffer longer by what was read, and enough of it or the stream's end.
abbrev Filled : ℕ → List ℕ → List ReadResult → List ℕ × List ReadResult → Type 0
Filled total buf rs r =
    (read : List ℕ) × (r.0 ≡ buf ++ read)
    × (r.0 ++ bytes_of (r.1) ≡ buf ++ bytes_of rs)
    × ((total ≤ length (r.0)) ⊎ (bytes_of (r.1) ≡ []))

stays :
    (total : ℕ) (buf : List ℕ) (rs : List ReadResult)
    → (total ≤ length buf) ⊎ (bytes_of rs ≡ [])
    → Filled total buf rs (buf, rs)
stays total buf rs h = ([], sym (append-nil buf), refl, h)

fill-Filled :
    (total : ℕ) (buf : List ℕ) (rs : List ReadResult) (r : List ℕ × List ReadResult)
    → fill total buf rs ≡ ok r
    → Filled total buf rs r
unfolding fill bytes_of
fill-Filled total buf [] r e = rw (ok-injective (sym e)) (stays total buf [] (inr refl))
fill-Filled total buf (read_failed ∷ rs) r e = elim (lt_or_le (length buf) total) [
  | inl lt ↦ cc (rw (fill, lt→ltb (length buf) total lt) at e)
  | inr le ↦
      rw (ok-injective (sym (rw (fill, le→ltb (length buf) total le) at e)))
        (stays total buf (read_failed ∷ rs) (inl le))
]
fill-Filled total buf (got [] ∷ rs) r e = elim (lt_or_le (length buf) total) [
  | inl lt ↦
      rw (ok-injective (sym (rw (fill, lt→ltb (length buf) total lt) at e)))
        ([], sym (append-nil buf), refl, inr refl)
  | inr le ↦
      rw (ok-injective (sym (rw (fill, le→ltb (length buf) total le) at e)))
        (stays total buf (got [] ∷ rs) (inl le))
]
fill-Filled total buf (got (x ∷ xs) ∷ rs) r e = elim (lt_or_le (length buf) total) [
  | inl lt ↦
      let (read, same, all, end) =
        fill-Filled total (buf ++ (x ∷ xs)) rs r (rw (lt→ltb (length buf) total lt) at e) in
      (
        (x ∷ xs) ++ read,
        same ∙ append_assoc buf (x ∷ xs) read,
        all ∙ append_assoc buf (x ∷ xs) (bytes_of rs),
        end,
      )
  | inr le ↦
      rw (ok-injective (sym (rw (le→ltb (length buf) total le) at e)))
        (stays total buf (got (x ∷ xs) ∷ rs) (inl le))
]

-- A record by its own header.
abbrev pub IsRecord : List ℕ → Type 0
IsRecord r = (5 ≤ length r) × (length r ≡ record_total r)

get_or-append : (i : ℕ) (xs ys : List ℕ) → i < length xs → get_or (xs ++ ys) i 0 ≡ get_or xs i 0
get_or-append i [] ys lt = absurd (omega arith)
get_or-append zero (x ∷ xs) ys lt = refl
get_or-append (suc i) (x ∷ xs) ys lt = get_or-append i xs ys (omega arith)

get_or-take : (i n : ℕ) (xs : List ℕ) → i < n → get_or (take n xs) i 0 ≡ get_or xs i 0
get_or-take i zero xs lt = absurd (omega arith)
get_or-take i (suc n) [] lt = refl
get_or-take zero (suc n) (x ∷ xs) lt = refl
get_or-take (suc i) (suc n) (x ∷ xs) lt = get_or-take i n xs (omega arith)

record_total-append : (xs ys : List ℕ) → 5 ≤ length xs → record_total (xs ++ ys) ≡ record_total xs
unfolding record_total
record_total-append xs ys le =
    rw (get_or-append 3 xs ys (omega arith), get_or-append 4 xs ys (omega arith)) refl

record_total-take : (n : ℕ) (xs : List ℕ) → 5 ≤ n → record_total (take n xs) ≡ record_total xs
unfolding record_total
record_total-take n xs le =
    rw (get_or-take 3 n xs (omega arith), get_or-take 4 n xs (omega arith)) refl

record_total_ge : (xs : List ℕ) → 5 ≤ record_total xs
unfolding record_total
record_total_ge xs = omega arith

-- What the caller gets: the record, what was read past it, and the stream.
abbrev pub Taken : (List ℕ × List ℕ) × List ReadResult → List ℕ → Type 0
Taken r all =
    (r.0.0 ++ (r.0.1 ++ bytes_of (r.1)) ≡ all)
    × (IsRecord (r.0.0) ⊎ ((r.0.1 ≡ []) × (bytes_of (r.1) ≡ [])))

split_record-Taken :
    (buf read : List ℕ) (rs : List ReadResult)
    → 5 ≤ length buf
    → (record_total buf ≤ length (buf ++ read)) ⊎ (bytes_of rs ≡ [])
    → Taken (split_record (record_total buf) (buf ++ read) rs) ((buf ++ read) ++ bytes_of rs)
unfolding split_record
split_record-Taken buf read rs le full = elim (lt_or_le (record_total buf) (length (buf ++ read))) [
  | inl lt ↦ rw (lt→ltb (record_total buf) (length (buf ++ read)) lt) (
    sym (append_assoc (take total all) (drop total all) (bytes_of rs))
        ∙ ap (λ t. t ++ bytes_of rs) (take-append-drop total all),
    inl (cut lt),
  )
  | inr ge ↦ rw (le→ltb (record_total buf) (length (buf ++ read)) ge) (refl, whole ge full)
]
  where
    total : ℕ
    total = record_total buf

    all : List ℕ
    all = buf ++ read

    cut : record_total buf < length (buf ++ read) → IsRecord (take total all)
    cut lt =
        let five = record_total_ge buf in
        let same = record_total-take total all five ∙ record_total-append buf read le in
        (
          omega (arith, length-take total all, lt, five),
          omega (arith, length-take total all, lt, same),
        )

    whole :
        length (buf ++ read) ≤ record_total buf
        → (record_total buf ≤ length (buf ++ read)) ⊎ (bytes_of rs ≡ [])
        → IsRecord all ⊎ ((◌≡◌ {A = List ℕ} [] []) × (bytes_of rs ≡ []))
    whole ge (inl le') =
        let same = record_total-append buf read le in
        inl (omega (arith, length-append buf read), omega (arith, same, ge, le'))
    whole ge (inr end) = inr (refl, end)

read_payload-Taken :
    (buf : List ℕ) (rs : List ReadResult) (r : (List ℕ × List ℕ) × List ReadResult)
    → 5 ≤ length buf
    → read_payload (record_total buf) buf rs ≡ ok r
    → Taken r (buf ++ bytes_of rs)
unfolding read_payload
read_payload-Taken buf rs r le e = elim (Outcome-cases (fill (record_total buf) buf rs)) [
  | inl ((buf', rs'), e') ↦
      let (read, same, all, full) = fill-Filled (record_total buf) buf rs (buf', rs') e' in
      rw (sym all, same, ok-injective (sym (rw (read_payload, e', same) at e)))
        (split_record-Taken buf read rs' le (enough buf' rs' read same full))
  | inr (inl (why, e')) ↦ cc (rw (read_payload, e') at e)
  | inr (inr e') ↦ cc (rw (read_payload, e') at e)
]
  where
    enough :
        (buf' : List ℕ) (rs' : List ReadResult) (read : List ℕ)
        → buf' ≡ buf ++ read
        → (record_total buf ≤ length buf') ⊎ (bytes_of rs' ≡ [])
        → (record_total buf ≤ length (buf ++ read)) ⊎ (bytes_of rs' ≡ [])
    enough buf' rs' read same h = rw (sym same) h

after_header :
    (buf : List ℕ) (rs : List ReadResult) (r : (List ℕ × List ℕ) × List ReadResult) (all : List ℕ)
    → buf ++ bytes_of rs ≡ all
    → (5 ≤ length buf) ⊎ (bytes_of rs ≡ [])
    → (if ltb (length buf) 5 then ok ((buf, []), rs) else read_payload (record_total buf) buf rs)
      ≡ ok r
    → Taken r all
after_header buf rs r all same full e = elim (lt_or_le (length buf) 5) [
  | inl lt ↦
      rw (ok-injective (sym (rw (lt→ltb (length buf) 5 lt) at e))) (same, inr (refl, ended lt full))
  | inr le ↦ rw (sym same) (read_payload-Taken buf rs r le (rw (le→ltb (length buf) 5 le) at e))
]
  where
    ended : length buf < 5 → (5 ≤ length buf) ⊎ (bytes_of rs ≡ []) → bytes_of rs ≡ []
    ended lt (inl le) = absurd (omega arith)
    ended lt (inr end) = end

-- When reading the first record succeeds, no byte is lost or out of order: the record, what was read past it
-- and what the stream still gives are what the prefix and the stream gave; and the record is complete by its
-- own header, unless the stream has ended, when all that came is handed over as the record.
pub read_first_record-Taken :
    (prefix : List ℕ) (reads : List ReadResult) (r : (List ℕ × List ℕ) × List ReadResult)
    → read_first_record prefix reads ≡ ok r
    → Taken r (prefix ++ bytes_of reads)
unfolding read_first_record
read_first_record-Taken prefix reads r e = elim (Outcome-cases (fill 5 prefix reads)) [
  | inl ((buf, rs), e') ↦
      let (read, same, all, full) = fill-Filled 5 prefix reads (buf, rs) e' in
      after_header buf rs r (prefix ++ bytes_of reads) all full (rw (read_first_record, e') at e)
  | inr (inl (why, e')) ↦ cc (rw (read_first_record, e') at e)
  | inr (inr e') ↦ cc (rw (read_first_record, e') at e)
]
