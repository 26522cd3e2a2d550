-- ===== src/Server/Fragment/Sent.antt =====
-- What operations on a stream have done by their success or their first failure.
use hold_the_donut.Prelude.{
  ℕ, suc, ◌+◌, ◌≤◌, ◌<◌, ◌≡◌, refl, ap, sym, ◌∙◌, ◌⊎◌, inl, inr, Bool-cases, Option, none, some,
  List, [], ◌∷◌, ◌++◌, append_assoc, append-nil, take, drop, take-append-drop, ltb, lt_or_le,
  if◌then◌else◌, Outcome, ok, err, panic, arith,
}
use mathlib.Core.Path.{subst}
use hold_the_donut.Server.Fragment.{IoError}
use hold_the_donut.Server.Fragment.Paced.{
  Event, wrote, flushed, slept, Trace, write_all, flush, sleep,
}
use hold_the_donut.Server.Fragment.Reassembled.{}

-- The bytes that the stream has taken.
unfoldable pub written : List Event → List ℕ
written [] = []
written (wrote bytes ∷ events) = bytes ++ written events
written (flushed ∷ events) = written events
written (slept d ∷ events) = written events

-- How many operations on the stream there are.
unfoldable pub operations : List Event → ℕ
operations [] = 0
operations (wrote bytes ∷ events) = suc (operations events)
operations (flushed ∷ events) = suc (operations events)
operations (slept d ∷ events) = operations events

-- Of all the events wanted, the first operation being the k-th: on success all have happened and none of
-- their operations failed; on an error one of their operations has failed, the first that did, nothing
-- happened behind it, and what the stream has taken is the first of what was to be written.
abbrev pub Sends : (ℕ → Option ℕ) → ℕ → List Event → Trace → Type 0
Sends io k wanted (events, ok u) =
    (events ≡ wanted) × ((j : ℕ) → k ≤ j → j < k + operations wanted → io j ≡ none)
Sends io k wanted (events, err e) =
    (j : ℕ) × (k ≤ j)
    × (j < k + operations wanted)
    × ((n : ℕ) × (io j ≡ some n))
    × ((i : ℕ) → k ≤ i → i < j → io i ≡ none)
    × (k + operations events ≤ suc j)
    × ((rest : List ℕ) × (written events ++ rest ≡ written wanted))
Sends io k wanted (events, panic) = ⊥

pub nothing_done : (io : ℕ → Option ℕ) (k : ℕ) → Sends io k [] ([], ok tt)
unfolding operations
nothing_done io k = (refl, λ j ge lt. absurd (omega arith))

-- The operations from the (k+1)-th on, and the k-th, which did not fail.
earlier :
    (io : ℕ → Option ℕ) (k j : ℕ)
    → io k ≡ none
    → ((i : ℕ) → suc k ≤ i → i < j → io i ≡ none)
    → (i : ℕ) → k ≤ i
    → i < j
    → io i ≡ none
earlier io k j e h i ge lt = elim (lt_or_le k i) [
  | inl gt ↦ h i (omega arith) lt
  | inr le ↦ subst (λ n. io n ≡ none) (same i k le ge) e
]
  where
    same : (i k : ℕ) → i ≤ k → k ≤ i → k ≡ i
    same i k a b = omega arith

pub write_all-Sends :
    (io : ℕ → Option ℕ) (k : ℕ) (bytes : List ℕ) (wanted : List Event) (t : Trace)
    → (io k ≡ none) ⊎ ((n : ℕ) × (io k ≡ some n))
    → Sends io (suc k) wanted t
    → Sends io k (wrote bytes ∷ wanted) (write_all (io k) bytes t)
unfolding write_all written operations
write_all-Sends io k bytes wanted t (inr (n, e)) s =
    rw (write_all, e)
      (
        k,
        omega arith,
        omega arith,
        (n, e),
        (λ i ge lt. absurd (omega arith)),
        omega arith,
        (drop n bytes ++ written wanted, whole),
      )
  where
    whole : (take n bytes ++ []) ++ (drop n bytes ++ written wanted) ≡ bytes ++ written wanted
    whole =
        rw
          (
            append-nil (take n bytes),
            sym (append_assoc (take n bytes) (drop n bytes) (written wanted)),
          )
          (ap (λ l. l ++ written wanted) (take-append-drop n bytes))
write_all-Sends io k bytes wanted (events, ok u) (inl e) (same, h) =
    rw (write_all, e)
      (
        ap (λ l. wrote bytes ∷ l) same,
        λ j ge lt.
            earlier io k (k + suc (operations wanted)) e (λ i ge lt. h i ge (omega arith)) j ge lt,
      )
write_all-Sends io k bytes wanted (events, err x) (inl e) (j, ge, lt, bad, before, few, (rest, b)) =
    rw (write_all, e)
      (
        j,
        omega arith,
        omega arith,
        bad,
        earlier io k j e before,
        omega arith,
        (rest, append_assoc bytes (written events) rest ∙ ap (λ l. bytes ++ l) b),
      )
write_all-Sends io k bytes wanted (events, panic) (inl e) s = elim s [ ]

pub flush-Sends :
    (io : ℕ → Option ℕ) (k : ℕ) (wanted : List Event) (t : Trace)
    → (io k ≡ none) ⊎ ((n : ℕ) × (io k ≡ some n))
    → Sends io (suc k) wanted t
    → Sends io k (flushed ∷ wanted) (flush (io k) t)
unfolding flush written operations
flush-Sends io k wanted t (inr (n, e)) s =
    rw (flush, e)
      (
        k,
        omega arith,
        omega arith,
        (n, e),
        (λ i ge lt. absurd (omega arith)),
        omega arith,
        (written wanted, refl),
      )
flush-Sends io k wanted (events, ok u) (inl e) (same, h) =
    rw (flush, e)
      (
        ap (λ l. flushed ∷ l) same,
        λ j ge lt.
            earlier io k (k + suc (operations wanted)) e (λ i ge lt. h i ge (omega arith)) j ge lt,
      )
flush-Sends io k wanted (events, err x) (inl e) (j, ge, lt, bad, before, few, r) =
    rw (flush, e) (j, omega arith, omega arith, bad, earlier io k j e before, omega arith, r)
flush-Sends io k wanted (events, panic) (inl e) s = elim s [ ]

-- A pause, which is no event if it lasts no time.
abbrev pub nap : ℕ → List Event → List Event
nap d events = if ltb 0 d then slept d ∷ events else events

pub sleep-Sends :
    (io : ℕ → Option ℕ) (k d : ℕ) (wanted : List Event) (t : Trace)
    → Sends io k wanted t
    → Sends io k (nap d wanted) (sleep d t)
unfolding sleep written operations
sleep-Sends io k d wanted (events, r) s = elim (Bool-cases (ltb 0 d)) [
  | inl e ↦ rw e (longer r s)
  | inr e ↦ rw e s
]
  where
    longer :
        (r : Outcome IoError Unit)
        → Sends io k wanted (events, r)
        → Sends io k (slept d ∷ wanted) (slept d ∷ events, r)
    longer (ok u) (same, h) = (ap (λ l. slept d ∷ l) same, h)
    longer (err e) s = s
    longer panic s = s
