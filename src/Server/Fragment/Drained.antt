-- ===== src/Server/Fragment/Drained.antt =====
-- Where the bytes are that were written to `FragmentWriter`, and what draining does to them.
use hold_the_donut.Prelude.{
  ℕ, zero, suc, ◌+◌, ◌*◌, min, ◌≤◌, ◌<◌, ◌≡◌, ◌≢◌, refl, ap, sym, ◌∙◌, inl, inr, Bool, true, false,
  Bool-cases, some, List, [], ◌∷◌, ◌++◌, append_assoc, append-nil, length, take, drop, ◌==◌, ==_iff,
  lt_or_le, lt→ltb, le→ltb, arith,
}
use hold_the_donut.Server.Fragment.{FragmentParams, fragment_clienthello_to_vec}
use hold_the_donut.Server.Fragment.Adapter.{
  Answer, accepts, not_ready, fails, Poll, ready, Inner, FragmentWriter, drain_loop,
}

-- The bytes of a stream that do not hold its first record yet, by the length that its header gives.
pub data Incomplete : List ℕ → Type 0 where
  few : {bytes : List ℕ} → length bytes < 5 → Incomplete bytes
  short :
      (t v0 v1 h l : ℕ) (body : List ℕ)
      → length body < h * 256 + l
      → Incomplete (t ∷ v0 ∷ v1 ∷ h ∷ l ∷ body)

-- What the bytes written become: their first record, if it is of the handshake type, is cut, and what follows
-- it stays as it is; bytes of another type stay as they are. So may any bytes where the writer can have given
-- up waiting for a record.
pub data Emits (p : FragmentParams) (random : ℕ → ℕ) (gave_up : Bool)
    : List ℕ → List ℕ → Type 0 where
  given_up : {written : List ℕ} → gave_up ≡ true → Emits p random gave_up written written
  other_type : (t : ℕ) (rest : List ℕ) → t ≢ 22 → Emits p random gave_up (t ∷ rest) (t ∷ rest)
  cut :
      (v0 v1 h l : ℕ) (body rest out : List ℕ)
      → length body ≡ h * 256 + l
      → fragment_clienthello_to_vec (22 ∷ v0 ∷ v1 ∷ h ∷ l ∷ body) p random ≡ some out
      → Emits p random gave_up (22 ∷ v0 ∷ v1 ∷ h ∷ l ∷ (body ++ rest)) (out ++ rest)

pub Emits-append :
    (p : FragmentParams) (random : ℕ → ℕ) (gave_up : Bool) (more : List ℕ) {written whole : List ℕ}
    → Emits p random gave_up written whole
    → Emits p random gave_up (written ++ more) (whole ++ more)
Emits-append p random gave_up more (given_up e) = given_up e
Emits-append p random gave_up more (other_type t rest ne) = other_type t (rest ++ more) ne
Emits-append p random gave_up more (cut v0 v1 h l body rest out fits e) =
    rw (append_assoc body rest more, append_assoc out rest more)
      (cut v0 v1 h l body (rest ++ more) out fits e)

-- Where the written bytes are: all held back, or partly with the stream and the rest pending.
pub data Carried (random : ℕ → ℕ) (gave_up : Bool) : List ℕ → FragmentWriter → Type 0 where
  holding :
      {written : List ℕ} {w : FragmentWriter}
      → Incomplete written
      → w.is_done ≡ false
      → w.acc ≡ written
      → w.out ≡ []
      → w.inner.taken ≡ []
      → Carried random gave_up written w
  emitting :
      {written : List ℕ} {w : FragmentWriter} (whole : List ℕ)
      → w.is_done ≡ true
      → Emits (w.params) random gave_up written whole
      → w.inner.taken ++ drop (w.out_pos) (w.out) ≡ whole
      → Carried random gave_up written w

pub drop_past : (n : ℕ) (d : List ℕ) → length d ≤ n → drop n d ≡ []
drop_past zero [] le = refl
drop_past zero (x ∷ d) le = absurd (omega arith)
drop_past (suc n) [] le = refl
drop_past (suc n) (x ∷ d) le = drop_past n d (omega arith)

take-append-drop-min : (n : ℕ) (d : List ℕ) → take n d ++ drop (min n (length d)) d ≡ d
take-append-drop-min zero d = rw (min_zero (length d)) refl
  where
    min_zero : (m : ℕ) → min 0 m ≡ 0
    min_zero m = omega arith
take-append-drop-min (suc n) [] = drop_past (min (suc n) 0) [] (omega arith)
take-append-drop-min (suc n) (x ∷ d) =
    rw (min_suc n (length d)) (ap (λ t. x ∷ t) (take-append-drop-min n d))
  where
    min_suc : (n m : ℕ) → min (suc n) (suc m) ≡ suc (min n m)
    min_suc n m = omega arith

pub take-min : (n : ℕ) (d : List ℕ) → take (min n (length d)) d ≡ take n d
take-min zero d = rw (min_zero (length d)) refl
  where
    min_zero : (m : ℕ) → min 0 m ≡ 0
    min_zero m = omega arith
take-min (suc n) [] = take_nil (min (suc n) 0)
  where
    take_nil : (m : ℕ) → take {A = ℕ} m [] ≡ []
    take_nil zero = refl
    take_nil (suc m) = refl
take-min (suc n) (x ∷ d) = rw (min_suc n (length d)) (ap (λ t. x ∷ t) (take-min n d))
  where
    min_suc : (n m : ℕ) → min (suc n) (suc m) ≡ suc (min n m)
    min_suc n m = omega arith

drop_sum : (m n : ℕ) (d : List ℕ) → drop (m + n) d ≡ drop n (drop m d)
drop_sum zero n d = rw (zero_plus n) refl
  where
    zero_plus : (n : ℕ) → 0 + n ≡ n
    zero_plus n = omega arith
drop_sum (suc m) n [] = drop_past (suc m + n) [] (omega arith) ∙ sym (drop_past n [] (omega arith))
drop_sum (suc m) n (x ∷ d) = rw (suc_plus m n) (drop_sum m n d)
  where
    suc_plus : (m n : ℕ) → suc m + n ≡ suc (m + n)
    suc_plus m n = omega arith

-- Draining loses nothing, and it is ready only with nothing left.
abbrev pub Drained : List ℕ → List ℕ → (ℕ × Inner) × Poll Unit → Type 0
Drained out whole ((pos, s), ready u) = s.taken ≡ whole
Drained out whole ((pos, s), st) = s.taken ++ drop pos out ≡ whole

drained_all : (out taken : List ℕ) (pos : ℕ) → length out ≤ pos → taken ≡ taken ++ drop pos out
drained_all out taken pos le = rw (drop_past pos out le, append-nil taken) refl

take_none : (n : ℕ) (d : List ℕ) → min n (length d) ≡ 0 → take n d ≡ []
take_none n d e = sym (take-min n d) ∙ ap (λ m. take m d) e

moved :
    (out taken : List ℕ) (pos n : ℕ)
    → (taken ++ take n (drop pos out)) ++ drop (pos + min n (length (drop pos out))) out
      ≡ taken ++ drop pos out
moved out taken pos n =
    append_assoc taken (take n (drop pos out)) _
    ∙ ap (λ t. taken ++ (take n (drop pos out) ++ t)) (drop_sum pos _ out)
    ∙ ap (λ t. taken ++ t) (take-append-drop-min n (drop pos out))

pub drain_loop-Drained :
    (out : List ℕ) (pos : ℕ) (taken : List ℕ) (later : List Answer)
    → Drained out (taken ++ drop pos out) (drain_loop out pos taken later)
unfolding drain_loop
drain_loop-Drained out pos taken [] = elim (lt_or_le pos (length out)) [
  | inl lt ↦ rw (lt→ltb pos (length out) lt) refl
  | inr le ↦ rw (le→ltb pos (length out) le) (drained_all out taken pos le)
]
drain_loop-Drained out pos taken (not_ready ∷ later) = elim (lt_or_le pos (length out)) [
  | inl lt ↦ rw (lt→ltb pos (length out) lt) refl
  | inr le ↦ rw (le→ltb pos (length out) le) (drained_all out taken pos le)
]
drain_loop-Drained out pos taken (fails ∷ later) = elim (lt_or_le pos (length out)) [
  | inl lt ↦ rw (lt→ltb pos (length out) lt) refl
  | inr le ↦ rw (le→ltb pos (length out) le) (drained_all out taken pos le)
]
drain_loop-Drained out pos taken (accepts n ∷ later) = elim (lt_or_le pos (length out)) [
  | inr le ↦ rw (le→ltb pos (length out) le) (drained_all out taken pos le)
  | inl lt ↦ elim (Bool-cases (min n (length (drop pos out)) == 0)) [
    | inl z ↦
        rw
          (
            lt→ltb pos (length out) lt,
            z,
            take_none n (drop pos out) ((==_iff _ 0).0 z),
            append-nil taken,
          )
          refl
    | inr nz ↦
        rw (lt→ltb pos (length out) lt, nz)
          (rw (moved out taken pos n) at (
            drain_loop-Drained out (pos + min n (length (drop pos out)))
              (taken ++ take n (drop pos out)) later))
  ]
]
