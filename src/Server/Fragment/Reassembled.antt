-- ===== src/Server/Fragment/Reassembled.antt =====
-- The cut record as its receiver sees it.
use hold_the_donut.Prelude.{
  ℕ, zero, suc, ◌+◌, ◌-◌, ◌*◌, ◌/◌, ◌%◌, ◌≤◌, ◌<◌, ◌≡◌, refl, inl, inr, ◌&&◌, Option, none, some,
  List, [], ◌∷◌, ◌++◌, length, take, drop, get_or, take-append, drop-append, take-append-drop,
  length-append, length-take, length-drop, Bool-cases, leb, ◌==◌, ==_refl, lt_or_le, lt→ltb, le→ltb,
  le→leb, lt→leb, ne→==, if◌then◌else◌, arith,
}
use native.Mathlib.Nat.{mod-lt}
use hold_the_donut.Server.Fragment.{
  FragmentParams, pick, clamp1, record_header, fragment_loop, is_client_hello,
  fragment_clienthello_to_vec,
}

-- A payload and the records that carry it: each is of the handshake type and of the given version, and has a
-- byte at least and `max` at most.
pub data Cut (v0 v1 max : ℕ) : List ℕ → List ℕ → Type 0 where
  nothing : Cut v0 v1 max [] []
  cut_off :
      {rest out : List ℕ} (slice : List ℕ)
      → 1 ≤ length slice
      → length slice ≤ max
      → Cut v0 v1 max rest out
      → Cut v0 v1 max (slice ++ rest) (record_header v0 v1 slice ++ (slice ++ out))

-- The range of lengths can be drawn from.
abbrev pub CanPick : ℕ × ℕ → Type 0
CanPick (lo, hi) = (lo ≤ 4294967294) × (hi ≤ 4294967294)

-- The greater end of the range, and the longest payload of a record, which is 1 at least.
abbrev pub upper : ℕ × ℕ → ℕ
upper (lo, hi) = if leb hi lo then lo else hi

abbrev pub largest : ℕ × ℕ → ℕ
largest range = upper range - 1 + 1

pub pick-CanPick :
    (range : ℕ × ℕ) (r : ℕ)
    → CanPick range
    → (n : ℕ) × (pick range r ≡ some n) × (range.0 ≤ n) × (n ≤ upper range)
unfolding pick
pick-CanPick (lo, hi) r (a, b) = elim (lt_or_le lo hi) [
  | inr le ↦ (lo, rw (le→leb hi lo le) refl, omega arith, rw (le→leb hi lo le) (omega arith))
  | inl lt ↦ (
    lo + r % (hi - lo + 1),
    rw (lt→leb hi lo lt, no_wrap lt, ne→== (hi - lo + 1) 0 (λ e. absurd (omega (arith, e)))) refl,
    omega arith,
    rw (lt→leb hi lo lt) (in_range lt),
  )
]
  where
    no_wrap : lo < hi → (hi - lo + 1) % 4294967296 ≡ hi - lo + 1
    no_wrap lt = omega arith

    positive : (lo hi : ℕ) → 0 < hi - lo + 1
    positive lo hi = omega arith

    in_range : lo < hi → lo + r % (hi - lo + 1) ≤ hi
    in_range lt = omega (arith, mod-lt r (positive lo hi))

pub clamp1-bounds :
    (n m top : ℕ)
    → 1 ≤ m
    → n ≤ top - 1 + 1
    → (1 ≤ clamp1 n m) × (clamp1 n m ≤ m) × (clamp1 n m ≤ top - 1 + 1)
unfolding clamp1
clamp1-bounds n m top le small = elim (lt_or_le n 1) [
  | inl lt ↦ rw (lt→ltb n 1 lt) (omega arith, le, omega arith)
  | inr ge ↦ elim (lt_or_le m n) [
    | inl over ↦ rw (le→ltb n 1 ge, lt→ltb m n over) (le, omega arith, omega arith)
    | inr fits ↦ rw (le→ltb n 1 ge, le→ltb m n fits) (ge, fits, small)
  ]
]

fragment_loop_step :
    (p : FragmentParams) (random : ℕ → ℕ) (i fuel v0 v1 x n : ℕ) (xs out : List ℕ)
    → pick (p.len) (random i) ≡ some n
    → fragment_loop p random (suc i) fuel v0 v1 (drop (clamp1 n (length (x ∷ xs))) (x ∷ xs))
      ≡ some out
    → let slice = take (clamp1 n (length (x ∷ xs))) (x ∷ xs) in
      fragment_loop p random i (suc fuel) v0 v1 (x ∷ xs)
      ≡ some (record_header v0 v1 slice ++ (slice ++ out))
unfolding fragment_loop
fragment_loop_step p random i fuel v0 v1 x n xs out e e' = rw (fragment_loop, e, e') refl

fragment_loop-Cut :
    (p : FragmentParams) (random : ℕ → ℕ) (i fuel v0 v1 : ℕ) (rest : List ℕ)
    → CanPick (p.len)
    → length rest ≤ fuel
    → (out : List ℕ) × (fragment_loop p random i fuel v0 v1 rest ≡ some out)
      × Cut v0 v1 (largest (p.len)) rest out
unfolding fragment_loop
fragment_loop-Cut p random i zero v0 v1 [] can le = ([], refl, nothing)
fragment_loop-Cut p random i zero v0 v1 (x ∷ xs) can le = absurd (omega arith)
fragment_loop-Cut p random i (suc fuel) v0 v1 [] can le = ([], refl, nothing)
fragment_loop-Cut p random i (suc fuel) v0 v1 (x ∷ xs) can le =
    let (n, e, low, small) = pick-CanPick (p.len) (random i) can in
    let (one, fits, top) =
      clamp1-bounds n (length (x ∷ xs)) (upper (p.len)) (omega arith) (omega (arith, small)) in
    let chunk = clamp1 n (length (x ∷ xs)) in
    let (out, e', cut) =
      fragment_loop-Cut p random (suc i) fuel v0 v1 (drop chunk (x ∷ xs)) can (shorter chunk one) in
    let slice = take chunk (x ∷ xs) in
    (
      record_header v0 v1 slice ++ (slice ++ out),
      fragment_loop_step p random i fuel v0 v1 x n xs out e e',
      (rw (take-append-drop chunk (x ∷ xs)) at
          (cut_off slice (long chunk one fits) (short chunk top) cut)),
    )
  where
    shorter : (chunk : ℕ) → 1 ≤ chunk → length (drop chunk (x ∷ xs)) ≤ fuel
    shorter chunk one = omega (arith, length-drop chunk (x ∷ xs))

    long : (chunk : ℕ) → 1 ≤ chunk → chunk ≤ length (x ∷ xs) → 1 ≤ length (take chunk (x ∷ xs))
    long chunk one fits = omega (arith, length-take chunk (x ∷ xs))

    short :
        (chunk : ℕ) → chunk ≤ upper (p.len) - 1 + 1 → length (take chunk (x ∷ xs)) ≤ largest (p.len)
    short chunk top = omega (arith, length-take chunk (x ∷ xs))

-- A receiver: the payloads of handshake records of one version, joined.
unfoldable pub reassemble : ℕ → ℕ → ℕ → List ℕ → Option (List ℕ)
reassemble fuel v0 v1 [] = some []
reassemble (suc fuel) v0 v1 (t ∷ a ∷ b ∷ h ∷ l ∷ rest) =
    let later = reassemble fuel v0 v1 (drop (h * 256 + l) rest) in
    if (t == 22 && (a == v0 && b == v1)) && leb (h * 256 + l) (length rest)
    then elim later [ none ↦ none | some payload ↦ some (take (h * 256 + l) rest ++ payload) ]
    else none
reassemble fuel v0 v1 bytes = none

reassemble_record :
    (fuel v0 v1 : ℕ) (slice out payload : List ℕ)
    → length slice ≤ 65535
    → reassemble fuel v0 v1 out ≡ some payload
    → reassemble (suc fuel) v0 v1 (record_header v0 v1 slice ++ (slice ++ out))
      ≡ some (slice ++ payload)
unfolding reassemble record_header
reassemble_record fuel v0 v1 slice out payload le e =
    rw
      (
        ==_refl v0,
        ==_refl v1,
        word (length slice) le,
        drop-append slice out,
        le→leb (length slice) (length (slice ++ out)) (omega (arith, length-append slice out)),
        e,
        word (length slice) le,
        take-append slice out,
      )
      refl
  where
    word : (n : ℕ) → n ≤ 65535 → n / 256 % 256 * 256 + n % 256 ≡ n
    word n le = omega arith

reassemble_nil : (fuel v0 v1 : ℕ) → reassemble fuel v0 v1 [] ≡ some []
unfolding reassemble
reassemble_nil fuel v0 v1 = refl

record_long :
    (fuel v0 v1 : ℕ) (slice out : List ℕ)
    → length (record_header v0 v1 (slice) ++ (slice ++ out)) ≤ suc fuel
    → length out ≤ fuel
unfolding record_header
record_long fuel v0 v1 slice out le = omega (arith, length-append slice out)

no_fuel :
    (v0 v1 : ℕ) (slice out : List ℕ)
    → length (record_header v0 v1 (slice) ++ (slice ++ out)) ≤ 0
    → 1 ≤ 0
unfolding record_header
no_fuel v0 v1 slice out le = omega arith

pub Cut-reassemble :
    (v0 v1 max fuel : ℕ) {payload out : List ℕ}
    → Cut v0 v1 max payload out
    → length payload ≤ 65535
    → length out ≤ fuel
    → reassemble fuel v0 v1 out ≡ some payload
Cut-reassemble v0 v1 max fuel nothing le enough = reassemble_nil fuel v0 v1
Cut-reassemble v0 v1 max zero (cut_off {rest} {out} slice one top c) le enough =
    absurd (omega (arith, no_fuel v0 v1 slice out enough))
Cut-reassemble v0 v1 max (suc fuel) (cut_off {rest} {out} slice one top c) le enough =
    reassemble_record fuel v0 v1 slice out rest (omega (arith, length-append slice rest)) (
      Cut-reassemble v0 v1 max fuel c (omega (arith, length-append slice rest))
        (record_long fuel v0 v1 slice out enough))

-- A ClientHello whose record is at most as long as its header can say is sent as records of the same type and
-- version, each with a byte of the payload at least and at most as many as the range of lengths allows, which
-- a receiver joins to the very payload. Any other record is sent as it is. Both ends of the range are below
-- the largest u32.
pub fragment_clienthello_to_vec-reassemble :
    (p : FragmentParams) (random : ℕ → ℕ) (r : List ℕ)
    → CanPick (p.len)
    → length (drop 5 r) ≤ 65535
    → (out : List ℕ) × (fragment_clienthello_to_vec r p random ≡ some out)
      × (if is_client_hello r
          then Cut (get_or r 1 0) (get_or r 2 0) (largest (p.len)) (drop 5 r) out
            × (reassemble (length out) (get_or r 1 0) (get_or r 2 0) out ≡ some (drop 5 r))
          else (out ≡ r))
unfolding fragment_clienthello_to_vec
fragment_clienthello_to_vec-reassemble p random r can le = elim (Bool-cases (is_client_hello r)) [
  | inr f ↦ (r, rw f refl, rw f refl)
  | inl t ↦
      let (out, e, cut) =
        fragment_loop-Cut p random 0 (length (drop 5 r)) (get_or r 1 0) (get_or r 2 0) (drop 5 r)
          can (omega arith) in
      (out, rw t e, rw t (cut, Cut-reassemble _ _ _ (length out) cut le (omega arith)))
]
