-- ===== src/Routing/Masks.antt =====
-- What the networks of the routing table contain.
use Prim.Native.Nat.{bit_and}
use native.Mathlib.Nat.{div-lt_iff_lt-mul}
use hold_the_donut.Prelude.{
  ℕ, zero, suc, ◌*◌, ◌-◌, ◌/◌, ◌^◌, ◌≤◌, ◌<◌, ◌≡◌, refl, ap, sym, ◌∙◌, ◌⊎◌, ◌↔◌, inl, inr, Bool,
  true, false, ◌&&◌, List, lt→ltb, le→ltb, ne→==, ◌≢◌, ◌==◌, ==_iff, lt_or_le, arith,
}
use hold_the_donut.Prelude.Bits.{holds_below, holds_below_sound}
use hold_the_donut.Prelude.Masks.{masked_iff, pow_positive}
use hold_the_donut.Core.Address.{IpAddr, v4, v6}
use hold_the_donut.Routing.{Cidr, prefix_mask, masked_eq, number_of, cidr_contains}

and_both : (a b : Bool) → (a && b) ≡ true → (a ≡ true) × (b ≡ true)
and_both true b h = (refl, h)
and_both false b h = cc

-- The mask of each prefix of a word of 32 or 128 bits, by evaluation.
abbrev mask_test : ℕ → ℕ → Bool
mask_test bits i =
    prefix_mask (suc i) bits == (2 ^ suc i - 1) * 2 ^ (bits - suc i)
    && 2 ^ bits == 2 ^ suc i * 2 ^ (bits - suc i)

table_32 : holds_below (mask_test 32) 32 ≡ true
unfolding holds_below prefix_mask
table_32 = refl

table_128 : holds_below (mask_test 128) 128 ≡ true
unfolding holds_below prefix_mask
table_128 = refl

abbrev Width : ℕ → Type 0
Width bits = (bits ≡ 32) ⊎ (bits ≡ 128)

tested : (bits i : ℕ) → Width bits → i < bits → mask_test bits i ≡ true
tested bits i (inl e) lt = rw e (holds_below_sound (mask_test 32) 32 i table_32 (omega (arith, e)))
tested bits i (inr e) lt =
    rw e (holds_below_sound (mask_test 128) 128 i table_128 (omega (arith, e)))

mask_lem :
    (bits i : ℕ)
    → Width bits
    → i < bits
    → (prefix_mask (suc i) bits ≡ (2 ^ suc i - 1) * 2 ^ (bits - suc i))
      × (2 ^ bits ≡ 2 ^ suc i * 2 ^ (bits - suc i))
mask_lem bits i w lt =
    let (m, p) = and_both _ _ (tested bits i w lt) in ((==_iff _ _).0 m, (==_iff _ _).0 p)

none_left : (bits n : ℕ) → n < 2 ^ bits → n / 2 ^ (bits - 0) ≡ 0
none_left bits n lt = omega (arith, below, whole)
  where
    below : n / 2 ^ bits < 1
    below = (div-lt_iff_lt-mul (pow_positive bits)).1 (omega arith)

    less_zero : (b : ℕ) → b - 0 ≡ b
    less_zero b = omega arith

    whole : n / 2 ^ (bits - 0) ≡ n / 2 ^ bits
    whole = ap (λ (k : ℕ). n / 2 ^ k) (less_zero bits)

too_long : (bits net addr i : ℕ) → bits ≤ i → masked_eq net addr (suc i) bits ≡ false
unfolding masked_eq
too_long bits net addr i ge =
    rw (ne→== (suc i) 0 (λ e. absurd (omega (arith, e))), lt→ltb bits (suc i) (omega arith)) refl

in_range :
    (bits net addr i : ℕ)
    → i < bits
    → masked_eq net addr (suc i) bits
      ≡ (bit_and net (prefix_mask (suc i) bits) == bit_and addr (prefix_mask (suc i) bits))
unfolding masked_eq
in_range bits net addr i lt =
    rw (ne→== (suc i) 0 (λ e. absurd (omega (arith, e))), le→ltb bits (suc i) (omega arith)) refl

alike :
    (bits : ℕ)
    → Width bits
    → (net addr i : ℕ) → i < bits
    → net < 2 ^ bits
    → addr < 2 ^ bits
    → (bit_and net (prefix_mask (suc i) bits) ≡ bit_and addr (prefix_mask (suc i) bits))
      ↔ (net / 2 ^ (bits - suc i) ≡ addr / 2 ^ (bits - suc i))
alike bits w net addr i lt hn ha =
    let (mask, size) = mask_lem bits i w lt in
    rw mask (masked_iff (suc i) (bits - suc i) net addr (rw (sym size) hn) (rw (sym size) ha))

-- The masks compare the leading bits.
masked_eq-leading :
    (bits : ℕ)
    → Width bits
    → (net addr prefix : ℕ) → net < 2 ^ bits
    → addr < 2 ^ bits
    → (masked_eq net addr prefix bits ≡ true)
      ↔ ((prefix ≤ bits) × (net / 2 ^ (bits - prefix) ≡ addr / 2 ^ (bits - prefix)))
unfolding masked_eq
masked_eq-leading bits w net addr zero hn ha =
    ((λ e. (omega arith, none_left bits net hn ∙ sym (none_left bits addr ha))), (λ e. refl))
masked_eq-leading bits w net addr (suc i) hn ha = elim (lt_or_le i bits) [
  | inr ge ↦ (
    (λ e. absurd (true-ne (sym (too_long bits net addr i ge) ∙ e))),
    (λ e. absurd (omega (arith, e.0, ge))),
  )
  | inl lt ↦ (
    (λ e. (
      omega arith,
      (alike bits w net addr i lt hn ha).0 ((==_iff _ _).0 (sym (in_range bits net addr i lt) ∙ e)),
    )),
    (λ e.
        in_range bits net addr i lt ∙ (==_iff _ _).1 ((alike bits w net addr i lt hn ha).1 (e.1))),
  )
]
  where
    true-ne : false ≢ true
    true-ne e = cc

-- An address as a number.
abbrev IsV4 : List ℕ → Type 0
IsV4 b = number_of b 0 < 2 ^ 32

abbrev IsV6 : List ℕ → Type 0
IsV6 b = number_of b 0 < 2 ^ 128

-- Same family, a prefix that it can have, and the same leading bits.
pub data InNet : Cidr → IpAddr → Type 0 where
  in_v4 :
      {a b : List ℕ} {prefix : ℕ}
      → prefix ≤ 32
      → number_of a 0 / 2 ^ (32 - prefix) ≡ number_of b 0 / 2 ^ (32 - prefix)
      → InNet (record { net = v4 a; prefix = prefix }) (v4 b)
  in_v6 :
      {a b : List ℕ} {prefix : ℕ}
      → prefix ≤ 128
      → number_of a 0 / 2 ^ (128 - prefix) ≡ number_of b 0 / 2 ^ (128 - prefix)
      → InNet (record { net = v6 a; prefix = prefix }) (v6 b)

abbrev pub IsAddress : IpAddr → Type 0
IsAddress (v4 b) = IsV4 b
IsAddress (v6 b) = IsV6 b

by_family :
    (net a : IpAddr) (prefix : ℕ)
    → IsAddress net
    → IsAddress a
    → (cidr_contains (record { net = net; prefix = prefix }) a ≡ true)
      ↔ InNet (record { net = net; prefix = prefix }) a
unfolding cidr_contains
by_family (v4 x) (v4 y) prefix hx hy =
    let both = masked_eq-leading 32 (inl refl) (number_of x 0) (number_of y 0) prefix hx hy in
    ((λ e. in_v4 ((both.0 e).0) ((both.0 e).1)), (λ i. both.1 (inside i)))
  where
    inside :
        InNet (record { net = v4 x; prefix = prefix }) (v4 y)
        → (prefix ≤ 32) × (number_of x 0 / 2 ^ (32 - prefix) ≡ number_of y 0 / 2 ^ (32 - prefix))
    inside (in_v4 le e) = (le, e)
by_family (v6 x) (v6 y) prefix hx hy =
    let both = masked_eq-leading 128 (inr refl) (number_of x 0) (number_of y 0) prefix hx hy in
    ((λ e. in_v6 ((both.0 e).0) ((both.0 e).1)), (λ i. both.1 (inside i)))
  where
    inside :
        InNet (record { net = v6 x; prefix = prefix }) (v6 y)
        → (prefix ≤ 128) × (number_of x 0 / 2 ^ (128 - prefix) ≡ number_of y 0 / 2 ^ (128 - prefix))
    inside (in_v6 le e) = (le, e)
by_family (v4 x) (v6 y) prefix hx hy = ((λ e. absurd (false-ne e)), (λ i. elim i [ ]))
  where
    false-ne : false ≢ true
    false-ne e = cc
by_family (v6 x) (v4 y) prefix hx hy = ((λ e. absurd (false-ne e)), (λ i. elim i [ ]))
  where
    false-ne : false ≢ true
    false-ne e = cc

-- A network contains an address exactly if both are of one family, the prefix is one that the family has, and
-- the leading bits that it counts are the same.
pub cidr_contains-InNet :
    (c : Cidr) (a : IpAddr)
    → IsAddress (c.net)
    → IsAddress a
    → (cidr_contains c a ≡ true) ↔ InNet c a
cidr_contains-InNet c a hc ha = by_family (c.net) a (c.prefix) hc ha
