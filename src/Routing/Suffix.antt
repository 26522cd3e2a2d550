-- ===== src/Routing/Suffix.antt =====
-- What `DomainMatch::Suffix` and the port ranges of the routing table match.
use hold_the_donut.Prelude.{
  ℕ, ◌-◌, ◌≤◌, ◌≡◌, ◌⊎◌, ◌↔◌, inl, inr, refl, sym, ap, ◌∙◌, arith, Bool, true, false, ◌&&◌, ◌||◌,
  List, ◌∷◌, ◌++◌, length, take, drop, le→leb, bytes_eq_refl, bytes_eq→eq, take-append-drop,
  drop-append, length-append,
}
use hold_the_donut.Routing.{suffix, ends_with, to_ascii_lowercase, trim_dots, domain_matches}

and_true : (a b : Bool) → (a && b) ≡ true → (a ≡ true) × (b ≡ true)
and_true true true h = (refl, refl)
and_true true false h = cc
and_true false b h = cc

or_true : (a b : Bool) → (a || b) ≡ true → (a ≡ true) ⊎ (b ≡ true)
or_true true b h = inl refl
or_true false b h = inr h

ends_with-append : (front p : List ℕ) → ends_with (front ++ p) p ≡ true
unfolding ends_with
ends_with-append front p =
    let n : length (front ++ p) - length p ≡ length front = omega (arith, length-append front p) in
    let fits : length p ≤ length (front ++ p) = omega (arith, length-append front p) in
    rw (le→leb _ _ fits, n, drop-append front p, bytes_eq_refl p) refl

ends_with→front : (s p : List ℕ) → ends_with s p ≡ true → (front : List ℕ) × (s ≡ front ++ p)
unfolding ends_with
ends_with→front s p h =
    let (fits, same) = and_true _ _ h in
    let n = length s - length p in
    (take n s, sym (take-append-drop n s) ∙ ap (λ t. take n s ++ t) (bytes_eq→eq (drop n s) p same))

-- A suffix rule matches a host exactly if, in lower case and with the rule's leading dots dropped, the host is
-- the rule's domain or ends with a dot and that domain: `example.com` matches its subdomains and not
-- `notexample.com`.
pub domain_matches-suffix :
    (s host : List ℕ)
    → (domain_matches (suffix s) host ≡ true) ↔ (
        (to_ascii_lowercase host ≡ to_ascii_lowercase (trim_dots s))
        ⊎ ((front : List ℕ) × (to_ascii_lowercase host
              ≡ front ++ (46 ∷ to_ascii_lowercase (trim_dots s)))))
unfolding domain_matches
domain_matches-suffix s host = (
  λ h. elim (or_true _ _ h) [
    | inl same ↦ inl (bytes_eq→eq _ _ same)
    | inr ends ↦ inr (ends_with→front _ _ ends)
  ],
  λ h. elim h [
    | inl same ↦ rw (same, bytes_eq_refl (to_ascii_lowercase (trim_dots s))) refl
    | inr (front, same) ↦
        rw (same, ends_with-append front (46 ∷ to_ascii_lowercase (trim_dots s))) (ground arith)
  ],
)
