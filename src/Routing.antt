-- ===== src/Routing.antt =====
-- crates/donut-routing/src/lib.rs: the routing table. An IP network is an address as a number; the text of
-- the configuration is parsed by the standard library and is not modelled.
pub mod FirstMatch
pub mod Suffix
pub mod Masks
pub mod Build
use Prim.Native.Nat.{bit_and}
use hold_the_donut.Prelude.{
  ℕ, ◌+◌, ◌*◌, ◌-◌, ◌/◌, ◌%◌, ◌^◌, Bool, true, false, not, ◌&&◌, ◌||◌, List, [], ◌∷◌, ◌++◌, length,
  take, drop, ltb, leb, ◌==◌, if◌then◌else◌, any, bytes_eq, Option, none, some, Outcome, ok, err,
}
use hold_the_donut.Core.Address.{IpAddr, v4, v6, Address, ip, domain, Endpoint}

-- `to_ascii_lowercase`
abbrev lower_byte : ℕ → ℕ
lower_byte b = if leb 65 b && leb b 90 then b + 32 else b

unfoldable pub to_ascii_lowercase : List ℕ → List ℕ
to_ascii_lowercase [] = []
to_ascii_lowercase (b ∷ s) = lower_byte b ∷ to_ascii_lowercase s

-- `trim_start_matches('.')`
unfoldable pub trim_dots : List ℕ → List ℕ
trim_dots [] = []
trim_dots (b ∷ s) = let rest = trim_dots s in if b == 46 then rest else b ∷ s

unfoldable starts_with : List ℕ → List ℕ → Bool
starts_with s [] = true
starts_with [] (y ∷ p) = false
starts_with (x ∷ s) (y ∷ p) = x == y && starts_with s p

unfoldable pub ends_with : List ℕ → List ℕ → Bool
ends_with s p = leb (length p) (length s) && bytes_eq (drop (length s - length p) s) p

-- `str::contains`
unfoldable pub contains_str : List ℕ → List ℕ → Bool
unfolding starts_with
contains_str [] p = starts_with [] p
contains_str (x ∷ s) p = starts_with (x ∷ s) p || contains_str s p

pub data DomainMatch : Type 0 where
  full : List ℕ → DomainMatch
  suffix : List ℕ → DomainMatch
  keyword : List ℕ → DomainMatch

-- `DomainMatch::matches`
unfoldable pub domain_matches : DomainMatch → List ℕ → Bool
unfolding to_ascii_lowercase trim_dots ends_with contains_str
domain_matches (full d) host = bytes_eq (to_ascii_lowercase host) (to_ascii_lowercase d)
domain_matches (suffix s) host =
    let d = to_ascii_lowercase (trim_dots s) in
    let h = to_ascii_lowercase host in bytes_eq h d || ends_with h (46 ∷ d)
domain_matches (keyword k) host = contains_str (to_ascii_lowercase host) (to_ascii_lowercase k)

pub record Cidr : Type 0 where
  pub net : IpAddr
  pub prefix : ℕ

-- The octets as a number, big end first.
unfoldable pub number_of : List ℕ → ℕ → ℕ
number_of [] n = n
number_of (b ∷ s) n = number_of s (n * 256 + b)

-- `(u128::MAX << (128 - prefix)) >> (128 - bits)`
unfoldable pub prefix_mask : ℕ → ℕ → ℕ
prefix_mask prefix bits = (2 ^ 128 - 1) * 2 ^ (128 - prefix) % 2 ^ 128 / 2 ^ (128 - bits)

-- `masked_eq`
unfoldable pub masked_eq : ℕ → ℕ → ℕ → ℕ → Bool
unfolding prefix_mask
masked_eq net addr prefix bits =
    if prefix == 0
    then true
    else if ltb bits prefix
    then false
    else bit_and net (prefix_mask prefix bits) == bit_and addr (prefix_mask prefix bits)

-- `Cidr::contains`
unfoldable pub cidr_contains : Cidr → IpAddr → Bool
unfolding masked_eq number_of
cidr_contains c (v4 b) = elim c.net [
  | v4 a ↦ masked_eq (number_of a 0) (number_of b 0) c.prefix 32
  | v6 a ↦ false
]
cidr_contains c (v6 b) = elim c.net [
  | v4 a ↦ false
  | v6 a ↦ masked_eq (number_of a 0) (number_of b 0) c.prefix 128
]

-- A database is what it answers.
pub data Condition : Type 0 where
  of_domain : DomainMatch → Condition
  of_cidr : Cidr → Condition
  ports : ℕ → ℕ → Condition
  geo_ip : (List ℕ → IpAddr → Bool) → List ℕ → Condition
  geo_site : (List ℕ → List ℕ → Bool) → List ℕ → Condition

-- `Condition::matches`
unfoldable pub condition_matches : Condition → Endpoint → Bool
unfolding domain_matches cidr_contains
condition_matches (of_domain m) ep = elim ep.address [
  | domain d ↦ domain_matches m d
  | ip a ↦ false
]
condition_matches (of_cidr c) ep = elim ep.address [ domain d ↦ false | ip a ↦ cidr_contains c a ]
condition_matches (ports lo hi) ep = leb lo ep.port && leb ep.port hi
condition_matches (geo_ip db code) ep = elim ep.address [ domain d ↦ false | ip a ↦ db code a ]
condition_matches (geo_site db code) ep = elim ep.address [ domain d ↦ db code d | ip a ↦ false ]

pub record Rule : Type 0 where
  pub conditions : List Condition
  pub outbound : List ℕ

-- `Rule::matches`
unfoldable pub rule_matches : Rule → Endpoint → Bool
unfolding condition_matches
rule_matches rule ep = any (λ c. condition_matches c ep) rule.conditions

pub record Router : Type 0 where
  pub rules : List Rule
  pub default_outbound : List ℕ

-- `Router::with_rule`
unfoldable pub with_rule : Router → Rule → Router
with_rule router rule = record router { rules = router.rules ++ (rule ∷ []) }

unfoldable pub route_loop : List Rule → List ℕ → Endpoint → List ℕ
unfolding rule_matches
route_loop [] fallback ep = fallback
route_loop (rule ∷ rules) fallback ep =
    let rest = route_loop rules fallback ep in if rule_matches rule ep then rule.outbound else rest

-- `Router::route`
unfoldable pub route : Router → Endpoint → List ℕ
unfolding route_loop
route router ep = route_loop router.rules router.default_outbound ep
