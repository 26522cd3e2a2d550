-- ===== src/Geo.antt =====
-- crates/donut-geo/src/lib.rs: the country and category databases, as the messages of the file are decoded.
pub mod Lookup
use Prim.Native.Nat.{bit_and}
use hold_the_donut.Prelude.{
  ℕ, ◌+◌, ◌-◌, ◌%◌, Bool, true, false, ◌&&◌, ◌||◌, Option, none, some, List, [], ◌∷◌, ◌++◌, length,
  ltb, leb, ◌==◌, if◌then◌else◌, any, bytes_eq, map, Outcome, ok, err, panic,
}
use hold_the_donut.Core.Address.{IpAddr, v4, v6}
use hold_the_donut.Routing.{number_of, prefix_mask, to_ascii_lowercase, ends_with, contains_str}

-- The messages `Cidr`, `GeoIp`, `Domain` and `GeoSite`.
pub record CidrMessage : Type 0 where
  pub ip : List ℕ
  pub prefix : ℕ

pub record GeoIpMessage : Type 0 where
  pub country_code : List ℕ
  pub cidr : List CidrMessage
  pub reverse_match : Bool

pub record DomainMessage : Type 0 where
  pub kind : ℕ
  pub value : List ℕ

pub record GeoSiteMessage : Type 0 where
  pub country_code : List ℕ
  pub domain : List DomainMessage

-- The crate `prost`: the entries of a list message, if it can be decoded.
pub record Prost : Type 0 where
  pub decode_geo_ip : List ℕ → Option (List GeoIpMessage)
  pub decode_geo_site : List ℕ → Option (List GeoSiteMessage)

pub data GeoError : Type 0 where
  decode_error : GeoError
  cidr_len : ℕ → GeoError

pub record GeoCidr : Type 0 where
  pub net : IpAddr
  pub prefix : ℕ

-- `GeoCidr::from_proto`: `prefix as u8` keeps the last eight bits.
unfoldable pub cidr_from_proto : CidrMessage → Outcome GeoError GeoCidr
cidr_from_proto c =
    if length (c.ip) == 4
    then ok (record { net = v4 (c.ip); prefix = c.prefix % 256 })
    else if length (c.ip) == 16
    then ok (record { net = v6 (c.ip); prefix = c.prefix % 256 })
    else err (cidr_len (length (c.ip)))

-- `masked_eq` of this crate.
unfoldable geo_masked_eq : ℕ → ℕ → ℕ → ℕ → Bool
unfolding prefix_mask
geo_masked_eq net addr prefix bits =
    if prefix == 0
    then true
    else if ltb bits prefix
    then false
    else bit_and net (prefix_mask prefix bits) == bit_and addr (prefix_mask prefix bits)

-- `GeoCidr::contains`
unfoldable pub geo_cidr_contains : GeoCidr → IpAddr → Bool
unfolding geo_masked_eq number_of
geo_cidr_contains c (v4 b) = elim (c.net) [
  | v4 a ↦ geo_masked_eq (number_of a 0) (number_of b 0) (c.prefix) 32
  | v6 a ↦ false
]
geo_cidr_contains c (v6 b) = elim (c.net) [
  | v4 a ↦ false
  | v6 a ↦ geo_masked_eq (number_of a 0) (number_of b 0) (c.prefix) 128
]

-- `to_ascii_uppercase`
unfoldable pub to_ascii_uppercase : List ℕ → List ℕ
to_ascii_uppercase [] = []
to_ascii_uppercase (b ∷ s) = (if leb 97 b && leb b 122 then b - 32 else b) ∷ to_ascii_uppercase s

-- `by_code`: a map from upper-cased codes to their entries.
abbrev pub ByCode : Type 0 → Type 0
ByCode A = List (List ℕ × List A)

module _ {A : Type 0} where
  -- `by_code.entry(code).or_default().extend(xs)`
  unfoldable pub extend_code : List ℕ → List A → ByCode A → ByCode A
  extend_code code xs [] = (code, xs) ∷ []
  extend_code code xs ((k, ys) ∷ m) =
      let rest = extend_code code xs m in
      if bytes_eq k code then (k, ys ++ xs) ∷ m else (k, ys) ∷ rest

  -- `by_code.get(&code.to_ascii_uppercase())`
  unfoldable pub get_code : List ℕ → ByCode A → Option (List A)
  get_code code [] = none
  get_code code ((k, ys) ∷ m) = if bytes_eq k code then some ys else get_code code m

  -- The loop of `from_entries`.
  unfoldable from_entries_loop : ByCode A → ByCode A → ByCode A
  unfolding extend_code to_ascii_uppercase
  from_entries_loop m [] = m
  from_entries_loop m ((code, xs) ∷ entries) =
      from_entries_loop (extend_code (to_ascii_uppercase code) xs m) entries

  -- `from_entries`
  unfoldable from_entries : ByCode A → ByCode A
  unfolding from_entries_loop
  from_entries entries = from_entries_loop [] entries

  -- `is_some_and(|xs| xs.iter().any(p))` of a lookup.
  unfoldable pub any_of_code : (A → Bool) → List ℕ → ByCode A → Bool
  unfolding get_code to_ascii_uppercase
  any_of_code p code m = elim (get_code (to_ascii_uppercase code) m) [
    | none ↦ false
    | some xs ↦ any p xs
  ]

-- `GeoIpDb`
abbrev pub GeoIpDb : Type 0
GeoIpDb = ByCode GeoCidr

-- The inner loop of `GeoIpDb::parse`.
unfoldable pub cidrs_from_proto : List CidrMessage → Outcome GeoError (List GeoCidr)
unfolding cidr_from_proto
cidrs_from_proto [] = ok []
cidrs_from_proto (c ∷ cs) = elim (cidr_from_proto c) [
  | err e ↦ err e
  | panic ↦ panic
  | ok g ↦ elim (cidrs_from_proto cs) [ err e ↦ err e | panic ↦ panic | ok gs ↦ ok (g ∷ gs) ]
]

unfoldable pub parse_ip_loop : GeoIpDb → List GeoIpMessage → Outcome GeoError GeoIpDb
unfolding cidrs_from_proto extend_code to_ascii_uppercase
parse_ip_loop m [] = ok m
parse_ip_loop m (e ∷ es) =
    let again = λ (cs : List GeoCidr).
      parse_ip_loop (extend_code (to_ascii_uppercase (e.country_code)) cs m) es in
    elim (cidrs_from_proto (e.cidr)) [ err why ↦ err why | panic ↦ panic | ok cs ↦ again cs ]

-- `GeoIpDb::parse`
unfoldable pub parse_geo_ip : Prost → List ℕ → Outcome GeoError GeoIpDb
unfolding parse_ip_loop
parse_geo_ip prost bytes = elim (prost.decode_geo_ip bytes) [
  | none ↦ err decode_error
  | some es ↦ parse_ip_loop [] es
]

-- `GeoIpDb::contains`
unfoldable pub geo_ip_contains : GeoIpDb → List ℕ → IpAddr → Bool
unfolding any_of_code geo_cidr_contains
geo_ip_contains db code addr = any_of_code (λ c. geo_cidr_contains c addr) code db

pub data DomainRule : Type 0 where
  full : List ℕ → DomainRule
  suffix : List ℕ → DomainRule
  keyword : List ℕ → DomainRule
  regex : List ℕ → DomainRule

-- `DomainRule::from_proto`: an unknown kind is taken as `Plain`.
unfoldable pub domain_from_proto : DomainMessage → DomainRule
unfolding to_ascii_lowercase
domain_from_proto d =
    let value = to_ascii_lowercase (d.value) in
    if d.kind == 3
    then full value
    else if d.kind == 2
    then suffix value
    else if d.kind == 1
    then regex value
    else keyword value

-- `DomainRule::matches`
unfoldable pub rule_matches_host : DomainRule → List ℕ → Bool
unfolding to_ascii_lowercase ends_with contains_str
rule_matches_host (full v) host = bytes_eq (to_ascii_lowercase host) v
rule_matches_host (suffix v) host =
    bytes_eq (to_ascii_lowercase host) v || ends_with (to_ascii_lowercase host) (b'.' ∷ v)
rule_matches_host (keyword v) host = contains_str (to_ascii_lowercase host) v
rule_matches_host (regex v) host = false

-- `GeoSiteDb`
abbrev pub GeoSiteDb : Type 0
GeoSiteDb = ByCode DomainRule

unfoldable pub parse_site_loop : GeoSiteDb → List GeoSiteMessage → GeoSiteDb
unfolding domain_from_proto extend_code to_ascii_uppercase
parse_site_loop m [] = m
parse_site_loop m (e ∷ es) =
    parse_site_loop
      (extend_code (to_ascii_uppercase (e.country_code)) (map domain_from_proto (e.domain)) m) es

-- `GeoSiteDb::parse`
unfoldable pub parse_geo_site : Prost → List ℕ → Outcome GeoError GeoSiteDb
unfolding parse_site_loop
parse_geo_site prost bytes = elim (prost.decode_geo_site bytes) [
  | none ↦ err decode_error
  | some es ↦ ok (parse_site_loop [] es)
]

-- `GeoSiteDb::matches`
unfoldable pub geo_site_matches : GeoSiteDb → List ℕ → List ℕ → Bool
unfolding any_of_code rule_matches_host
geo_site_matches db code host = any_of_code (λ r. rule_matches_host r host) code db
