-- ===== src/Routing/Build.antt =====
-- `RoutingConfig::build_with_geo` of crates/donut-routing/src/lib.rs: the rules of the configuration, compiled.
-- Texts are ASCII. How the standard library reads an IP address is an argument.
pub mod Meaning
use hold_the_donut.Prelude.{
  ℕ, ◌+◌, ◌-◌, ◌*◌, Bool, true, false, ◌&&◌, Option, none, some, List, [], ◌∷◌, ◌++◌, ltb, leb,
  ◌==◌, if◌then◌else◌, Outcome, ok, codes, err, panic, ◌>>=◌,
}
use hold_the_donut.Core.Address.{IpAddr, v4, v6}
use hold_the_donut.Carrier.Extract.{split_once, trim, is_ascii_digit}
use hold_the_donut.Geo.{GeoIpDb, GeoSiteDb, geo_ip_contains, geo_site_matches}
use hold_the_donut.Routing.{
  DomainMatch, Cidr, Condition, of_domain, of_cidr, ports, geo_ip, geo_site, Rule, Router,
  with_rule,
}

pub data RoutingError : Type 0 where
  bad_cidr : List ℕ → RoutingError
  bad_port : List ℕ → RoutingError
  missing_geo : List ℕ → RoutingError

pub record RuleConfig : Type 0 where
  pub domain_rules : List DomainMatch
  pub ip : List (List ℕ)
  pub port : List (List ℕ)
  pub geoip : List (List ℕ)
  pub geosite : List (List ℕ)
  pub outbound : List ℕ

pub record RoutingConfig : Type 0 where
  pub default_tag : List ℕ
  pub rules : List RuleConfig

-- `parse` of an unsigned integer below a limit: an optional plus sign, then digits.
unfoldable pub digits_below : ℕ → ℕ → List ℕ → Option ℕ
unfolding is_ascii_digit
digits_below limit acc [] = some acc
digits_below limit acc (c ∷ s) =
    let rest = digits_below limit (acc * 10 + (c - 48)) s in
    if is_ascii_digit c && ltb (acc * 10 + (c - 48)) limit then rest else none

unfoldable pub parse_below : ℕ → List ℕ → Option ℕ
unfolding digits_below
parse_below limit [] = none
parse_below limit (c ∷ []) = digits_below limit 0 (c ∷ [])
parse_below limit (c ∷ d ∷ s) =
    if c == b'+' then digits_below limit 0 (d ∷ s) else digits_below limit 0 (c ∷ d ∷ s)

unfoldable pub max_prefix : IpAddr → ℕ
max_prefix (v4 b) = 32
max_prefix (v6 b) = 128

-- `Cidr::from_str`
unfoldable pub cidr_from_str : (List ℕ → Option IpAddr) → List ℕ → Outcome RoutingError Cidr
unfolding split_once parse_below max_prefix
cidr_from_str parse_ip s = elim (split_once b'/' s) [
  | none ↦ err (bad_cidr s)
  | some (net_str, prefix_str) ↦ elim (parse_ip net_str) [
    | none ↦ err (bad_cidr s)
    | some net ↦ elim (parse_below 256 prefix_str) [
      | none ↦ err (bad_cidr s)
      | some prefix ↦
          if ltb (max_prefix net) prefix
          then err (bad_cidr s)
          else ok (record { net = net; prefix = prefix })
    ]
  ]
]

-- `parse_port_spec`
unfoldable pub port_range : List ℕ → Option ℕ → Option ℕ → Outcome RoutingError (ℕ × ℕ)
port_range s none hi = err (bad_port s)
port_range s (some lo) none = err (bad_port s)
port_range s (some lo) (some hi) = if ltb hi lo then err (bad_port s) else ok (lo, hi)

unfoldable pub parse_port_spec : List ℕ → Outcome RoutingError (ℕ × ℕ)
unfolding trim split_once parse_below port_range
parse_port_spec text =
    let s = trim text in
    elim (split_once b'-' s) [
      | some (a, b) ↦ port_range s (parse_below 65536 (trim a)) (parse_below 65536 (trim b))
      | none ↦ elim (parse_below 65536 s) [ none ↦ err (bad_port s) | some p ↦ ok (p, p) ]
    ]

-- `Rule::domain`, `cidr`, `ports`, `geoip` and `geosite` push one condition each; each loop of
-- `build_with_geo` pushes those of one list, up to the first error.
unfoldable pub push_condition : Rule → Condition → Rule
push_condition rule c = record {
  conditions = rule.conditions ++ (c ∷ []);
  outbound = rule.outbound;
}

unfoldable pub add_all :
    {A : Type 0} → (A → Outcome RoutingError Condition) → Rule → List A → Outcome RoutingError Rule
unfolding push_condition
add_all f rule [] = ok rule
add_all f rule (x ∷ xs) =
    let again = λ (c : Condition). add_all f (push_condition rule c) xs in
    elim (f x) [ err e ↦ err e | panic ↦ panic | ok c ↦ again c ]

unfoldable pub domain_condition : DomainMatch → Outcome RoutingError Condition
domain_condition d = ok (of_domain d)

unfoldable pub cidr_condition : (List ℕ → Option IpAddr) → List ℕ → Outcome RoutingError Condition
unfolding cidr_from_str
cidr_condition parse_ip s = cidr_from_str parse_ip s >>= λ c. ok (of_cidr c)

unfoldable pub port_condition : List ℕ → Outcome RoutingError Condition
unfolding parse_port_spec
port_condition s = parse_port_spec s >>= λ r. ok (ports (r.0) (r.1))

unfoldable pub geoip_condition : Option GeoIpDb → List ℕ → Outcome RoutingError Condition
unfolding geo_ip_contains
geoip_condition none code = err (missing_geo (codes "geoip:" ++ code))
geoip_condition (some db) code = ok (geo_ip (geo_ip_contains db) code)

unfoldable pub geosite_condition : Option GeoSiteDb → List ℕ → Outcome RoutingError Condition
unfolding geo_site_matches
geosite_condition none code = err (missing_geo (codes "geosite:" ++ code))
geosite_condition (some db) code = ok (geo_site (geo_site_matches db) code)

module _ (parse_ip : List ℕ → Option IpAddr) (geoip_db : Option GeoIpDb)
    (geosite_db : Option GeoSiteDb) where
  -- The body of the loop over the rules.
  unfoldable pub build_rule : RuleConfig → Outcome RoutingError Rule
  unfolding add_all domain_condition cidr_condition port_condition geoip_condition geosite_condition
  build_rule rc =
      add_all domain_condition (record { conditions = []; outbound = rc.outbound })
        (rc.domain_rules)
      >>= (λ r1. add_all (cidr_condition parse_ip) r1 (rc.ip) >>= (λ r2.
          add_all port_condition r2 (rc.port) >>= (λ r3.
            add_all (geoip_condition geoip_db) r3 (rc.geoip)
            >>= (λ r4. add_all (geosite_condition geosite_db) r4 (rc.geosite)))))

  unfoldable pub build_loop : Router → List RuleConfig → Outcome RoutingError Router
  unfolding build_rule with_rule
  build_loop router [] = ok router
  build_loop router (rc ∷ rcs) =
      let again = λ (rule : Rule). build_loop (with_rule router rule) rcs in
      elim (build_rule rc) [ err e ↦ err e | panic ↦ panic | ok rule ↦ again rule ]

  -- `build_with_geo`; `build` is the same with no databases.
  unfoldable pub build_with_geo : RoutingConfig → Outcome RoutingError Router
  unfolding build_loop
  build_with_geo config =
      build_loop (record { rules = []; default_outbound = config.default_tag }) (config.rules)
