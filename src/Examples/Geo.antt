-- ===== src/Examples/Geo.antt =====
-- The theorems on networks, databases, the compiled routing table and the framed Vision at concrete inputs.
use hold_the_donut.Prelude.{
  ℕ, ◌<◌, ◌^◌, ◌≡◌, refl, true, false, none, some, Option, List, [], ◌∷◌, any, codes, ok, min, ◌↔◌,
  bytes_eq, arith,
}
use hold_the_donut.Core.Address.{IpAddr, v4, ip}
use hold_the_donut.Routing.{
  Cidr, number_of, cidr_contains, route, Router, DomainMatch, with_rule, Condition,
}
use hold_the_donut.Routing.Masks.{InNet, cidr_contains-InNet}
use hold_the_donut.Routing.Build.{
  RoutingConfig, digits_below, parse_below, max_prefix, cidr_from_str, port_range, parse_port_spec,
  push_condition, add_all, domain_condition, cidr_condition, port_condition, geoip_condition,
  geosite_condition, build_rule, build_loop, build_with_geo,
}
use hold_the_donut.Routing.Build.Meaning.{config_route, build_with_geo-config_route}
use hold_the_donut.Carrier.Extract.{
  split_once, trim, trim_start, trim_end, is_whitespace, is_ascii_digit,
}
use hold_the_donut.Geo.{
  GeoIpMessage, GeoSiteMessage, Prost, GeoIpDb, GeoSiteDb, cidr_from_proto, to_ascii_uppercase,
  extend_code, cidrs_from_proto, parse_ip_loop, parse_geo_ip, geo_ip_contains, parse_geo_site,
  parse_site_loop, geo_site_matches,
}
use hold_the_donut.Geo.Lookup.{
  entry_contains, entry_matches, parse_geo_ip-geo_ip_contains, parse_geo_site-geo_site_matches,
}
use hold_the_donut.Io.Vision.{Draws, default_vision, encode_copy, decode_copy, copy, finished}
use hold_the_donut.Io.Vision.RoundTrip.{decode_copy-encode_copy}

abbrev ten : Cidr
ten = record { net = v4 (10 ∷ 0 ∷ 0 ∷ 0 ∷ []); prefix = 8 }

number_small :
    (number_of (10 ∷ 0 ∷ 0 ∷ 0 ∷ []) 0 < 2 ^ 32) × (number_of (10 ∷ 1 ∷ 2 ∷ 3 ∷ []) 0 < 2 ^ 32)
unfolding number_of
number_small = (omega arith, omega arith)

cidr_contains-InNet_example :
    (cidr_contains ten (v4 (10 ∷ 1 ∷ 2 ∷ 3 ∷ [])) ≡ true) ↔ InNet ten (v4 (10 ∷ 1 ∷ 2 ∷ 3 ∷ []))
cidr_contains-InNet_example =
    cidr_contains-InNet ten (v4 (10 ∷ 1 ∷ 2 ∷ 3 ∷ [])) (number_small.0) (number_small.1)

-- A file with a code in two entries.
abbrev ip_entries : List GeoIpMessage
ip_entries =
    record {
      country_code = codes "CN";
      cidr = record { ip = 10 ∷ 0 ∷ 0 ∷ 0 ∷ []; prefix = 8 } ∷ [];
      reverse_match = false;
    }
    ∷ record {
      country_code = codes "cn";
      cidr = record { ip = 8 ∷ 8 ∷ 8 ∷ 0 ∷ []; prefix = 24 } ∷ [];
      reverse_match = false;
    }
    ∷ []

abbrev site_entries : List GeoSiteMessage
site_entries =
    record { country_code = codes "ads"; domain = record { kind = 2; value = codes "a.net" } ∷ [] }
    ∷ []

abbrev prost : Prost
prost = record { decode_geo_ip = λ b. some ip_entries; decode_geo_site = λ b. some site_entries }

abbrev ip_db : GeoIpDb
ip_db =
    (
      codes "CN",
      record { net = v4 (10 ∷ 0 ∷ 0 ∷ 0 ∷ []); prefix = 8 }
          ∷ record { net = v4 (8 ∷ 8 ∷ 8 ∷ 0 ∷ []); prefix = 24 }
          ∷ [],
    )
    ∷ []

ip_parsed : parse_geo_ip prost [] ≡ ok ip_db
unfolding parse_geo_ip parse_ip_loop cidrs_from_proto cidr_from_proto extend_code to_ascii_uppercase
    bytes_eq
ip_parsed = refl

parse_geo_ip-geo_ip_contains_example :
    geo_ip_contains ip_db (codes "Cn") (v4 (8 ∷ 8 ∷ 8 ∷ 8 ∷ []))
    ≡ any (entry_contains (codes "Cn") (v4 (8 ∷ 8 ∷ 8 ∷ 8 ∷ []))) ip_entries
parse_geo_ip-geo_ip_contains_example =
    parse_geo_ip-geo_ip_contains prost [] (codes "Cn") (v4 (8 ∷ 8 ∷ 8 ∷ 8 ∷ [])) ip_entries ip_db
      refl ip_parsed

abbrev site_db : GeoSiteDb
site_db = parse_site_loop [] site_entries

site_parsed : parse_geo_site prost [] ≡ ok site_db
unfolding parse_geo_site
site_parsed = refl

parse_geo_site-geo_site_matches_example :
    geo_site_matches site_db (codes "ADS") (codes "x.a.net")
    ≡ any (entry_matches (codes "ADS") (codes "x.a.net")) site_entries
parse_geo_site-geo_site_matches_example =
    parse_geo_site-geo_site_matches prost [] (codes "ADS") (codes "x.a.net") site_entries site_db
      refl site_parsed

-- A configuration of one rule.
abbrev parse_ip : List ℕ → Option IpAddr
parse_ip s = some (v4 (10 ∷ 0 ∷ 0 ∷ 0 ∷ []))

abbrev config : RoutingConfig
config = record {
  default_tag = codes "freedom";
  rules =
      record {
        domain_rules = DomainMatch.full (codes "a.io") ∷ [];
        ip = codes "10.0.0.0/8" ∷ [];
        port = codes "80-100" ∷ codes " 443" ∷ [];
        geoip = codes "cn" ∷ [];
        geosite = [];
        outbound = codes "block";
      }
      ∷ [];
}

abbrev table : Router
table = record {
  rules =
      record {
        conditions =
            Condition.of_domain (DomainMatch.full (codes "a.io"))
            ∷ Condition.of_cidr ten
            ∷ Condition.ports 80 100
            ∷ Condition.ports 443 443
            ∷ Condition.geo_ip (geo_ip_contains ip_db) (codes "cn")
            ∷ [];
        outbound = codes "block";
      }
      ∷ [];
  default_outbound = codes "freedom";
}

built : build_with_geo parse_ip (some ip_db) none config ≡ ok table
unfolding build_with_geo build_loop build_rule add_all push_condition domain_condition
    cidr_condition port_condition geoip_condition geosite_condition cidr_from_str parse_port_spec
    port_range parse_below digits_below max_prefix split_once trim trim_start trim_end is_whitespace
    is_ascii_digit with_rule
built = refl

build_with_geo-config_route_example :
    route table (record { address = ip (v4 (8 ∷ 8 ∷ 8 ∷ 8 ∷ [])); port = 53 })
    ≡ config_route parse_ip
        (some ip_db)
        none
        (config.rules)
        (config.default_tag)
        (record { address = ip (v4 (8 ∷ 8 ∷ 8 ∷ 8 ∷ [])); port = 53 })
build_with_geo-config_route_example =
    build_with_geo-config_route parse_ip (some ip_db) none config table
      (record { address = ip (v4 (8 ∷ 8 ∷ 8 ∷ 8 ∷ [])); port = 53 }) built

abbrev draws : Draws
draws i max = min i max

decode_copy-encode_copy_example :
    decode_copy (encode_copy draws default_vision ((1 ∷ 2 ∷ []) ∷ (3 ∷ []) ∷ []))
    ≡ (copy ((1 ∷ 2 ∷ []) ∷ (3 ∷ []) ∷ []), finished)
decode_copy-encode_copy_example =
    decode_copy-encode_copy draws default_vision ((1 ∷ 2 ∷ []) ∷ (3 ∷ []) ∷ [])
      (λ i max. omega arith) (omega arith) (omega arith, (omega arith, tt))
