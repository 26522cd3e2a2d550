-- ===== src/Examples/Entry.antt =====
-- Concrete runs of the SOCKS5 handshake and the routing table.
use hold_the_donut.Prelude.{
  ℕ, ◌≡◌, ◌⊎◌, ◌↔◌, refl, arith, true, false, List, [], ◌∷◌, ◌++◌, codes, any, bytes_eq, ok,
}
use hold_the_donut.Prelude.Utf8.{is_utf8}
use hold_the_donut.Core.Address.{IsEndpoint}
use hold_the_donut.Socks.{handshake_connect}
use hold_the_donut.Socks.Connect.{greeting, connect_request, handshake_connect-request}
use hold_the_donut.Routing.{
  Rule, ports, of_domain, suffix, condition_matches, rule_matches, domain_matches,
  to_ascii_lowercase, trim_dots, masked_eq,
}
use hold_the_donut.Routing.Suffix.{domain_matches-suffix}
use hold_the_donut.Examples.Data.{example_endpoint}

IsEndpoint-example : IsEndpoint example_endpoint
unfolding is_utf8
IsEndpoint-example = record {
  address_ok = (omega arith, omega arith, ground arith, refl);
  port_ok = omega arith;
}

handshake_connect-request_example :
    handshake_connect (record {
      input = greeting (2 ∷ 0 ∷ []) ++ (connect_request example_endpoint ++ (22 ∷ []));
      written = [];
      writes = true;
    })
    ≡ (record { input = 22 ∷ []; written = 5 ∷ 0 ∷ []; writes = true }, ok example_endpoint)
handshake_connect-request_example =
    handshake_connect-request (2 ∷ 0 ∷ []) example_endpoint (22 ∷ []) [] (unfold any in refl)
      IsEndpoint-example

abbrev dns_rule : Rule
dns_rule = record { conditions = ports 53 53 ∷ []; outbound = codes "block" }

abbrev io_rule : Rule
io_rule = record { conditions = of_domain (suffix (codes ".IO")) ∷ []; outbound = codes "exit" }

dns_misses : rule_matches dns_rule example_endpoint ≡ false
unfolding rule_matches any
dns_misses = refl

io_matches : rule_matches io_rule example_endpoint ≡ true
unfolding rule_matches any condition_matches bytes_eq
io_matches = refl

domain_matches-suffix_example : (domain_matches (suffix (codes ".IO")) (codes "a.io") ≡ true) ↔ (
    (to_ascii_lowercase (codes "a.io") ≡ to_ascii_lowercase (trim_dots (codes ".IO")))
    ⊎ ((front : List ℕ) × (to_ascii_lowercase (codes "a.io")
          ≡ front ++ (46 ∷ to_ascii_lowercase (trim_dots (codes ".IO"))))))
domain_matches-suffix_example = domain_matches-suffix (codes ".IO") (codes "a.io")

-- 10.0.0.0/8 holds 10.1.2.3 and not 11.0.0.0.
mask_holds : masked_eq 0x0a000000 0x0a010203 8 32 ≡ true
unfolding masked_eq
mask_holds = refl

mask_differs : masked_eq 0x0a000000 0x0b000000 8 32 ≡ false
unfolding masked_eq
mask_differs = refl
