-- ===== src/Routing/Build/Meaning.antt =====
-- A compiled table routes as its configuration says.
use hold_the_donut.Prelude.{
  ℕ, ◌≡◌, refl, ap, sym, ◌∙◌, inl, inr, Bool, true, false, ◌||◌, Option, List, [], ◌∷◌, ◌++◌,
  append_assoc, append-nil, any, if◌then◌else◌, Outcome, Outcome-cases, ok, err, panic,
  ok-injective, >>=-eq-ok,
}
use hold_the_donut.Core.Address.{IpAddr, Endpoint}
use hold_the_donut.Geo.{GeoIpDb, GeoSiteDb}
use hold_the_donut.Routing.{
  Condition, condition_matches, Rule, rule_matches, Router, route_loop, route, with_rule,
}
use hold_the_donut.Routing.Build.{
  RoutingError, RuleConfig, RoutingConfig, push_condition, add_all, domain_condition,
  cidr_condition, port_condition, geoip_condition, geosite_condition, build_rule, build_loop,
  build_with_geo,
}

-- Whether an entry of a list of the configuration stands for a condition that the target meets.
unfoldable pub meets : {A : Type 0} → (A → Outcome RoutingError Condition) → Endpoint → A → Bool
unfolding condition_matches
meets f ep x = elim (f x) [ ok c ↦ condition_matches c ep | err e ↦ false | panic ↦ false ]

or_false : (a : Bool) → (a || false) ≡ a
or_false true = refl
or_false false = refl

or_assoc : (a b c : Bool) → ((a || b) || c) ≡ (a || (b || c))
or_assoc true b c = refl
or_assoc false b c = refl

any-append :
    {A : Type 0} (p : A → Bool) (xs ys : List A) → any p (xs ++ ys) ≡ (any p xs || any p ys)
unfolding any
any-append p [] ys = refl
any-append p (x ∷ xs) ys = rw (any-append p xs ys) (sym (or_assoc (p x) (any p xs) (any p ys)))

rule_matches-push_condition :
    (rule : Rule) (c : Condition) (ep : Endpoint)
    → rule_matches (push_condition rule c) ep ≡ (rule_matches rule ep || condition_matches c ep)
unfolding rule_matches push_condition any
rule_matches-push_condition rule c ep =
    any-append (λ k. condition_matches k ep) (rule.conditions) (c ∷ [])
    ∙ ap (λ t. any (λ k. condition_matches k ep) (rule.conditions) || t)
        (or_false (condition_matches c ep))

meets_ok :
    {A : Type 0} (f : A → Outcome RoutingError Condition) (ep : Endpoint) (x : A) (c : Condition)
    → f x ≡ ok c
    → meets f ep x ≡ condition_matches c ep
unfolding meets
meets_ok f ep x c g = rw (meets, g) refl

add_all-meets :
    {A : Type 0} (f : A → Outcome RoutingError Condition) (rule rule' : Rule) (xs : List A)
    (ep : Endpoint)
    → add_all f rule xs ≡ ok rule'
    → (rule_matches rule' ep ≡ (rule_matches rule ep || any (meets f ep) xs))
      × (rule'.outbound ≡ rule.outbound)
unfolding add_all any push_condition
add_all-meets f rule rule' [] ep e =
    rw (sym (ok-injective e)) (sym (or_false (rule_matches rule ep)), refl)
add_all-meets f rule rule' (x ∷ xs) ep e = elim (Outcome-cases (f x)) [
  | inr (inl (why, g)) ↦ cc (rw (add_all, g) at e)
  | inr (inr g) ↦ cc (rw (add_all, g) at e)
  | inl (c, g) ↦
      let (m, o) = add_all-meets f (push_condition rule c) rule' xs ep (rw (add_all, g) at e) in
      (
        m
            ∙ ap (λ t. t || any (meets f ep) xs) (rule_matches-push_condition rule c ep)
            ∙ or_assoc (rule_matches rule ep) (condition_matches c ep) (any (meets f ep) xs)
            ∙ ap (λ t. rule_matches rule ep || (t || any (meets f ep) xs))
                (sym (meets_ok f ep x c g)),
        o ∙ pushed c,
      )
]
  where
    pushed : (c : Condition) → (push_condition rule c).outbound ≡ rule.outbound
    pushed c = refl

module _ (parse_ip : List ℕ → Option IpAddr) (geoip_db : Option GeoIpDb)
    (geosite_db : Option GeoSiteDb) where
  -- Whether a target meets any entry of a rule of the configuration.
  unfoldable config_matches : RuleConfig → Endpoint → Bool
  unfolding meets domain_condition cidr_condition port_condition geoip_condition geosite_condition
  config_matches rc ep =
      any (meets domain_condition ep) (rc.domain_rules)
      || (any (meets (cidr_condition parse_ip) ep) (rc.ip)
          || (any (meets port_condition ep) (rc.port)
              || (any (meets (geoip_condition geoip_db) ep) (rc.geoip)
                  || any (meets (geosite_condition geosite_db) ep) (rc.geosite))))

  -- The tag of the first rule of the configuration that a target meets, or the default.
  unfoldable pub config_route : List RuleConfig → List ℕ → Endpoint → List ℕ
  unfolding config_matches
  config_route [] fallback ep = fallback
  config_route (rc ∷ rcs) fallback ep =
      let rest = config_route rcs fallback ep in if config_matches rc ep then rc.outbound else rest

  empty_rule :
      (tag : List ℕ) (ep : Endpoint)
      → rule_matches (record { conditions = []; outbound = tag }) ep ≡ false
  unfolding rule_matches any
  empty_rule tag ep = refl

  build_rule-config_matches :
      (rc : RuleConfig) (rule : Rule) (ep : Endpoint)
      → build_rule parse_ip geoip_db geosite_db rc ≡ ok rule
      → (rule_matches rule ep ≡ config_matches rc ep) × (rule.outbound ≡ rc.outbound)
  unfolding build_rule config_matches
  build_rule-config_matches rc rule ep e =
      let (r1, e1, n1) =
        >>=-eq-ok
          (add_all domain_condition (record { conditions = []; outbound = rc.outbound })
            (rc.domain_rules))
          _ e in
      let (r2, e2, n2) = >>=-eq-ok (add_all (cidr_condition parse_ip) r1 (rc.ip)) _ n1 in
      let (r3, e3, n3) = >>=-eq-ok (add_all port_condition r2 (rc.port)) _ n2 in
      let (r4, e4, e5) = >>=-eq-ok (add_all (geoip_condition geoip_db) r3 (rc.geoip)) _ n3 in
      let (m1, o1) = add_all-meets domain_condition _ r1 (rc.domain_rules) ep e1 in
      let (m2, o2) = add_all-meets (cidr_condition parse_ip) r1 r2 (rc.ip) ep e2 in
      let (m3, o3) = add_all-meets port_condition r2 r3 (rc.port) ep e3 in
      let (m4, o4) = add_all-meets (geoip_condition geoip_db) r3 r4 (rc.geoip) ep e4 in
      let (m5, o5) = add_all-meets (geosite_condition geosite_db) r4 rule (rc.geosite) ep e5 in
      (
        rw (m5, m4, m3, m2, m1, empty_rule (rc.outbound) ep)
            (shape (any (meets domain_condition ep) (rc.domain_rules))
              (any (meets (cidr_condition parse_ip) ep) (rc.ip))
              (any (meets port_condition ep) (rc.port))
              (any (meets (geoip_condition geoip_db) ep) (rc.geoip))
              (any (meets (geosite_condition geosite_db) ep) (rc.geosite))),
        o5 ∙ o4 ∙ o3 ∙ o2 ∙ o1,
      )
    where
      shape :
          (a b c d e : Bool)
          → (((((false || a) || b) || c) || d) || e) ≡ (a || (b || (c || (d || e))))
      shape true b c d e = refl
      shape false true c d e = refl
      shape false false true d e = refl
      shape false false false d e = refl

  build_loop-config_route :
      (rcs : List RuleConfig) (router router' : Router) (ep : Endpoint)
      → build_loop parse_ip geoip_db geosite_db router rcs ≡ ok router'
      → (rules : List Rule) × (router'.rules ≡ router.rules ++ rules)
        × (router'.default_outbound ≡ router.default_outbound)
        × ((fallback : List ℕ) → route_loop rules fallback ep ≡ config_route rcs fallback ep)
  unfolding build_loop with_rule config_route route_loop
  build_loop-config_route [] router router' ep e = (
    [],
    ap (λ r. r.rules) (sym (ok-injective e)) ∙ sym (append-nil (router.rules)),
    ap (λ r. r.default_outbound) (sym (ok-injective e)),
    (λ f. refl),
  )
  build_loop-config_route (rc ∷ rcs) router router' ep e =
      elim (Outcome-cases (build_rule parse_ip geoip_db geosite_db rc)) [
        | inr (inl (why, g)) ↦ cc (rw (build_loop, g) at e)
        | inr (inr g) ↦ cc (rw (build_loop, g) at e)
        | inl (rule, g) ↦
            let (rules, same, def, routes) =
              build_loop-config_route rcs (with_rule router rule) router' ep
                (rw (build_loop, g) at e) in
            let (m, o) = build_rule-config_matches rc rule ep g in
            (
              rule ∷ rules,
              same ∙ append_assoc (router.rules) (rule ∷ []) rules,
              def,
              (λ f. decided rule m o (routes f)),
            )
      ]
    where
      decided :
          (rule : Rule) {x y : List ℕ}
          → rule_matches rule ep ≡ config_matches rc ep
          → rule.outbound ≡ rc.outbound
          → x ≡ y
          → (if rule_matches rule ep then rule.outbound else x)
            ≡ (if config_matches rc ep then rc.outbound else y)
      decided rule m o e = rw (m, o, e) refl

-- A table that the configuration compiles to gives each target the tag of the first rule of the configuration
-- that has an entry which the target meets, each entry read by itself, and the default tag where there is none.
pub build_with_geo-config_route :
    (parse_ip : List ℕ → Option IpAddr) (geoip_db : Option GeoIpDb) (geosite_db : Option GeoSiteDb)
    (config : RoutingConfig) (router : Router) (ep : Endpoint)
    → build_with_geo parse_ip geoip_db geosite_db config ≡ ok router
    → route router ep
      ≡ config_route parse_ip geoip_db geosite_db (config.rules) (config.default_tag) ep
unfolding build_with_geo route
build_with_geo-config_route parse_ip geoip_db geosite_db config router ep e =
    let (rules, same, def, routes) =
      build_loop-config_route parse_ip geoip_db geosite_db (config.rules) _ router ep e in
    rw (same, def) (routes (config.default_tag))
