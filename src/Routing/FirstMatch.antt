-- ===== src/Routing/FirstMatch.antt =====
-- The routing table takes the first rule that matches.
use hold_the_donut.Prelude.{◌≡◌, refl, ◌∙◌, if◌then◌else◌, true, false, List, [], ◌∷◌, ◌++◌, All, ℕ}
use hold_the_donut.Core.Address.{Endpoint}
use hold_the_donut.Routing.{Rule, Router, rule_matches, route_loop, route, with_rule}

abbrev Misses : Endpoint → Rule → Type 0
Misses ep rule = rule_matches rule ep ≡ false

route_loop-skip :
    (before rules : List Rule) (fallback : List ℕ) (ep : Endpoint)
    → All (Misses ep) before
    → route_loop (before ++ rules) fallback ep ≡ route_loop rules fallback ep
unfolding route_loop
route_loop-skip [] rules fallback ep h = refl
route_loop-skip (r ∷ before) rules fallback ep (m, h) =
    rw m (route_loop-skip before rules fallback ep h)

-- Where no rule before it matches a target, a rule that does decides the outbound, whatever rules follow
-- and whatever the default is.
route-first :
    (before after : List Rule) (rule : Rule) (fallback : List ℕ) (ep : Endpoint)
    → All (Misses ep) before
    → rule_matches rule ep ≡ true
    → route (record { rules = before ++ (rule ∷ after); default_outbound = fallback }) ep
      ≡ rule.outbound
unfolding route
route-first before after rule fallback ep h m =
    route_loop-skip before (rule ∷ after) fallback ep h ∙ here
  where
    here : route_loop (rule ∷ after) fallback ep ≡ rule.outbound
    here = rw (route_loop, m) refl

route_loop-one :
    (rule : Rule) (fallback : List ℕ) (ep : Endpoint)
    → route_loop (rule ∷ []) fallback ep
      ≡ (if rule_matches rule ep then rule.outbound else fallback)
unfolding route_loop
route_loop-one rule fallback ep = refl

-- For a target that no earlier rule matches, a rule that is added last gives its outbound if it matches,
-- and the default is given if it does not.
route-with_rule :
    (router : Router) (rule : Rule) (ep : Endpoint)
    → All (Misses ep) router.rules
    → route (with_rule router rule) ep
      ≡ (if rule_matches rule ep then rule.outbound else router.default_outbound)
unfolding with_rule route
route-with_rule router rule ep h =
    route_loop-skip router.rules (rule ∷ []) router.default_outbound ep h
    ∙ route_loop-one rule router.default_outbound ep
