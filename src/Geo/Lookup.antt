-- ===== src/Geo/Lookup.antt =====
-- A database answers what its file says.
use hold_the_donut.Prelude.{
  ℕ, ◌≡◌, ◌≢◌, refl, ap, sym, ◌∙◌, inl, inr, Bool, true, false, Bool-cases, ◌&&◌, ◌||◌, none, some,
  List, [], ◌∷◌, ◌++◌, if◌then◌else◌, any, bytes_eq, bytes_eq→eq, bytes_eq_refl, map, Outcome-cases,
  ok, err, panic, ok-injective,
}
use hold_the_donut.Core.Address.{IpAddr}
use hold_the_donut.Geo.{
  CidrMessage, GeoIpMessage, GeoSiteMessage, Prost, GeoCidr, cidr_from_proto, geo_cidr_contains,
  to_ascii_uppercase, ByCode, extend_code, get_code, any_of_code, GeoIpDb, cidrs_from_proto,
  parse_ip_loop, parse_geo_ip, geo_ip_contains, DomainRule, domain_from_proto, rule_matches_host,
  GeoSiteDb, parse_site_loop, parse_geo_site, geo_site_matches,
}

or_false : (a : Bool) → (a || false) ≡ a
or_false true = refl
or_false false = refl

or_assoc : (a b c : Bool) → ((a || b) || c) ≡ (a || (b || c))
or_assoc true b c = refl
or_assoc false b c = refl

chosen : (t x : Bool) → (if t then x else false) ≡ (false || (t && x))
chosen true x = refl
chosen false x = refl

joined : (t x y m : Bool) → (if t then (x || y) else m) ≡ ((if t then x else m) || (t && y))
joined true x y m = refl
joined false x y m = sym (or_false m)

apart :
    (t u x y m : Bool)
    → (t && u) ≡ false
    → (if t then x else (m || (u && y))) ≡ ((if t then x else m) || (u && y))
apart true true x y m h = cc
apart true false x y m h = sym (or_false x)
apart false u x y m h = refl

module _ {A : Type 0} (p : A → Bool) where
  any-append : (xs ys : List A) → any p (xs ++ ys) ≡ (any p xs || any p ys)
  unfolding any
  any-append [] ys = refl
  any-append (x ∷ xs) ys = rw (any-append xs ys) (sym (or_assoc (p x) (any p xs) (any p ys)))

  -- What a map answers of a code.
  unfoldable pub answers : List ℕ → ByCode A → Bool
  unfolding get_code
  answers code m = elim (get_code code m) [ none ↦ false | some xs ↦ any p xs ]

  answers_cons :
      (code k : List ℕ) (xs : List A) (m : ByCode A)
      → answers code ((k, xs) ∷ m) ≡ (if bytes_eq k code then any p xs else answers code m)
  unfolding answers get_code
  answers_cons code k xs m = elim (Bool-cases (bytes_eq k code)) [
    | inl t ↦ rw (answers, get_code, t) refl
    | inr f ↦ rw (answers, get_code, f) refl
  ]

  answers_nil : (code : List ℕ) → answers code [] ≡ false
  unfolding answers get_code
  answers_nil code = refl

  -- Extending a code adds to its answer and to no other.
  answers-extend_code :
      (code k : List ℕ) (xs : List A) (m : ByCode A)
      → answers code (extend_code k xs m) ≡ (answers code m || (bytes_eq k code && any p xs))
  unfolding extend_code
  answers-extend_code code k xs [] =
      rw (extend_code, answers_cons code k xs [], answers_nil code)
        (chosen (bytes_eq k code) (any p xs))
  answers-extend_code code k xs ((j, ys) ∷ m) = elim (Bool-cases (bytes_eq j k)) [
    | inl t ↦
        rw
          (
            extend_code,
            t,
            answers_cons code j (ys ++ xs) m,
            answers_cons code j ys m,
            any-append ys xs,
            sym (bytes_eq→eq j k t),
          )
          (joined (bytes_eq j code) (any p ys) (any p xs) (answers code m))
    | inr f ↦
        rw
          (
            extend_code,
            f,
            answers_cons code j ys (extend_code k xs m),
            answers_cons code j ys m,
            answers-extend_code code k xs m,
          )
          (apart (bytes_eq j code) (bytes_eq k code) (any p ys) (any p xs) (answers code m)
            (differ f))
  ]
    where
      false-ne : false ≢ true
      false-ne e = cc

      both : j ≡ code → k ≡ code → bytes_eq j k ≡ true
      both e e' = rw (e, e') (bytes_eq_refl code)

      differ : bytes_eq j k ≡ false → (bytes_eq j code && bytes_eq k code) ≡ false
      differ f = elim (Bool-cases (bytes_eq j code)) [
        | inr g ↦ rw g refl
        | inl t ↦ elim (Bool-cases (bytes_eq k code)) [
          | inr g ↦ rw (t, g) refl
          | inl u ↦ absurd (false-ne (sym f ∙ both (bytes_eq→eq j code t) (bytes_eq→eq k code u)))
        ]
      ]

  any_of_code-answers :
      (code : List ℕ) (m : ByCode A) → any_of_code p code m ≡ answers (to_ascii_uppercase code) m
  unfolding any_of_code answers
  any_of_code-answers code m = refl

-- Codes are compared in upper case.
unfoldable pub same_code : List ℕ → List ℕ → Bool
unfolding to_ascii_uppercase
same_code a b = bytes_eq (to_ascii_uppercase a) (to_ascii_uppercase b)

-- What a message's range contains, if it is one.
unfoldable pub message_contains : IpAddr → CidrMessage → Bool
unfolding cidr_from_proto geo_cidr_contains
message_contains addr c = elim (cidr_from_proto c) [
  | ok g ↦ geo_cidr_contains g addr
  | err e ↦ false
  | panic ↦ false
]

any-cidrs_from_proto :
    (addr : IpAddr) (cs : List CidrMessage) (gs : List GeoCidr)
    → cidrs_from_proto cs ≡ ok gs
    → any (λ g. geo_cidr_contains g addr) gs ≡ any (message_contains addr) cs
unfolding cidrs_from_proto any message_contains
any-cidrs_from_proto addr [] gs e = rw (sym (ok-injective e)) refl
any-cidrs_from_proto addr (c ∷ cs) gs e = elim (Outcome-cases (cidr_from_proto c)) [
  | inr (inl (why, f)) ↦ cc (rw (cidrs_from_proto, f) at e)
  | inr (inr f) ↦ cc (rw (cidrs_from_proto, f) at e)
  | inl (g, f) ↦ elim (Outcome-cases (cidrs_from_proto cs)) [
    | inr (inl (why, f')) ↦ cc (rw (cidrs_from_proto, f, f') at e)
    | inr (inr f') ↦ cc (rw (cidrs_from_proto, f, f') at e)
    | inl (hs, f') ↦
        rw (sym (ok-injective (rw (cidrs_from_proto, f, f') at e)), any, message_contains, f)
          (ap (λ t. geo_cidr_contains g addr || t) (any-cidrs_from_proto addr cs hs f'))
  ]
]

-- What an entry of the file says of an address.
abbrev pub entry_contains : List ℕ → IpAddr → GeoIpMessage → Bool
entry_contains code addr e = same_code (e.country_code) code && any (message_contains addr) (e.cidr)

parse_ip_loop-answers :
    (code : List ℕ) (addr : IpAddr) (m : GeoIpDb) (es : List GeoIpMessage) (db : GeoIpDb)
    → parse_ip_loop m es ≡ ok db
    → answers (λ g. geo_cidr_contains g addr) (to_ascii_uppercase code) db ≡ (
        answers (λ g. geo_cidr_contains g addr) (to_ascii_uppercase code) m
        || any (entry_contains code addr) es)
unfolding parse_ip_loop any same_code
parse_ip_loop-answers code addr m [] db e = rw (sym (ok-injective e)) (sym (or_false _))
parse_ip_loop-answers code addr m (x ∷ es) db e = elim (Outcome-cases (cidrs_from_proto (x.cidr))) [
  | inr (inl (why, f)) ↦ cc (rw (parse_ip_loop, f) at e)
  | inr (inr f) ↦ cc (rw (parse_ip_loop, f) at e)
  | inl (gs, f) ↦
      parse_ip_loop-answers code addr (extend_code (to_ascii_uppercase (x.country_code)) gs m) es db
        (rw (parse_ip_loop, f) at e)
      ∙ step gs f
]
  where
    step :
        (gs : List GeoCidr)
        → cidrs_from_proto (x.cidr) ≡ ok gs
        → (answers
              (λ g. geo_cidr_contains g addr)
              (to_ascii_uppercase code)
              (extend_code (to_ascii_uppercase (x.country_code)) gs m)
            || any (entry_contains code addr) es)
          ≡ (answers (λ g. geo_cidr_contains g addr) (to_ascii_uppercase code) m
              || (entry_contains code addr x || any (entry_contains code addr) es))
    step gs f =
        rw
          (
            answers-extend_code (λ (g : GeoCidr). geo_cidr_contains g addr)
                (to_ascii_uppercase code) (to_ascii_uppercase (x.country_code)) gs m,
            any-cidrs_from_proto addr (x.cidr) gs f,
          )
          (or_assoc
            (answers (λ (g : GeoCidr). geo_cidr_contains g addr) (to_ascii_uppercase code) m)
            (entry_contains code addr x) (any (entry_contains code addr) es))

-- A country database that was read answers of a code and an address whether some entry of the file, of that
-- code in any case of its letters, has a range that contains the address; several entries of one code count
-- together. What an entry says of a reversed match is not looked at.
pub parse_geo_ip-geo_ip_contains :
    (prost : Prost) (bytes code : List ℕ) (addr : IpAddr) (es : List GeoIpMessage) (db : GeoIpDb)
    → prost.decode_geo_ip bytes ≡ some es
    → parse_geo_ip prost bytes ≡ ok db
    → geo_ip_contains db code addr ≡ any (entry_contains code addr) es
unfolding parse_geo_ip geo_ip_contains
parse_geo_ip-geo_ip_contains prost bytes code addr es db d e =
    any_of_code-answers (λ g. geo_cidr_contains g addr) code db
    ∙ parse_ip_loop-answers code addr [] es db (rw (parse_geo_ip, d) at e)
    ∙ ap (λ t. t || any (entry_contains code addr) es)
        (answers_nil (λ g. geo_cidr_contains g addr) (to_ascii_uppercase code))

-- What an entry of the file says of a host.
abbrev pub entry_matches : List ℕ → List ℕ → GeoSiteMessage → Bool
entry_matches code host e =
    same_code (e.country_code) code
    && any (λ d. rule_matches_host (domain_from_proto d) host) (e.domain)

any-map :
    {A B : Type 0} (f : A → B) (p : B → Bool) (xs : List A)
    → any p (map f xs) ≡ any (λ x. p (f x)) xs
unfolding any
any-map f p [] = refl
any-map f p (x ∷ xs) = ap (λ t. p (f x) || t) (any-map f p xs)

parse_site_loop-answers :
    (code host : List ℕ) (m : GeoSiteDb) (es : List GeoSiteMessage)
    → answers (λ r. rule_matches_host r host) (to_ascii_uppercase code) (parse_site_loop m es) ≡ (
        answers (λ r. rule_matches_host r host) (to_ascii_uppercase code) m
        || any (entry_matches code host) es)
unfolding parse_site_loop any same_code
parse_site_loop-answers code host m [] =
    sym (or_false (answers (λ r. rule_matches_host r host) (to_ascii_uppercase code) m))
parse_site_loop-answers code host m (x ∷ es) =
    parse_site_loop-answers code host
      (extend_code (to_ascii_uppercase (x.country_code)) (map domain_from_proto (x.domain)) m) es
    ∙ step
  where
    step :
        (answers
            (λ r. rule_matches_host r host)
            (to_ascii_uppercase code)
            (extend_code (to_ascii_uppercase (x.country_code)) (map domain_from_proto (x.domain)) m)
          || any (entry_matches code host) es)
        ≡ (answers (λ r. rule_matches_host r host) (to_ascii_uppercase code) m
            || (entry_matches code host x || any (entry_matches code host) es))
    step =
        rw
          (
            answers-extend_code (λ (r : DomainRule). rule_matches_host r host)
                (to_ascii_uppercase code) (to_ascii_uppercase (x.country_code))
                (map domain_from_proto (x.domain)) m,
            any-map domain_from_proto (λ (r : DomainRule). rule_matches_host r host) (x.domain),
          )
          (or_assoc
            (answers (λ (r : DomainRule). rule_matches_host r host) (to_ascii_uppercase code) m)
            (entry_matches code host x) (any (entry_matches code host) es))

-- A category database that was read answers of a code and a host whether some entry of the file, of that code
-- in any case of its letters, has a rule that matches the host; several entries of one code count together.
pub parse_geo_site-geo_site_matches :
    (prost : Prost) (bytes code host : List ℕ) (es : List GeoSiteMessage) (db : GeoSiteDb)
    → prost.decode_geo_site bytes ≡ some es
    → parse_geo_site prost bytes ≡ ok db
    → geo_site_matches db code host ≡ any (entry_matches code host) es
unfolding parse_geo_site geo_site_matches
parse_geo_site-geo_site_matches prost bytes code host es db d e =
    any_of_code-answers (λ r. rule_matches_host r host) code db
    ∙ ap (answers (λ r. rule_matches_host r host) (to_ascii_uppercase code))
        (sym (ok-injective (rw (parse_geo_site, d) at e)))
    ∙ parse_site_loop-answers code host [] es
    ∙ ap (λ t. t || any (entry_matches code host) es)
        (answers_nil (λ r. rule_matches_host r host) (to_ascii_uppercase code))
