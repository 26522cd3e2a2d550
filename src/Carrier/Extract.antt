-- ===== src/Carrier/Extract.antt =====
-- crates/donut-carrier/src/server/session_extract.rs: the session id and the sequence number of a request,
-- where the configuration places them.
pub mod Found
use hold_the_donut.Prelude.{
  ℕ, ◌+◌, ◌*◌, ◌-◌, ◌^◌, Bool, true, false, not, ◌&&◌, ◌||◌, Option, none, some, List, [], ◌∷◌,
  ◌++◌, length, drop, ltb, leb, ◌==◌, if◌then◌else◌, all, bytes_eq, codes, Outcome, ok, err, ◌>>=◌,
}
use hold_the_donut.Carrier.Config.{
  Placement, in_path, in_query, in_header, in_cookie, ServerConfig, CarrierError, bad_path,
  missing_session_id, missing_sequence, invalid_sequence,
}
use hold_the_donut.Carrier.SessionId.{SessionId, Hex, slash, from_str}

-- What the crate `http` has read of a request: the parts of its target, `headers().get(name)` and the values
-- of the cookie headers, where these are visible ASCII (`to_str`).
pub record Head : Type 0 where
  pub is_get : Bool
  pub path : List ℕ
  pub query : Option (List ℕ)
  pub authority : Option (List ℕ)
  pub header : List ℕ → Option (List ℕ)
  pub cookies : List (List ℕ)

unfoldable pub unwrap_or : Option (List ℕ) → List ℕ → List ℕ
unwrap_or none d = d
unwrap_or (some v) d = v

-- `ok_or`
unfoldable pub ok_or : Option (List ℕ) → CarrierError → Outcome CarrierError (List ℕ)
ok_or none e = err e
ok_or (some v) e = ok v

-- `strip_prefix`
unfoldable pub strip_prefix : List ℕ → List ℕ → Option (List ℕ)
strip_prefix [] s = some s
strip_prefix (p ∷ ps) [] = none
strip_prefix (p ∷ ps) (c ∷ s) = let rest = strip_prefix ps s in if p == c then rest else none

-- `split_once`: what precedes the first such byte, and what follows it.
unfoldable pub split_once : ℕ → List ℕ → Option (List ℕ × List ℕ)
split_once sep [] = none
split_once sep (c ∷ s) =
    let rest = split_once sep s in
    if c == sep then some ([], s) else elim rest [ none ↦ none | some (k, v) ↦ some (c ∷ k, v) ]

-- `rsplit_once`: the same of the last one.
unfoldable rsplit_once : ℕ → List ℕ → Option (List ℕ × List ℕ)
rsplit_once sep [] = none
rsplit_once sep (c ∷ s) = elim (rsplit_once sep s) [
  | some (k, v) ↦ some (c ∷ k, v)
  | none ↦ if c == sep then some ([], s) else none
]

-- `split`: the pieces between such bytes, of which there is always one.
unfoldable cons_first : ℕ → List (List ℕ) → List (List ℕ)
cons_first c [] = (c ∷ []) ∷ []
cons_first c (w ∷ ws) = (c ∷ w) ∷ ws

unfoldable pub split : ℕ → List ℕ → List (List ℕ)
unfolding cons_first
split sep [] = [] ∷ []
split sep (c ∷ s) = let rest = split sep s in if c == sep then [] ∷ rest else cons_first c rest

-- `trim` of ASCII.
unfoldable pub is_whitespace : ℕ → Bool
is_whitespace c = (leb 9 c && leb c 13) || c == 32

unfoldable pub trim_start : List ℕ → List ℕ
trim_start [] = []
trim_start (c ∷ s) = let rest = trim_start s in if is_whitespace c then rest else c ∷ s

unfoldable pub trim_end : List ℕ → List ℕ
trim_end [] = []
trim_end (c ∷ s) = elim (trim_end s) [
  | [] ↦ if is_whitespace c then [] else c ∷ []
  | d ∷ r ↦ c ∷ d ∷ r
]

unfoldable pub trim : List ℕ → List ℕ
unfolding trim_start trim_end
trim s = trim_end (trim_start s)

-- `query_value`, and the `find_map` over the pieces of a cookie header: the value of the first piece
-- `key=value` with that key.
unfoldable pub find_value : List ℕ → List (List ℕ) → Option (List ℕ)
unfolding split_once
find_value key [] = none
find_value key (kv ∷ kvs) =
    let rest = find_value key kvs in
    elim (split_once b'=' kv) [
      | none ↦ rest
      | some (k, v) ↦ if bytes_eq k key then some v else rest
    ]

unfoldable pub query_value : List ℕ → List ℕ → Option (List ℕ)
unfolding split find_value
query_value query key = find_value key (split b'&' query)

unfoldable map_trim : List (List ℕ) → List (List ℕ)
unfolding trim
map_trim [] = []
map_trim (w ∷ ws) = trim w ∷ map_trim ws

unfoldable cookie_pieces : List (List ℕ) → List (List ℕ)
unfolding split map_trim
cookie_pieces [] = []
cookie_pieces (c ∷ cs) = map_trim (split b';' c) ++ cookie_pieces cs

-- `to_ascii_lowercase`
unfoldable pub to_ascii_lowercase : List ℕ → List ℕ
to_ascii_lowercase [] = []
to_ascii_lowercase (c ∷ s) = (if leb 65 c && leb c 90 then c + 32 else c) ∷ to_ascii_lowercase s

unfoldable pub is_ascii_digit : ℕ → Bool
is_ascii_digit c = leb 48 c && leb c 57

unfoldable pub is_empty : List ℕ → Bool
is_empty [] = true
is_empty (c ∷ s) = false

-- `host_only`: only a trailing port is cut off.
unfoldable host_only : List ℕ → List ℕ
unfolding rsplit_once to_ascii_lowercase is_empty is_ascii_digit
host_only s = elim (rsplit_once b':' s) [
  | none ↦ to_ascii_lowercase s
  | some (h, port) ↦
      to_ascii_lowercase (if not (is_empty port) && all is_ascii_digit port then h else s)
]

-- `host_matches`
abbrev host_name : List ℕ
host_name = codes "host"

unfoldable request_authority : Head → List ℕ
unfolding unwrap_or
request_authority req = elim (req.authority) [
  | some a ↦ a
  | none ↦ unwrap_or (req.header host_name) []
]

unfoldable host_matches : Head → List ℕ → Bool
unfolding host_only request_authority
host_matches req expected = bytes_eq (host_only (request_authority req)) (host_only expected)

-- The host pin at the start of `session_id`.
unfoldable pub host_pinned : Head → Option (List ℕ) → Bool
unfolding host_matches
host_pinned req none = true
host_pinned req (some expected) = host_matches req expected

-- The first segment, and what follows it.
unfoldable pub first_segment : List ℕ → List ℕ × List ℕ
first_segment [] = ([], [])
first_segment (c ∷ s) =
    let rest = first_segment s in if c == slash then ([], c ∷ s) else (c ∷ rest.0, rest.1)

unfoldable pub with_tail : Hex → List ℕ → List ℕ → Outcome CarrierError (SessionId × List ℕ)
unfolding from_str
with_tail hex text tail = from_str hex text >>= λ sid. ok (sid, tail)

-- `session_id`, the prefix taken off.
unfoldable pub placed_id :
    Hex → Head → ServerConfig → List ℕ → Placement → Outcome CarrierError (SessionId × List ℕ)
unfolding first_segment with_tail unwrap_or strip_prefix ok_or query_value find_value cookie_pieces
placed_id hex req config after_prefix in_path =
    let rest = unwrap_or (strip_prefix (slash ∷ []) after_prefix) after_prefix in
    let seg = first_segment rest in with_tail hex (seg.0) (seg.1)
placed_id hex req config after_prefix in_query =
    ok_or (query_value (unwrap_or (req.query) []) (config.session_key))
      (missing_session_id in_query)
    >>= λ val. with_tail hex val after_prefix
placed_id hex req config after_prefix in_header =
    ok_or (req.header (config.session_header)) (missing_session_id in_header) >>= λ val.
    with_tail hex val after_prefix
placed_id hex req config after_prefix in_cookie =
    ok_or (find_value (config.session_key) (cookie_pieces (req.cookies)))
      (missing_session_id in_cookie)
    >>= λ val. with_tail hex val after_prefix

-- `session_id`
unfoldable pub session_id : Hex → Head → ServerConfig → Outcome CarrierError (SessionId × List ℕ)
unfolding host_pinned strip_prefix placed_id
session_id hex req config =
    if not (host_pinned req (config.host))
    then err bad_path
    else elim (strip_prefix (config.path_prefix) (req.path)) [
      | none ↦ err bad_path
      | some after_prefix ↦ placed_id hex req config after_prefix (config.session_placement)
    ]

-- `parse::<u64>`: an optional plus sign, then digits, of a value that fits.
unfoldable pub u64_digits : ℕ → List ℕ → Option ℕ
unfolding is_ascii_digit
u64_digits acc [] = some acc
u64_digits acc (c ∷ s) =
    let rest = u64_digits (acc * 10 + (c - 48)) s in
    if is_ascii_digit c && ltb (acc * 10 + (c - 48)) 18446744073709551616 then rest else none

unfoldable pub parse_u64 : List ℕ → Option ℕ
unfolding u64_digits
parse_u64 [] = none
parse_u64 (c ∷ []) = u64_digits 0 (c ∷ [])
parse_u64 (c ∷ d ∷ s) = if c == b'+' then u64_digits 0 (d ∷ s) else u64_digits 0 (c ∷ d ∷ s)

-- `rsplit('/').find(|s| !s.is_empty())`
unfoldable last_nonempty : List (List ℕ) → Option (List ℕ)
last_nonempty [] = none
last_nonempty ([] ∷ ws) = last_nonempty ws
last_nonempty ((c ∷ w) ∷ ws) = elim (last_nonempty ws) [ none ↦ some (c ∷ w) | some l ↦ some l ]

abbrev seq_key : List ℕ
seq_key = codes "x_seq"

-- Where `sequence` looks.
unfoldable pub seq_text : Head → ServerConfig → Placement → Option (List ℕ)
unfolding query_value unwrap_or last_nonempty split find_value cookie_pieces
seq_text req config in_header = req.header (config.seq_header)
seq_text req config in_query = query_value (unwrap_or (req.query) []) seq_key
seq_text req config in_path = last_nonempty (split slash (req.path))
seq_text req config in_cookie = find_value seq_key (cookie_pieces (req.cookies))

-- `sequence`
unfoldable pub sequence : Head → ServerConfig → Outcome CarrierError ℕ
unfolding seq_text parse_u64
sequence req config = elim (seq_text req config (config.seq_placement)) [
  | none ↦ err missing_sequence
  | some s ↦ elim (parse_u64 s) [ none ↦ err invalid_sequence | some n ↦ ok n ]
]
