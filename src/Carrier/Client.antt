-- ===== src/Carrier/Client.antt =====
-- The client's requests of crates/donut-carrier/src/client/packet_up.rs: their target and their headers.
pub mod Decimal
pub mod Agree
use hold_the_donut.Prelude.{
  ℕ, zero, suc, ◌+◌, ◌/◌, ◌%◌, Bool, true, false, Option, none, some, List, [], ◌∷◌, ◌++◌, ◌==◌,
  ltb, if◌then◌else◌, codes,
}
use hold_the_donut.Carrier.Config.{Placement, in_path, in_query, in_header, in_cookie}
use hold_the_donut.Carrier.SessionId.{SessionId, Hex, slash, to_hex}

-- `ClientConfig` of config.rs, as far as requests are made of it.
pub record ClientConfig : Type 0 where
  pub session_placement : Placement
  pub seq_placement : Placement
  pub session_header : List ℕ
  pub session_key : List ℕ
  pub seq_header : List ℕ
  pub path_prefix : List ℕ
  pub host : List ℕ

-- A header: its name and its value.
abbrev pub Headers : Type 0
Headers = List (List ℕ × List ℕ)

-- `to_string` of a u64.
unfoldable pub decimal : ℕ → ℕ → List ℕ → List ℕ
decimal zero n acc = acc
decimal (suc fuel) n acc =
    let rest = decimal fuel (n / 10) ((n % 10 + 48) ∷ acc) in
    if ltb n 10 then (n % 10 + 48) ∷ acc else rest

-- 20 digits are enough for 64 bits.
unfoldable pub to_string : ℕ → List ℕ
unfolding decimal
to_string n = decimal 20 n []

-- `if !p.ends_with('/') { p.push('/') }`
unfoldable pub ends_with_slash : List ℕ → Bool
ends_with_slash [] = false
ends_with_slash (c ∷ []) = c == slash
ends_with_slash (c ∷ d ∷ s) = ends_with_slash (d ∷ s)

unfoldable pub with_slash : List ℕ → List ℕ
unfolding ends_with_slash
with_slash p = if ends_with_slash p then p else p ++ (slash ∷ [])

-- `compose_path`
unfoldable pub compose_path : Hex → ClientConfig → Placement → SessionId → List ℕ
unfolding with_slash to_hex
compose_path hex config in_path sid = with_slash (config.path_prefix) ++ to_hex hex sid
compose_path hex config in_query sid =
    with_slash (config.path_prefix) ++ (b'?' ∷ (config.session_key ++ (b'=' ∷ to_hex hex sid)))
compose_path hex config in_header sid = config.path_prefix
compose_path hex config in_cookie sid = config.path_prefix

abbrev pub cookie : List ℕ
cookie = codes "cookie"

abbrev pub host_header : List ℕ
host_header = codes "host"

abbrev pub content_type : List ℕ
content_type = codes "content-type"

-- The headers of `build_request` that name the session.
unfoldable pub session_headers : Hex → ClientConfig → SessionId → Placement → Headers
unfolding to_hex
session_headers hex config sid in_header = (config.session_header, to_hex hex sid) ∷ []
session_headers hex config sid in_cookie =
    (cookie, config.session_key ++ (b'=' ∷ to_hex hex sid)) ∷ []
session_headers hex config sid in_path = []
session_headers hex config sid in_query = []

-- Those that name the sequence number.
unfoldable pub seq_headers : ClientConfig → Option ℕ → Placement → Headers
unfolding to_string
seq_headers config none pl = []
seq_headers config (some n) in_header = (config.seq_header, to_string n) ∷ []
seq_headers config (some n) in_cookie = (cookie, codes "x_seq=" ++ to_string n) ∷ []
seq_headers config (some n) in_query = []
seq_headers config (some n) in_path = []

-- `build_request`, where the builder of the crate http accepts the target and the headers; where it does not,
-- the code returns its error and sends nothing. A GET has no sequence number.
pub record Sent : Type 0 where
  pub is_get : Bool
  pub target : List ℕ
  pub headers : Headers

unfoldable pub type_headers : Bool → Headers
type_headers is_get = if is_get then [] else (content_type, codes "application/grpc") ∷ []

unfoldable pub build_request : Hex → ClientConfig → SessionId → Option ℕ → Bool → List ℕ → Sent
unfolding type_headers session_headers seq_headers
build_request hex config sid seq is_get path = record {
  is_get = is_get;
  target = path;
  headers =
      (host_header, config.host)
      ∷ (type_headers is_get
          ++ (session_headers hex config sid (config.session_placement)
              ++ seq_headers config seq (config.seq_placement)));
}

-- The request of `post_chunk`, and that of the download.
unfoldable pub post_request : Hex → ClientConfig → SessionId → ℕ → Sent
unfolding build_request compose_path
post_request hex config sid seq =
    build_request hex config sid (some seq) false
      (compose_path hex config (config.session_placement) sid)

unfoldable download_request : Hex → ClientConfig → SessionId → Sent
unfolding build_request compose_path
download_request hex config sid =
    build_request hex config sid none true (compose_path hex config (config.session_placement) sid)
