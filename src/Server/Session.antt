-- ===== src/Server/Session.antt =====
-- `handle_session` of crates/donut-server/src/proxy.rs: what it does once the request is read, up to the
-- relay that carries the payload.
pub mod Safety
use hold_the_donut.Prelude.{
  ℕ, Bool, true, false, not, ◌&&◌, ◌||◌, Option, none, some, List, [], ◌∷◌, ◌++◌, length, ◌==◌,
  if◌then◌else◌, bytes_eq, codes,
}
use hold_the_donut.Core.Address.{Endpoint}
use hold_the_donut.Core.Kinds.{Command, tcp, udp, mux, plain, extended}
use hold_the_donut.Core.Auth.{AuthHandle, handle_is_authorized}
use hold_the_donut.Wire.Error.{WireError}
use hold_the_donut.Wire.Request.{Request, Response, encode_response}
use hold_the_donut.Server.Mux.{SocketAddr}
use hold_the_donut.Server.Header.{Read, header, unexpected_eof, refused, panicked, read_request}

-- What lies outside: the routing table, the configured chain outbounds, the resolver, and whether a dial
-- and a write succeed.
pub record Host : Type 0 where
  pub route : Endpoint → List ℕ
  pub is_chain : List ℕ → Bool
  pub resolves : Endpoint → Option SocketAddr
  pub dials_chain : Endpoint → Bool
  pub connects : SocketAddr → Bool
  pub writes : Bool
  pub fragments : Bool
  pub xray_dialect : Bool

-- What the session does to the outside.
pub data Event : Type 0 where
  count_unauthorized : Event
  count_blackholed : Event
  write_back : List ℕ → Event
  relay_mux : List ℕ → Event
  dial_chain_udp : Endpoint → Event
  dial_chain : Endpoint → Event
  connect : SocketAddr → Event
  relay_udp_chain : List ℕ → Event
  relay_udp : SocketAddr → List ℕ → Event
  relay_vision : List ℕ → Event
  relay_fragmented : List ℕ → Event
  relay_plain : List ℕ → Event

-- `done` where the relay is entered, or nothing is left to do.
pub data SessionEnd : Type 0 where
  done : SessionEnd
  io_error : SessionEnd
  wire_error : WireError → SessionEnd
  unsupported_command : SessionEnd
  session_panic : SessionEnd

-- `Response::default()`, encoded.
abbrev default_response : Response
default_response = record { addons = record { flow = []; seed = [] } }

unfoldable response_bytes : List ℕ
unfolding encode_response
response_bytes = encode_response default_response

-- `matches!(tag, "block" | "blackhole")`
unfoldable pub is_blocked : List ℕ → Bool
is_blocked tag = bytes_eq tag (codes "block") || bytes_eq tag (codes "blackhole")

-- `session.write_all(&response_buf).await?`, and what comes after it.
unfoldable pub respond : Host → List Event × SessionEnd → List Event × SessionEnd
unfolding response_bytes
respond host (events, end) =
    if host.writes then (write_back response_bytes ∷ events, end) else ([], io_error)

-- `Command::Udp`
unfoldable pub serve_udp : Host → Endpoint → List ℕ → List Event × SessionEnd
unfolding respond is_blocked
serve_udp host target leftover =
    let tag = host.route target in
    let after_dial = respond host (relay_udp_chain leftover ∷ [], done) in
    if is_blocked tag
    then (count_blackholed ∷ [], done)
    else if host.is_chain tag
    then if host.dials_chain target
      then (dial_chain_udp target ∷ after_dial.0, after_dial.1)
      else (dial_chain_udp target ∷ [], io_error)
    else elim (host.resolves target) [
      | none ↦ ([], io_error)
      | some addr ↦ respond host (relay_udp addr leftover ∷ [], done)
    ]

-- The relay of a TCP session, by its flow, and how it ends; the faithful Xray dialect is `unreachable!`
-- here. `fragments` says that a fragmentation is configured, which is for direct egress alone.
unfoldable pub relay_tcp : Host → Request → Bool → List ℕ → List Event × SessionEnd
relay_tcp host r is_direct leftover = elim r.flow [
  | extended ↦ if host.xray_dialect then ([], session_panic) else (relay_vision leftover ∷ [], done)
  | plain ↦
      if is_direct && host.fragments
      then (relay_fragmented leftover ∷ [], done)
      else (relay_plain leftover ∷ [], done)
]

-- `Command::Tcp`
unfoldable pub serve_tcp : Host → Request → Endpoint → List ℕ → List Event × SessionEnd
unfolding respond is_blocked relay_tcp
serve_tcp host r target leftover =
    let tag = host.route target in
    let up = respond host (relay_tcp host r false leftover) in
    let direct = respond host (relay_tcp host r true leftover) in
    if is_blocked tag
    then (count_blackholed ∷ [], done)
    else if host.is_chain tag
    then if host.dials_chain target
      then (dial_chain target ∷ up.0, up.1)
      else (dial_chain target ∷ [], io_error)
    else elim (host.resolves target) [
      | none ↦ ([], io_error)
      | some addr ↦
          if host.connects addr
          then (connect addr ∷ direct.0, direct.1)
          else (connect addr ∷ [], io_error)
    ]

-- Behind the check of the credentials.
unfoldable pub serve : Host → Request → List ℕ → List Event × SessionEnd
unfolding respond serve_udp serve_tcp
serve host r leftover = elim r.command [
  | mux ↦ respond host (relay_mux leftover ∷ [], done)
  | udp ↦ elim r.target [
    | none ↦ ([], unsupported_command)
    | some target ↦ serve_udp host target leftover
  ]
  | tcp ↦ elim r.target [
    | none ↦ ([], unsupported_command)
    | some target ↦ serve_tcp host r target leftover
  ]
]

-- `handle_session` behind the loop that reads.
unfoldable pub after_request : Host → AuthHandle → Read Request → List Event × SessionEnd
unfolding serve
after_request host auth unexpected_eof = ([], io_error)
after_request host auth (refused e) = ([], wire_error e)
after_request host auth panicked = ([], session_panic)
after_request host auth (header r leftover reads) =
    if not (handle_is_authorized auth r.user)
    then (count_unauthorized ∷ [], done)
    else serve host r leftover

-- `handle_session`
unfoldable pub handle_session : Host → AuthHandle → List (List ℕ) → List Event × SessionEnd
unfolding after_request
handle_session host auth reads = after_request host auth (read_request reads)
