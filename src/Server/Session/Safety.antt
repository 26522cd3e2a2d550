-- ===== src/Server/Session/Safety.antt =====
-- What a session cannot do: serve a user that is not known, or leave
-- from this node where the routing table chose a chain.
use mathlib.Core.List.{flatten}
use hold_the_donut.Prelude.{
  ℕ, ◌≡◌, ◌⊎◌, refl, ◌∙◌, Bool, true, false, ◌&&◌, some, List, [], ◌∷◌, ◌++◌, All, any, bytes_eq,
  if◌then◌else◌, Bool-cases, inl, inr, ok,
}
use hold_the_donut.Core.Address.{Endpoint}
use hold_the_donut.Core.Id.{UserId, IsUserId}
use hold_the_donut.Core.Kinds.{Command, tcp, udp, mux, FlowKind, plain, extended}
use hold_the_donut.Core.Auth.{AuthHandle, is_authorized, handle_is_authorized}
use hold_the_donut.Core.Auth.Membership.{is_authorized-any}
use hold_the_donut.Wire.Request.{Request, encode_request, IsRequest}
use hold_the_donut.Server.Header.{Read, header, unexpected_eof, refused, panicked, read_request}
use hold_the_donut.Server.Header.Whole.{IsRead, read_request-encode_request}
use hold_the_donut.Server.Session.{
  Host, Event, count_unauthorized, write_back, relay_mux, connect, relay_udp_chain, relay_udp,
  relay_vision, relay_fragmented, relay_plain, SessionEnd, done, session_panic, is_blocked, respond,
  relay_tcp, serve_udp, serve_tcp, serve, after_request, handle_session,
}

users_of : List UserId → AuthHandle
users_of users = record { snapshot = record { users = users } }

-- A well-formed request of a user that is none of the configured ones, with anything behind it and in
-- any pieces: the session is counted and dropped, and nothing is dialled, relayed or written back.
pub handle_session-unauthorized :
    (host : Host) (users : List UserId) (r : Request) (bytes tail : List ℕ) (reads : List (List ℕ))
    → All IsUserId users
    → any (λ u. bytes_eq u r.user) users ≡ false
    → IsRequest r
    → encode_request r ≡ ok bytes
    → All IsRead reads
    → flatten reads ≡ bytes ++ tail
    → handle_session host (record { snapshot = record { users = users } }) reads
      ≡ (count_unauthorized ∷ [], done)
unfolding handle_session after_request handle_is_authorized
handle_session-unauthorized host users r bytes tail reads us unknown h enc all e =
    let got = read_request-encode_request r bytes tail reads h enc all e in
    let denied : is_authorized (record { users = users }) r.user ≡ false =
      is_authorized-any users r.user us h.user_ok ∙ unknown in
    rw (got.is_header, denied) refl

-- A count alone.
abbrev pub IsQuiet : Event → Type 0
IsQuiet count_unauthorized = Unit
IsQuiet _ = ⊥

-- A request with an authorized user was read.
pub record Admitted (auth : AuthHandle) (reads : List (List ℕ)) : Type 0 where
  pub request : Request
  pub leftover : List ℕ
  pub later : List (List ℕ)
  was_read : read_request reads ≡ header request leftover later
  pub is_known : handle_is_authorized auth request.user ≡ true

-- Whatever bytes arrive in whatever pieces, either the session does nothing but count a rejection, or it
-- has read a request whose user the handle knows at that moment.
pub handle_session-Admitted :
    (host : Host) (auth : AuthHandle) (reads : List (List ℕ))
    → All IsQuiet (handle_session host auth reads).0 ⊎ Admitted auth reads
unfolding handle_session after_request
handle_session-Admitted host auth reads = by_read (read_request reads) refl
  where
    by_read :
        (r : Read Request)
        → read_request reads ≡ r
        → All IsQuiet (after_request host auth (read_request reads)).0 ⊎ Admitted auth reads
    by_read unexpected_eof e = inl (rw e tt)
    by_read (refused w) e = inl (rw e tt)
    by_read panicked e = inl (rw e tt)
    by_read (header r leftover later) e = elim (Bool-cases (handle_is_authorized auth r.user)) [
      | inl known ↦ inr (record {
        request = r;
        leftover = leftover;
        later = later;
        was_read = e;
        is_known = known;
      })
      | inr unknown ↦ inl (rw (e, unknown) (tt, tt))
    ]

-- An event that leaves from this node's own address.
abbrev IsDirect : Event → Type 0
IsDirect (connect addr) = Unit
IsDirect (relay_udp addr bytes) = Unit
IsDirect _ = ⊥

abbrev pub NotDirect : Event → Type 0
NotDirect e = IsDirect e → ⊥

respond-All :
    (P : Event → Type 0) (host : Host) (r : List Event × SessionEnd)
    → ((bytes : List ℕ) → P (write_back bytes))
    → All P r.0
    → All P (respond host r).0
unfolding respond
respond-All P host (events, end) w h = elim (Bool-cases host.writes) [
  | inl e ↦ rw e (w _, h)
  | inr e ↦ rw e tt
]

relay_tcp-NotDirect :
    (host : Host) (r : Request) (is_direct : Bool) (bytes : List ℕ)
    → All NotDirect (relay_tcp host r is_direct bytes).0
unfolding relay_tcp
relay_tcp-NotDirect host r is_direct bytes = by_flow r.flow
  where
    by_flow :
        (f : FlowKind)
        → All NotDirect
            (elim f as (λ _. List Event × SessionEnd) [
              | extended ↦
                  if host.xray_dialect then ([], session_panic) else (relay_vision bytes ∷ [], done)
              | plain ↦
                  if is_direct && host.fragments
                  then (relay_fragmented bytes ∷ [], done)
                  else (relay_plain bytes ∷ [], done)
            ]).0
    by_flow extended = elim (Bool-cases host.xray_dialect) [
      | inl e ↦ rw e tt
      | inr e ↦ rw e (absurd, tt)
    ]
    by_flow plain = elim (Bool-cases (is_direct && host.fragments)) [
      | inl e ↦ rw e (absurd, tt)
      | inr e ↦ rw e (absurd, tt)
    ]

serve_tcp-NotDirect :
    (host : Host) (r : Request) (target : Endpoint) (bytes : List ℕ)
    → host.is_chain (host.route target) ≡ true
    → All NotDirect (serve_tcp host r target bytes).0
unfolding serve_tcp
serve_tcp-NotDirect host r target bytes h =
    let relayed =
      respond-All NotDirect host (relay_tcp host r false bytes) (λ b. absurd)
        (relay_tcp-NotDirect host r false bytes) in
    elim (Bool-cases (is_blocked (host.route target))) [
      | inl e ↦ rw e (absurd, tt)
      | inr e ↦ elim (Bool-cases (host.dials_chain target)) [
        | inl d ↦ rw (e, h, d) (absurd, relayed)
        | inr d ↦ rw (e, h, d) (absurd, tt)
      ]
    ]

serve_udp-NotDirect :
    (host : Host) (target : Endpoint) (bytes : List ℕ)
    → host.is_chain (host.route target) ≡ true
    → All NotDirect (serve_udp host target bytes).0
unfolding serve_udp
serve_udp-NotDirect host target bytes h =
    let relayed =
      respond-All NotDirect host (relay_udp_chain bytes ∷ [], done) (λ b. absurd) (absurd, tt) in
    elim (Bool-cases (is_blocked (host.route target))) [
      | inl e ↦ rw e (absurd, tt)
      | inr e ↦ elim (Bool-cases (host.dials_chain target)) [
        | inl d ↦ rw (e, h, d) (absurd, relayed)
        | inr d ↦ rw (e, h, d) (absurd, tt)
      ]
    ]

module _ (host : Host) (r : Request) (target : Endpoint) (bytes : List ℕ)
    (t : r.target ≡ some target) where
  serve-tcp : r.command ≡ tcp → serve host r bytes ≡ serve_tcp host r target bytes
  unfolding serve
  serve-tcp c = rw (c, t) refl

  serve-udp : r.command ≡ udp → serve host r bytes ≡ serve_udp host target bytes
  unfolding serve
  serve-udp c = rw (c, t) refl

  serve-mux : r.command ≡ mux → serve host r bytes ≡ respond host (relay_mux bytes ∷ [], done)
  unfolding serve
  serve-mux c = rw c refl

Command-cases : (c : Command) → (c ≡ mux) ⊎ ((c ≡ tcp) ⊎ (c ≡ udp))
Command-cases mux = inl refl
Command-cases tcp = inr (inl refl)
Command-cases udp = inr (inr refl)

serve-NotDirect :
    (host : Host) (r : Request) (target : Endpoint) (bytes : List ℕ)
    → r.target ≡ some target
    → host.is_chain (host.route target) ≡ true
    → All NotDirect (serve host r bytes).0
serve-NotDirect host r target bytes t h = elim (Command-cases r.command) [
  | inl c ↦
      rw (serve-mux host r target bytes t c)
        (respond-All NotDirect host (relay_mux bytes ∷ [], done) (λ b. absurd) (absurd, tt))
  | inr (inl c) ↦ rw (serve-tcp host r target bytes t c) (serve_tcp-NotDirect host r target bytes h)
  | inr (inr c) ↦ rw (serve-udp host r target bytes t c) (serve_udp-NotDirect host target bytes h)
]

-- A session whose target the routing table sends up a chain never opens a direct connection to it, nor
-- relays its datagrams from this node, whatever the command, the user, and the outcome of dials and
-- writes.
pub handle_session-chained :
    (host : Host) (auth : AuthHandle) (reads : List (List ℕ)) (r : Request) (target : Endpoint)
    (leftover : List ℕ) (later : List (List ℕ))
    → read_request reads ≡ header r leftover later
    → r.target ≡ some target
    → host.is_chain (host.route target) ≡ true
    → All NotDirect (handle_session host auth reads).0
unfolding handle_session after_request
handle_session-chained host auth reads r target leftover later got t h =
    elim (Bool-cases (handle_is_authorized auth r.user)) [
      | inl known ↦ rw (got, known) (serve-NotDirect host r target leftover t h)
      | inr unknown ↦ rw (got, unknown) (absurd, tt)
    ]
