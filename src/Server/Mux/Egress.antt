-- ===== src/Server/Mux/Egress.antt =====
-- `send_datagram` of crates/donut-server/src/mux.rs: which way the datagrams of a sub-session leave.
use hold_the_donut.Prelude.{
  ℕ, ◌≡◌, refl, Bool, true, false, ◌&&◌, ◌||◌, Option, none, some, List, [], ◌∷◌, ◌++◌, length,
  ◌==◌, if◌then◌else◌, be16, bytes_eq, All, Bool-cases, Option-cases, inl, inr,
}
use hold_the_donut.Core.Address.{IpAddr, v4, v6, Endpoint}
use hold_the_donut.Core.Address
use hold_the_donut.Server.Mux.{SocketAddr, Addr, ip, domain}

-- What lies outside: the routing table's choice of a chain outbound, the name service, and whether a
-- dial of the chain and a bind of a local socket succeed.
pub record Net : Type 0 where
  pub chained : Endpoint → Bool
  pub lookup : List ℕ → ℕ → Option SocketAddr
  pub dials : Endpoint → Bool
  pub binds : Bool → Bool

-- `UdpSession`: whether there is a local socket, and the targets that have a chain link.
pub record UdpSession : Type 0 where
  pub direct : Bool
  pub chain : List SocketAddr

abbrev pub default_session : UdpSession
default_session = record { direct = false; chain = [] }

-- A datagram that leaves: up a chain link, framed; from the local socket to an address; or from the
-- local socket to its connected peer.
pub data Action : Type 0 where
  up_chain : SocketAddr → List ℕ → Action
  send_to : SocketAddr → List ℕ → Action
  send_connected : List ℕ → Action

abbrev ip_eq : IpAddr → IpAddr → Bool
ip_eq (v4 a) (v4 b) = bytes_eq a b
ip_eq (v4 a) (v6 b) = false
ip_eq (v6 a) (v4 b) = false
ip_eq (v6 a) (v6 b) = bytes_eq a b

abbrev is_ipv6 : IpAddr → Bool
is_ipv6 (v4 a) = false
is_ipv6 (v6 a) = true

unfoldable contains_key : List SocketAddr → SocketAddr → Bool
contains_key [] s = false
contains_key (x ∷ xs) s = (ip_eq x.ip_of s.ip_of && (x.port == s.port)) || contains_key xs s

-- `endpoint_of`
unfoldable pub endpoint_of : Addr → Endpoint
endpoint_of (ip s) = record { address = Address.ip s.ip_of; port = s.port }
endpoint_of (domain h p) = record { address = Address.domain h; port = p }

-- `resolve`
unfoldable resolve : Net → Addr → Option SocketAddr
resolve net (ip s) = some s
resolve net (domain h p) = net.lookup h p

-- What `write_datagram` writes.
unfoldable pub datagram : List ℕ → List ℕ
datagram bytes = be16 (length bytes) ++ bytes

-- Without a target.
unfoldable send_untargeted : UdpSession → List ℕ → UdpSession × List Action
unfolding datagram
send_untargeted sess bytes = elim sess.chain [
  | only ∷ [] ↦ (sess, up_chain only (datagram bytes) ∷ [])
  | _ ↦ (sess, if sess.direct then send_connected bytes ∷ [] else [])
]

-- To a target that the routing table sends up a chain.
unfoldable send_chained : Net → UdpSession → Addr → List ℕ → UdpSession × List Action
unfolding resolve contains_key endpoint_of datagram
send_chained net sess t bytes = elim (resolve net t) [
  | none ↦ (sess, [])
  | some addr ↦
      if contains_key sess.chain addr
      then (sess, up_chain addr (datagram bytes) ∷ [])
      else if net.dials (endpoint_of t)
      then (record sess { chain = addr ∷ sess.chain }, up_chain addr (datagram bytes) ∷ [])
      else (sess, [])
]

-- To a target that stays on this node.
unfoldable send_local : Net → UdpSession → Addr → List ℕ → UdpSession × List Action
unfolding resolve
send_local net sess t bytes = elim (resolve net t) [
  | none ↦ (sess, [])
  | some addr ↦
      if sess.direct || net.binds (is_ipv6 addr.ip_of)
      then (record sess { direct = true }, send_to addr bytes ∷ [])
      else (sess, [])
]

-- `send_datagram`
unfoldable pub send_datagram : Net → UdpSession → Option Addr → List ℕ → UdpSession × List Action
unfolding send_untargeted send_chained send_local endpoint_of
send_datagram net sess none bytes = send_untargeted sess bytes
send_datagram net sess (some t) bytes =
    if net.chained (endpoint_of t)
    then send_chained net sess t bytes
    else send_local net sess t bytes

-- Only a local send leaves from this node's own address.
abbrev pub IsUpChain : Action → Type 0
IsUpChain (up_chain a b) = Unit
IsUpChain (send_to a b) = ⊥
IsUpChain (send_connected b) = ⊥

abbrev IsLocal : Action → Type 0
IsLocal (up_chain a b) = ⊥
IsLocal (send_to a b) = Unit
IsLocal (send_connected b) = Unit

-- A datagram to a target that the routing table sends up a chain never leaves from a local socket, nor
-- opens one, whatever the session, the name service and the dial do.
pub send_datagram-IsUpChain :
    (net : Net) (sess : UdpSession) (t : Addr) (bytes : List ℕ)
    → net.chained (endpoint_of t) ≡ true
    → All IsUpChain (send_datagram net sess (some t) bytes).1
      × ((send_datagram net sess (some t) bytes).0.direct ≡ sess.direct)
unfolding send_datagram send_chained
send_datagram-IsUpChain net sess t bytes h = elim (Option-cases (resolve net t)) [
  | inl e ↦ rw (h, send_chained, e) (tt, refl)
  | inr (addr, e) ↦ elim (Bool-cases (contains_key sess.chain addr)) [
    | inl there ↦ rw (h, send_chained, e, there) ((tt, tt), refl)
    | inr fresh ↦ elim (Bool-cases (net.dials (endpoint_of t))) [
      | inl d ↦ rw (h, send_chained, e, fresh, d) ((tt, tt), refl)
      | inr d ↦ rw (h, send_chained, e, fresh, d) (tt, refl)
    ]
  ]
]

-- A datagram to a target that stays on this node never goes up a chain, and opens no chain link.
send_datagram-IsLocal :
    (net : Net) (sess : UdpSession) (t : Addr) (bytes : List ℕ)
    → net.chained (endpoint_of t) ≡ false
    → All IsLocal (send_datagram net sess (some t) bytes).1
      × ((send_datagram net sess (some t) bytes).0.chain ≡ sess.chain)
unfolding send_datagram send_local
send_datagram-IsLocal net sess t bytes h = elim (Option-cases (resolve net t)) [
  | inl e ↦ rw (h, send_local, e) (tt, refl)
  | inr (addr, e) ↦ elim (Bool-cases (sess.direct || net.binds (is_ipv6 addr.ip_of))) [
    | inl d ↦ rw (h, send_local, e, d) ((tt, tt), refl)
    | inr d ↦ rw (h, send_local, e, d) (tt, refl)
  ]
]
