-- ===== src/Wire/Request/Sound.antt =====
-- What `Request::decode` returns is well formed.
use hold_the_donut.Prelude.{
  ℕ, ◌≢◌, ◌≤◌, ◌≡◌, refl, arith, List, Option, none, some, ok, ◌==◌, length, All, IsByte,
  Bool-cases, inl, inr, ok-injective, ◌||◌, ltb,
}
use mathlib.Core.Path.{subst}
use hold_the_donut.Prelude.Utf8.{is_utf8}
use hold_the_donut.Core.Id.{IsUserId}
use hold_the_donut.Core.Address.{
  Address, ip, v4, v6, max_domain_len, new_domain, IsAddress, Endpoint, IsEndpoint,
}
use hold_the_donut.Core.Kinds.{Command, tcp, udp, mux, FlowKind, command_from_u8, flow_from_wire}
use hold_the_donut.Wire.Error.{unknown_flow, unknown_command}
use hold_the_donut.Wire.Addons.{Addons, decode_addons}
use hold_the_donut.Wire.Addons.Decode.{decode_addons-IsAddons}
use hold_the_donut.Wire.Reader.{Reader, ◌>>=◌, pure, ok_or, lift, read_u8, read_bytes, read_u16_u8}
use hold_the_donut.Wire.Reader.Ensures.{
  Ensures, Ensures-pure, Ensures-lift, Ensures-bind, Ensures-read_u8, Ensures-read_bytes,
  Ensures-read_u16_u8, Ensures-some, ensures_rules,
}
use hold_the_donut.Wire.Request.{
  Request, read_addons, domain_of, decode_address, decode_target, decode_request, IsTarget,
}

domain_of-IsAddress : (d : List ℕ) (a : Address) → All IsByte d → domain_of d ≡ ok a → IsAddress a
unfolding domain_of new_domain
domain_of-IsAddress d a bytes h = elim (Bool-cases (is_utf8 d)) [
  | inr bad ↦ cc (rw bad at h)
  | inl text ↦ elim (Bool-cases (length d == 0 || ltb max_domain_len (length d))) [
    | inl out ↦ cc (rw (text, out) at h)
    | inr within ↦
        subst IsAddress (ok-injective (rw (text, within) at h))
          (ground arith, ground arith, bytes, text)
  ]
]

Ensures-domain : (dl : ℕ) → Ensures IsAddress (read_bytes dl >>= λ d. lift (domain_of d))
Ensures-domain dl =
    Ensures-bind (read_bytes dl) (λ d. lift (domain_of d)) (Ensures-read_bytes dl)
      λ d q. Ensures-lift (domain_of d) (λ a h. domain_of-IsAddress d a q.1 h)

Ensures-v4 : Ensures IsAddress (read_bytes 4 >>= λ b. pure (ip (v4 b)))
Ensures-v4 =
    Ensures-bind (read_bytes 4) (λ b. pure (ip (v4 b))) (Ensures-read_bytes 4)
      (λ b p. Ensures-pure (ip (v4 b)) p)

Ensures-v6 : Ensures IsAddress (read_bytes 16 >>= λ b. pure (ip (v6 b)))
Ensures-v6 =
    Ensures-bind (read_bytes 16) (λ b. pure (ip (v6 b))) (Ensures-read_bytes 16)
      (λ b p. Ensures-pure (ip (v6 b)) p)

Ensures-decode_address : (atype : ℕ) → Ensures IsAddress (decode_address atype)
unfolding decode_address
Ensures-decode_address atype =
    search (Ensures-v4, Ensures-v6, Ensures-domain, ensures_rules) depth 8

abbrev HasEndpoint : Option Endpoint → Type 0
HasEndpoint none = ⊥
HasEndpoint (some ep) = IsEndpoint ep

Ensures-endpoint : Ensures HasEndpoint (
    read_u16_u8 >>= λ pt.
    decode_address pt.1 >>= λ addr. pure (some (record { address = addr; port = pt.0 })))
Ensures-endpoint =
    Ensures-bind read_u16_u8
      (λ pt. decode_address pt.1 >>= λ addr. pure (some (record { address = addr; port = pt.0 })))
      Ensures-read_u16_u8
      λ pt p.
        Ensures-bind (decode_address pt.1)
          (λ addr. pure (some (record { address = addr; port = pt.0 })))
          (Ensures-decode_address pt.1)
          λ addr q.
            Ensures-pure (some (record { address = addr; port = pt.0 }))
              (record { address_ok = q; port_ok = p.0 })

HasEndpoint-IsTarget : (t : Option Endpoint) (c : Command) → c ≢ mux → HasEndpoint t → IsTarget t c
HasEndpoint-IsTarget none c n h = absurd h
HasEndpoint-IsTarget (some ep) mux n h = absurd (n refl)
HasEndpoint-IsTarget (some ep) tcp n h = h
HasEndpoint-IsTarget (some ep) udp n h = h

Ensures-decode_target : (c : Command) → Ensures (λ t. IsTarget t c) (decode_target c)
unfolding decode_target
Ensures-decode_target mux = Ensures-pure none tt
Ensures-decode_target tcp = record {
  at = λ buf t rest bytes h.
      let (e, left) = Ensures-endpoint.at buf t rest bytes h in
      (HasEndpoint-IsTarget t tcp (λ p. cc) e, left);
}
Ensures-decode_target udp = record {
  at = λ buf t rest bytes h.
      let (e, left) = Ensures-endpoint.at buf t rest bytes h in
      (HasEndpoint-IsTarget t udp (λ p. cc) e, left);
}

-- A seed of a decoded segment: bytes, and no more than the length byte allows.
abbrev IsSeed : List ℕ → Type 0
IsSeed seed = All IsByte seed × (length seed ≤ 255)

Ensures-read_addons : Ensures (λ a. IsSeed a.seed) read_addons
unfolding read_addons
Ensures-read_addons =
    Ensures-bind read_u8 (λ n. read_bytes n >>= λ b. lift (decode_addons b)) Ensures-read_u8
      λ n p.
        Ensures-bind (read_bytes n) (λ b. lift (decode_addons b)) (Ensures-read_bytes n)
          λ b q. Ensures-lift (decode_addons b) λ a h.
            let (good, _, short) = decode_addons-IsAddons b a q.1 (omega arith) h in
            (good.seed_bytes, omega arith)

-- What a decoded request is, whatever the bytes it came from.
pub record IsDecoded (r : Request) : Type 0 where
  pub user_ok : IsUserId r.user
  pub target_ok : IsTarget r.target r.command
  seed_ok : IsSeed r.seed

-- The parts of `decode_request`, from the last to the first.
module _ (user : List ℕ) (u : IsUserId user) where
  abbrev with_command : List ℕ → FlowKind → Command → Reader Request
  with_command seed flow command = decode_target command >>= λ target.
      pure (record { user = user; flow = flow; command = command; target = target; seed = seed })

  abbrev with_flow : List ℕ → FlowKind → Reader Request
  with_flow seed flow = read_u8 >>= λ b.
      ok_or (command_from_u8 b) (unknown_command b) >>= λ command. with_command seed flow command

  abbrev with_addons : Addons → Reader Request
  with_addons a = ok_or (flow_from_wire a.flow) unknown_flow >>= λ flow. with_flow a.seed flow

  Ensures-with_command :
      (seed : List ℕ) (flow : FlowKind) (command : Command)
      → IsSeed seed
      → Ensures IsDecoded (with_command seed flow command)
  Ensures-with_command seed flow command s =
      Ensures-bind (decode_target command) _ (Ensures-decode_target command) λ target t.
        Ensures-pure
          (record { user = user; flow = flow; command = command; target = target; seed = seed })
          (record { user_ok = u; target_ok = t; seed_ok = s })

  Ensures-with_flow :
      (seed : List ℕ) (flow : FlowKind) → IsSeed seed → Ensures IsDecoded (with_flow seed flow)
  Ensures-with_flow seed flow s =
      Ensures-bind read_u8
        (λ b. ok_or (command_from_u8 b) (unknown_command b) >>= λ command.
          with_command seed flow command)
        Ensures-read_u8
        λ b _.
          Ensures-bind (ok_or (command_from_u8 b) (unknown_command b))
            (λ command. with_command seed flow command)
            (Ensures-some (command_from_u8 b) (unknown_command b))
            λ command _. Ensures-with_command seed flow command s

  Ensures-with_addons : (a : Addons) → IsSeed a.seed → Ensures IsDecoded (with_addons a)
  Ensures-with_addons a s =
      Ensures-bind (ok_or (flow_from_wire a.flow) unknown_flow) (λ flow. with_flow a.seed flow)
        (Ensures-some (flow_from_wire a.flow) unknown_flow)
        λ flow _. Ensures-with_flow a.seed flow s

Ensures-body : Ensures IsDecoded (
    read_bytes 16 >>= λ user. read_addons >>= λ a.
    ok_or (flow_from_wire a.flow) unknown_flow >>= λ flow. read_u8 >>= λ b.
    ok_or (command_from_u8 b) (unknown_command b) >>= λ command. decode_target command >>= λ target.
    pure (record { user = user; flow = flow; command = command; target = target; seed = a.seed }))
Ensures-body =
    Ensures-bind (read_bytes 16)
      (λ user. read_addons >>= λ a. ok_or (flow_from_wire a.flow) unknown_flow >>= λ flow.
        read_u8 >>= λ b. ok_or (command_from_u8 b) (unknown_command b) >>= λ command.
        decode_target command >>= λ target.
        pure
          (record { user = user; flow = flow; command = command; target = target; seed = a.seed }))
      (Ensures-read_bytes 16)
      λ user u.
        Ensures-bind read_addons
          (λ a. ok_or (flow_from_wire a.flow) unknown_flow >>= λ flow. read_u8 >>= λ b.
            ok_or (command_from_u8 b) (unknown_command b) >>= λ command.
            decode_target command >>= λ target. pure (record {
              user = user;
              flow = flow;
              command = command;
              target = target;
              seed = a.seed;
            }))
          Ensures-read_addons λ a s. Ensures-with_addons user u a s

-- For any input of bytes, a request that `Request::decode` returns has a user id of 16 bytes, a
-- target exactly if its command is not Mux, whose address and port are in range and whose domain is
-- UTF-8 of 1 to 255 bytes, and a seed of at most 255 bytes.
Ensures-decode_request : Ensures IsDecoded decode_request
unfolding decode_request
Ensures-decode_request = search (ensures_rules, Ensures-body) depth 4
