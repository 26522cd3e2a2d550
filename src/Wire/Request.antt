-- ===== src/Wire/Request.antt =====
-- crates/donut-wire/src/request.rs: the request header of a tunnel and the prefix of the answer.
pub mod RoundTrip
pub mod Stream
pub mod Sound
use hold_the_donut.Prelude.{
  ℕ, ◌+◌, ◌%◌, ◌≡◌, ◌≤◌, ◌↔◌, List, [], ◌∷◌, ◌++◌, Option, none, some, Outcome, ok, err, panic, ltb,
  ◌==◌, if◌then◌else◌, length, be16, All, IsByte, not,
}
use hold_the_donut.Prelude
use hold_the_donut.Core.Address.{
  Address, ip, domain, IpAddr, v4, v6, Endpoint, AddressParseError, new_domain, IsEndpoint,
}
use hold_the_donut.Core.Kinds.{
  Command, tcp, udp, mux, command_byte, command_from_u8, FlowKind, flow_as_str, flow_from_wire,
}
use hold_the_donut.Core.Id.{UserId, IsUserId}
use hold_the_donut.Prelude.Utf8.{is_utf8}
use hold_the_donut.Wire.Error.{
  WireError, bad_version, unknown_command, unknown_address_type, zero_domain, invalid_domain_utf8,
  unknown_flow,
}
use hold_the_donut.Wire.Addons.{Addons, addons_len, encode_addons, decode_addons}
use hold_the_donut.Wire.Reader.{
  Reader, ◌>>=◌, pure, fail, ok_or, lift, read_u8, read_bytes, read_u16_u8,
}

-- `.map_err(|_| WireError::InvalidDomainUtf8)`
abbrev map_err : Outcome AddressParseError Address → Outcome WireError Address
map_err (ok a) = ok a
map_err (err e) = err invalid_domain_utf8
map_err panic = panic

abbrev pub version : ℕ
version = 0x00

abbrev addr_ipv4 : ℕ
addr_ipv4 = 0x01

abbrev addr_domain : ℕ
addr_domain = 0x02

abbrev addr_ipv6 : ℕ
addr_ipv6 = 0x03

pub record Request : Type 0 where
  pub user : UserId
  pub flow : FlowKind
  pub command : Command
  pub target : Option Endpoint
  pub seed : List ℕ

-- `Request::addons`
abbrev pub request_addons : Request → Addons
request_addons r = record { flow = flow_as_str r.flow; seed = r.seed }

unfoldable pub address_len : Address → ℕ
address_len (ip (v4 a)) = 4
address_len (ip (v6 a)) = 16
address_len (domain d) = 1 + length d

unfoldable pub target_len : Option Endpoint → ℕ
unfolding address_len
target_len none = 0
target_len (some ep) = 2 + 1 + address_len ep.address

-- `Request::encoded_len`
unfoldable pub request_len : Request → ℕ
unfolding target_len
request_len r = 1 + 16 + 1 + addons_len (request_addons r) + 1 + target_len r.target

unfoldable pub encode_address : Address → List ℕ
encode_address (ip (v4 a)) = addr_ipv4 ∷ a
encode_address (ip (v6 a)) = addr_ipv6 ∷ a
encode_address (domain d) = addr_domain ∷ (length d % 256) ∷ d

-- `match (&self.target, self.command)`; only Mux may lack a target.
unfoldable pub encode_target : Option Endpoint → Command → Outcome WireError (List ℕ)
unfolding encode_address
encode_target none mux = ok []
encode_target (some ep) cmd = ok (be16 ep.port ++ encode_address ep.address)
encode_target none cmd = panic

-- `Request::encode`: the bytes that it appends to the buffer.
unfoldable pub encode_request : Request → Outcome WireError (List ℕ)
unfolding encode_target
encode_request r = Prelude.◌>>=◌ (encode_target r.target r.command) λ target. ok (
    version
    ∷ (r.user
        ++ ((addons_len (request_addons r) % 256)
            ∷ (encode_addons (request_addons r) ++ (command_byte r.command ∷ target)))))

-- The addons segment, of a request and of a response: its length, and so many bytes.
unfoldable pub read_addons : Reader Addons
read_addons = do
  addon_len ← read_u8
  addon_buf ← read_bytes addon_len
  lift (decode_addons addon_buf)

-- `String::from_utf8(d)` and `Address::domain`, whose errors both become `InvalidDomainUtf8`.
unfoldable pub domain_of : List ℕ → Outcome WireError Address
domain_of d = if is_utf8 d then map_err (new_domain d) else err invalid_domain_utf8

-- The `match atype`.
unfoldable pub decode_address : ℕ → Reader Address
unfolding domain_of
decode_address atype =
    if atype == addr_ipv4
    then (do b ← read_bytes 4; pure (ip (v4 b)))
    else if atype == addr_ipv6
    then (do b ← read_bytes 16; pure (ip (v6 b)))
    else if atype == addr_domain
    then (do
      dl ← read_u8
      if dl == 0 then fail zero_domain else do d ← read_bytes dl; lift (domain_of d))
    else fail (unknown_address_type atype)

unfoldable pub decode_target : Command → Reader (Option Endpoint)
unfolding decode_address
decode_target mux = pure none
decode_target cmd = do
  (port, atype) ← read_u16_u8
  addr ← decode_address atype
  pure (some (record { address = addr; port = port }))

-- `Request::decode`
unfoldable pub decode_request : Reader Request
unfolding decode_target read_addons
decode_request = do
  v ← read_u8
  if not (v == version) then fail (bad_version v) else do
    user ← read_bytes 16
    addons ← read_addons
    flow ← ok_or (flow_from_wire addons.flow) unknown_flow
    cmd_byte ← read_u8
    command ← ok_or (command_from_u8 cmd_byte) (unknown_command cmd_byte)
    target ← decode_target command
    pure (record {
      user = user;
      flow = flow;
      command = command;
      target = target;
      seed = addons.seed;
    })

pub record Response : Type 0 where
  pub addons : Addons

-- `Response::encode`
unfoldable pub encode_response : Response → List ℕ
encode_response r = version ∷ (addons_len r.addons % 256) ∷ encode_addons r.addons

-- `Response::encoded_len`
unfoldable pub response_len : Response → ℕ
response_len r = 1 + 1 + addons_len r.addons

-- `Response::decode`
unfoldable pub decode_response : Reader Response
unfolding read_addons
decode_response = do
  v ← read_u8
  if not (v == version)
      then fail (bad_version v)
      else do addons ← read_addons; pure (record { addons = addons })

-- A request that the fields' comments allow: a Mux request has no target and any other has one; the
-- addons fit their length byte.
abbrev pub IsTarget : Option Endpoint → Command → Type 0
IsTarget none mux = Unit
IsTarget (some ep) mux = ⊥
IsTarget none _ = ⊥
IsTarget (some ep) _ = IsEndpoint ep

pub record IsRequest (r : Request) : Type 0 where
  pub user_ok : IsUserId r.user
  pub target_ok : IsTarget r.target r.command
  pub seed_bytes : All IsByte r.seed
  pub addons_fit : addons_len (request_addons r) ≤ 255
