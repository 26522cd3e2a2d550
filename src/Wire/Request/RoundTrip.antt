-- ===== src/Wire/Request/RoundTrip.antt =====
-- `Request::decode` and `Response::decode` read what the `encode` functions wrote.
use hold_the_donut.Prelude.{
  ℕ, ◌+◌, ◌%◌, ◌≤◌, ◌<◌, ◌≡◌, refl, sym, ap, arith, List, [], ◌∷◌, ◌++◌, Option, none, some, ok,
  true, length, be16, All, IsByte, length-append, append_assoc, take-append, drop-append, le→ltb,
  ne→==,
}
use hold_the_donut.Prelude.Utf8.{is_utf8}
use hold_the_donut.Core.Address.{
  Address, ip, domain, v4, v6, Endpoint, new_domain, IsAddress, IsEndpoint,
}
use hold_the_donut.Core.Kinds.{
  Command, tcp, udp, mux, command_byte, FlowKind, plain, extended, flow_as_str,
  flow_from_wire-flow_as_str, command_from_u8-command_byte,
}
use hold_the_donut.Wire.Addons.{Addons, IsAddons, field_len, addons_len, encode_addons}
use hold_the_donut.Wire.Addons.RoundTrip.{decode_addons-encode_addons, length-encode_addons}
use hold_the_donut.Wire.Reader.{◌>>=◌, read_u8, read_bytes, read_u16_u8}
use hold_the_donut.Wire.Request.{
  Request, request_addons, address_len, target_len, request_len, encode_address, encode_target,
  encode_request, read_addons, domain_of, decode_address, decode_target, decode_request, Response,
  encode_response, response_len, decode_response, IsTarget, IsRequest,
}

read_u8-cons : (b : ℕ) (buf : List ℕ) → read_u8 (b ∷ buf) ≡ ok (b, buf)
unfolding read_u8
read_u8-cons b buf = rw (le→ltb (length (b ∷ buf)) 1 (omega arith))

read_bytes-append :
    (n : ℕ) (xs rest : List ℕ) → n ≡ length xs → read_bytes n (xs ++ rest) ≡ ok (xs, rest)
unfolding read_bytes
read_bytes-append n xs rest e = rw e (
    rw (le→ltb (length (xs ++ rest)) (length xs) (omega (arith, length-append xs rest))) (
      rw (le→ltb (length (xs ++ rest)) (length xs) (omega (arith, length-append xs rest)))
        (rw (take-append xs rest, drop-append xs rest))))

read_u16_u8-be16 :
    (port t : ℕ) (rest : List ℕ)
    → port < 65536
    → read_u16_u8 (be16 port ++ (t ∷ rest)) ≡ ok ((port, t), rest)
unfolding read_u16_u8
read_u16_u8-be16 port t rest h =
    rw (le→ltb (length (be16 port ++ (t ∷ rest))) 3 (omega arith))
      (ap (λ (p : ℕ). ok ((p, t), rest)) (omega arith))

domain_of-eq : (d : List ℕ) → IsAddress (domain d) → domain_of d ≡ ok (domain d)
unfolding domain_of new_domain
domain_of-eq d (lo, hi, bytes, text) = rw text (ground arith)

-- An address behind its type byte.
decode_address-encode_address :
    (a : Address)
    → IsAddress a
    → (t : ℕ) × (p : List ℕ) × (encode_address a ≡ t ∷ p)
      × ((rest : List ℕ) → decode_address t (p ++ rest) ≡ ok (a, rest))
      × (length p ≡ address_len a)
unfolding encode_address decode_address address_len
decode_address-encode_address (ip (v4 o)) (len, bytes) =
    (1, o, refl, λ rest. rw (read_bytes-append 4 o rest (sym len)), len)
decode_address-encode_address (ip (v6 o)) (len, bytes) =
    (3, o, refl, λ rest. rw (read_bytes-append 16 o rest (sym len)), len)
decode_address-encode_address (domain []) (lo, hi, bytes, text) = absurd (omega arith)
decode_address-encode_address (domain (x ∷ d)) (lo, hi, bytes, text) =
    let fits : length (x ∷ d) % 256 ≡ length (x ∷ d) = omega arith in
    (
      2,
      (length (x ∷ d) % 256) ∷ x ∷ d,
      refl,
      λ rest. rw (
        read_u8-cons,
        fits,
        ne→== (length (x ∷ d)) 0 (omega arith),
        read_bytes-append (length (x ∷ d)) (x ∷ d) rest refl,
        domain_of-eq (x ∷ d) (lo, hi, bytes, text),
      ),
      omega arith,
    )

-- The target of a command that has one.
decode_endpoint :
    (ep : Endpoint)
    → IsEndpoint ep
    → ((rest : List ℕ)
        → (read_u16_u8 >>= λ pt. decode_address pt.1 >>= λ addr rest'.
              ok (some (record { address = addr; port = pt.0 }), rest'))
            ((be16 ep.port ++ encode_address ep.address) ++ rest)
          ≡ ok (some ep, rest))
      × (length (be16 ep.port ++ encode_address ep.address) ≡ 3 + address_len ep.address)
decode_endpoint ep h =
    let (t, p, e, reads, len) = decode_address-encode_address ep.address h.address_ok in
    (
      λ rest. rw e (rw (read_u16_u8-be16 ep.port t (p ++ rest) h.port_ok) (rw (reads rest))),
      rw e (omega arith),
    )

decode_target-encode_target :
    (t : Option Endpoint) (c : Command)
    → IsTarget t c
    → (bytes : List ℕ) × (encode_target t c ≡ ok bytes)
      × ((rest : List ℕ) → decode_target c (bytes ++ rest) ≡ ok (t, rest))
      × (length bytes ≡ target_len t)
unfolding encode_target decode_target target_len
decode_target-encode_target none mux h = ([], refl, λ rest. refl, refl)
decode_target-encode_target (some ep) mux h = absurd h
decode_target-encode_target none tcp h = absurd h
decode_target-encode_target none udp h = absurd h
decode_target-encode_target (some ep) tcp h =
    let (reads, len) = decode_endpoint ep h in
    (be16 ep.port ++ encode_address ep.address, refl, reads, len)
decode_target-encode_target (some ep) udp h =
    let (reads, len) = decode_endpoint ep h in
    (be16 ep.port ++ encode_address ep.address, refl, reads, len)

flow_as_str-IsByte :
    (f : FlowKind)
    → All IsByte (flow_as_str f) × (is_utf8 (flow_as_str f) ≡ true) × (length (flow_as_str f) ≤ 16)
unfolding flow_as_str is_utf8
flow_as_str-IsByte plain = (tt, refl, omega arith)
flow_as_str-IsByte extended = (omega arith, refl, omega arith)

length-field_len : (v : List ℕ) → length v ≤ field_len v
unfolding field_len
length-field_len [] = omega arith
length-field_len (x ∷ v) = omega arith

request_addons-IsAddons : (r : Request) → IsRequest r → IsAddons (request_addons r)
unfolding addons_len
request_addons-IsAddons r h =
    let (bytes, text, short) = flow_as_str-IsByte r.flow in
    record {
      flow_utf8 = text;
      flow_bytes = bytes;
      flow_fits = omega arith;
      seed_bytes = h.seed_bytes;
      seed_fits = omega (arith, h.addons_fit, length-field_len r.seed);
    }

read_addons-encode_addons :
    (a : Addons) (rest : List ℕ)
    → IsAddons a
    → addons_len a ≤ 255
    → read_addons ((addons_len a % 256) ∷ (encode_addons a ++ rest)) ≡ ok (a, rest)
unfolding read_addons
read_addons-encode_addons a rest h fit =
    let fits : addons_len a % 256 ≡ addons_len a = omega arith in
    rw (
      read_u8-cons,
      fits,
      read_bytes-append (addons_len a) (encode_addons a) rest (sym (length-encode_addons a h)),
      decode_addons-encode_addons a h,
    )

-- A request that is well formed (Mux without a target, any other command with one, addons of at
-- most 255 bytes) is encoded without a panic, to as many bytes as `encoded_len` says, and the
-- decoder gives it back from those bytes and leaves whatever follows them.
pub decode_request-encode_request :
    (r : Request)
    → IsRequest r
    → (bytes : List ℕ) × (encode_request r ≡ ok bytes)
      × ((rest : List ℕ) → decode_request (bytes ++ rest) ≡ ok (r, rest))
      × (length bytes ≡ request_len r)
unfolding encode_request decode_request request_len
decode_request-encode_request r h =
    let (target, enc, reads, len) = decode_target-encode_target r.target r.command h.target_ok in
    let a = request_addons r in
    let ha = request_addons-IsAddons r h in
    (
      0
          ∷ (r.user
              ++ ((addons_len a % 256) ∷ (encode_addons a ++ (command_byte r.command ∷ target)))),
      rw enc,
      λ rest. simp append_assoc (
          rw (
            read_u8-cons,
            read_bytes-append 16 r.user _ (sym h.user_ok.0),
            read_addons-encode_addons a (command_byte r.command ∷ (target ++ rest)) ha h.addons_fit,
            flow_from_wire-flow_as_str,
            read_u8-cons,
            command_from_u8-command_byte,
            reads rest,
          )),
      omega (
        arith,
        h.user_ok.0,
        len,
        length-encode_addons a ha,
        length-append r.user
            ((addons_len a % 256) ∷ (encode_addons a ++ (command_byte r.command ∷ target))),
        length-append (encode_addons a) (command_byte r.command ∷ target),
      ),
    )

-- A response whose addons are well formed and of at most 255 bytes is given back from its bytes,
-- with whatever follows them left, and `encoded_len` is their number.
pub decode_response-encode_response :
    (r : Response) (rest : List ℕ)
    → IsAddons r.addons
    → addons_len r.addons ≤ 255
    → (decode_response (encode_response r ++ rest) ≡ ok (r, rest))
      × (length (encode_response r) ≡ response_len r)
unfolding encode_response decode_response response_len
decode_response-encode_response r rest h fit = (
  rw (read_u8-cons, read_addons-encode_addons r.addons rest h fit),
  omega (arith, length-encode_addons r.addons h),
)
