-- ===== src/Wire/Request/Stream.antt =====
-- The decoders of request.rs on a stream that arrives in pieces.
use hold_the_donut.Prelude.{
  ℕ, ◌≡◌, ◌≢◌, arith, List, [], ◌∷◌, ◌++◌, ok, err, panic, append-nil, ok-injective, ◌∙◌, sym,
}
use hold_the_donut.Core.Address.{new_domain}
use hold_the_donut.Core.Kinds.{Command, tcp, udp, mux}
use hold_the_donut.Wire.Error.{WireError}
use hold_the_donut.Wire.Addons.Decode.{decode_addons-ne-panic}
use hold_the_donut.Wire.Reader.Incremental.{
  IsIncremental, IsTruncated, incremental_rules, prefix-IsTruncated,
}
use hold_the_donut.Wire.Request.{
  Request, read_addons, domain_of, decode_address, decode_target, decode_request, encode_request,
  decode_response, IsRequest,
}
use hold_the_donut.Wire.Request.RoundTrip.{decode_request-encode_request}

domain_of-ne-panic : (d : List ℕ) → domain_of d ≢ panic
unfolding domain_of new_domain
domain_of-ne-panic d h = ground arith

ruleset request_rules = (incremental_rules, domain_of-ne-panic, decode_addons-ne-panic)

Incremental-read_addons : IsIncremental read_addons
unfolding read_addons
Incremental-read_addons = search request_rules

Incremental-decode_address : (atype : ℕ) → IsIncremental (decode_address atype)
unfolding decode_address
Incremental-decode_address atype = search request_rules depth 8

Incremental-decode_target : (c : Command) → IsIncremental (decode_target c)
unfolding decode_target
Incremental-decode_target mux = search request_rules
Incremental-decode_target tcp = search (request_rules, Incremental-decode_address)
Incremental-decode_target udp = search (request_rules, Incremental-decode_address)

-- `Request::decode` never panics, whatever the bytes; a request that it returns is read from a
-- prefix of them, and bytes that come later do not change it; and every error but `Truncated` is
-- final: more bytes do not mend it.
pub Incremental-decode_request : IsIncremental decode_request
unfolding decode_request
Incremental-decode_request =
    search (request_rules, Incremental-read_addons, Incremental-decode_target) depth 14

-- On every proper prefix of the encoding of a well-formed request, `Request::decode` answers
-- `Truncated`, and never another error or a request.
pub decode_request-prefix :
    (r : Request) (front : List ℕ) (x : ℕ) (back : List ℕ)
    → IsRequest r
    → encode_request r ≡ ok (front ++ (x ∷ back))
    → (e : WireError) × (decode_request front ≡ err e) × IsTruncated e
decode_request-prefix r front x back h enc =
    let (bytes, enc', reads, len) = decode_request-encode_request r h in
    let same : bytes ≡ front ++ (x ∷ back) = ok-injective (sym enc' ∙ enc) in
    prefix-IsTruncated decode_request front x back r Incremental-decode_request
      (rw (← same) (rw append-nil at (reads [])))

pub Incremental-decode_response : IsIncremental decode_response
unfolding decode_response
Incremental-decode_response = search (request_rules, Incremental-read_addons) depth 8
