-- ===== src/Examples/Wire.antt =====
-- Concrete runs of donut-core and donut-wire.
use hold_the_donut.Prelude.{
  ℕ, ◌≡◌, ◌≤◌, refl, arith, List, [], ◌∷◌, ◌++◌, length, codes, any, bytes_eq, ok, err,
}
use hold_the_donut.Prelude.Utf8.{is_utf8}
use hold_the_donut.Core.Kinds.{flow_as_str, command_byte}
use hold_the_donut.Core.Auth.{is_authorized}
use hold_the_donut.Core.Auth.Membership.{is_authorized-any}
use hold_the_donut.Wire.Error.{WireError}
use hold_the_donut.Wire.Varint.{varint_len, get_varint, put_varint}
use hold_the_donut.Wire.Varint.RoundTrip.{get_varint-put_varint}
use hold_the_donut.Wire.Addons.{Addons, IsAddons, addons_len, encode_addons, decode_addons}
use hold_the_donut.Wire.Reader.Incremental.{IsTruncated}
use hold_the_donut.Wire.Request.{request_len, encode_request, decode_request, Response}
use hold_the_donut.Wire.Request.RoundTrip.{decode_request-encode_request}
use hold_the_donut.Wire.Request.Stream.{decode_request-prefix}
use hold_the_donut.Examples.Data.{
  alice, bob, IsUserId-alice, IsUserId-bob, example_request, example_bytes, IsRequest-example,
}

is_authorized-any_example :
    is_authorized (record { users = bob ∷ alice ∷ [] }) alice
    ≡ any (λ u. bytes_eq u alice) (bob ∷ alice ∷ [])
is_authorized-any_example =
    is_authorized-any (bob ∷ alice ∷ []) alice (IsUserId-bob, (IsUserId-alice, tt)) IsUserId-alice

abbrev vision_addons : Addons
vision_addons = record { flow = codes "xtls-rprx-vision"; seed = 1 ∷ 2 ∷ [] }

IsAddons-vision : IsAddons vision_addons
unfolding is_utf8
IsAddons-vision = record {
  flow_utf8 = refl;
  flow_bytes = ground arith;
  flow_fits = omega arith;
  seed_bytes = ground arith;
  seed_fits = omega arith;
}

abbrev vision_bytes : List ℕ
vision_bytes = 10 ∷ 16 ∷ (codes "xtls-rprx-vision" ++ (18 ∷ 2 ∷ 1 ∷ 2 ∷ []))

get_varint-put_varint_example : get_varint (put_varint 300 ++ (7 ∷ [])) ≡ ok (300, 7 ∷ [])
get_varint-put_varint_example = get_varint-put_varint 300 (7 ∷ []) (omega arith)

decode_vision : decode_addons vision_bytes ≡ ok vision_addons
unfolding decode_addons get_varint is_utf8
decode_vision = refl

pub encode_example : encode_request example_request ≡ ok example_bytes
unfolding encode_request flow_as_str encode_addons addons_len command_byte
encode_example = refl

decode_request-encode_request_example :
    (bytes : List ℕ) × (encode_request example_request ≡ ok bytes)
    × ((rest : List ℕ) → decode_request (bytes ++ rest) ≡ ok (example_request, rest))
    × (length bytes ≡ request_len example_request)
decode_request-encode_request_example =
    decode_request-encode_request example_request IsRequest-example

decode_request-prefix_example :
    (e : WireError) × (decode_request (0 ∷ alice) ≡ err e) × IsTruncated e
decode_request-prefix_example =
    decode_request-prefix example_request (0 ∷ alice) 0
      (1 ∷ 1 ∷ 187 ∷ 2 ∷ 4 ∷ 97 ∷ 46 ∷ 105 ∷ 111 ∷ []) IsRequest-example encode_example

fits-vision : addons_len vision_addons ≤ 255
unfolding addons_len varint_len
fits-vision = omega arith

abbrev pub vision_response : Response
vision_response = record { addons = vision_addons }
