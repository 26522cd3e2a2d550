-- ===== src/Examples/Sessions.antt =====
-- Concrete sessions of `handle_session`.
use hold_the_donut.Prelude.{
  ℕ, ◌≡◌, ◌⊎◌, ◌==◌, refl, arith, true, false, List, [], ◌∷◌, All, none, codes, if◌then◌else◌,
  bytes_eq, any,
}
use hold_the_donut.Prelude.Utf8.{is_utf8}
use hold_the_donut.Core.Address.{new_domain}
use hold_the_donut.Core.Auth.{AuthHandle, handle_is_authorized}
use hold_the_donut.Core.Kinds.{command_from_u8, flow_from_wire}
use hold_the_donut.Wire.Addons.{decode_addons}
use hold_the_donut.Wire.Reader.{read_u8, read_bytes, read_u16_u8}
use hold_the_donut.Wire.Request.{decode_request}
use hold_the_donut.Server.Header.{header, read_header, read_request}
use hold_the_donut.Server.Session.{Host, count_unauthorized, done, handle_session}
use hold_the_donut.Server.Session.Safety.{
  IsQuiet, NotDirect, Admitted, handle_session-unauthorized, handle_session-Admitted,
  handle_session-chained,
}
use hold_the_donut.Examples.Data.{
  alice, bob, IsUserId-bob, example_endpoint, example_request, example_bytes, IsRequest-example,
}
use hold_the_donut.Examples.Wire.{encode_example}
use hold_the_donut.Examples.Server.{reads, reads_flat}

-- Port 443 goes where the table says.
abbrev host : List ℕ → Host
host tag = record {
  route = λ ep. if ep.port == 443 then tag else codes "freedom";
  is_chain = λ t. bytes_eq t (codes "exit");
  resolves = λ ep. none;
  dials_chain = λ ep. true;
  connects = λ addr. true;
  writes = true;
  fragments = false;
  xray_dialect = false;
}

abbrev known : AuthHandle
known = record { snapshot = record { users = bob ∷ alice ∷ [] } }

handle_session-unauthorized_example :
    handle_session (host (codes "exit")) (record { snapshot = record { users = bob ∷ [] } }) reads
    ≡ (count_unauthorized ∷ [], done)
handle_session-unauthorized_example =
    handle_session-unauthorized (host (codes "exit")) (bob ∷ []) example_request example_bytes
      (22 ∷ 3 ∷ []) reads (IsUserId-bob, tt) (unfold any bytes_eq in refl) IsRequest-example
      encode_example (omega arith, (omega arith, tt)) reads_flat

handle_session-Admitted_example :
    All IsQuiet (handle_session (host (codes "exit")) known reads).0 ⊎ Admitted known reads
handle_session-Admitted_example = handle_session-Admitted (host (codes "exit")) known reads

is_read : read_request reads ≡ header example_request (22 ∷ 3 ∷ []) []
unfolding read_request read_header decode_request read_u8 read_bytes decode_addons flow_from_wire
    command_from_u8 read_u16_u8 is_utf8 new_domain
is_read = refl

is_known : handle_is_authorized known alice ≡ true
unfolding handle_is_authorized
is_known = refl

is_chain : (host (codes "exit")).is_chain ((host (codes "exit")).route example_endpoint) ≡ true
unfolding bytes_eq
is_chain = refl

handle_session-chained_example : All NotDirect (handle_session (host (codes "exit")) known reads).0
handle_session-chained_example =
    handle_session-chained (host (codes "exit")) known reads example_request example_endpoint
      (22 ∷ 3 ∷ []) [] is_read refl is_chain
