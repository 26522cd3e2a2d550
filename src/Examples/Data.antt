-- ===== src/Examples/Data.antt =====
-- Concrete users, requests and streams for the runs.
use hold_the_donut.Prelude.{ℕ, List, [], ◌∷◌, ◌++◌, some, codes, refl, arith}
use hold_the_donut.Core.Address.{domain, Endpoint}
use hold_the_donut.Core.Id.{UserId, IsUserId}
use hold_the_donut.Core.Kinds.{tcp, plain, flow_as_str}
use hold_the_donut.Prelude.Utf8.{is_utf8}
use hold_the_donut.Wire.Addons.{addons_len}
use hold_the_donut.Wire.Request.{Request, IsRequest}

abbrev pub alice : UserId
alice = 1 ∷ 2 ∷ 3 ∷ 4 ∷ 5 ∷ 6 ∷ 7 ∷ 8 ∷ 9 ∷ 10 ∷ 11 ∷ 12 ∷ 13 ∷ 14 ∷ 15 ∷ 16 ∷ []

abbrev pub bob : UserId
bob = 1 ∷ 2 ∷ 3 ∷ 4 ∷ 5 ∷ 6 ∷ 7 ∷ 8 ∷ 9 ∷ 10 ∷ 11 ∷ 12 ∷ 13 ∷ 14 ∷ 15 ∷ 17 ∷ []

pub IsUserId-alice : IsUserId alice
IsUserId-alice = (refl, ground arith)

pub IsUserId-bob : IsUserId bob
IsUserId-bob = (refl, ground arith)

abbrev pub example_endpoint : Endpoint
example_endpoint = record { address = domain (codes "a.io"); port = 443 }

abbrev pub example_request : Request
example_request = record {
  user = alice;
  flow = plain;
  command = tcp;
  target = some example_endpoint;
  seed = [];
}

abbrev pub example_bytes : List ℕ
example_bytes = 0 ∷ (alice ++ (0 ∷ 1 ∷ 1 ∷ 187 ∷ 2 ∷ 4 ∷ 97 ∷ 46 ∷ 105 ∷ 111 ∷ []))

pub IsRequest-example : IsRequest example_request
unfolding is_utf8 addons_len flow_as_str
IsRequest-example = record {
  user_ok = IsUserId-alice;
  target_ok = record {
    address_ok = (omega arith, omega arith, ground arith, refl);
    port_ok = omega arith;
  };
  seed_bytes = tt;
  addons_fit = omega arith;
}
