-- ===== src/Core/Address.antt =====
-- crates/donut-core/src/address.rs: network addresses. A Rust `String` is the list of its UTF-8
-- bytes; the address types of the standard library are their octets.
use hold_the_donut.Prelude.{
  ℕ, ◌≤◌, ◌≡◌, ◌||◌, List, length, ltb, ◌==◌, if◌then◌else◌, All, IsByte, IsU16,
}
use hold_the_donut.Prelude.{Outcome, ok, err}
use hold_the_donut.Prelude.Utf8.{is_utf8}
use mathlib.Core.Bool.{true}

pub data IpAddr : Type 0 where
  v4 : List ℕ → IpAddr
  v6 : List ℕ → IpAddr

pub data Address : Type 0 where
  ip : IpAddr → Address
  domain : List ℕ → Address

pub record Endpoint : Type 0 where
  pub address : Address
  pub port : ℕ

pub data AddressParseError : Type 0 where
  domain_len : ℕ → AddressParseError
  bad_endpoint : AddressParseError

abbrev pub max_domain_len : ℕ
max_domain_len = 255

-- `Address::domain`
unfoldable pub new_domain : List ℕ → Outcome AddressParseError Address
new_domain s =
    if length s == 0 || ltb max_domain_len (length s)
    then err (domain_len (length s))
    else ok (domain s)

-- What the types of the source say of their values: octets are bytes and as many as the array's
-- length, and a port is a u16. A `String` is UTF-8.
abbrev pub IsIpAddr : IpAddr → Type 0
IsIpAddr (v4 a) = (length a ≡ 4) × All IsByte a
IsIpAddr (v6 a) = (length a ≡ 16) × All IsByte a

-- `Address::Domain` is public, so the length that `Address::domain` checks is a property apart.
abbrev pub IsAddress : Address → Type 0
IsAddress (ip a) = IsIpAddr a
IsAddress (domain d) =
    (1 ≤ length d) × (length d ≤ max_domain_len) × All IsByte d × (is_utf8 d ≡ true)

pub record IsEndpoint (e : Endpoint) : Type 0 where
  pub address_ok : IsAddress e.address
  pub port_ok : IsU16 e.port
