-- ===== src/Socks/Connect.antt =====
-- The SOCKS5 handshake against what a client of RFC 1928 sends.
use hold_the_donut.Prelude.{
  ℕ, ◌+◌, ◌*◌, ◌/◌, ◌%◌, ◌≤◌, ◌<◌, ◌≡◌, refl, ap, ◌∙◌, arith, Bool, true, false, List, [], ◌∷◌,
  ◌++◌, length, le→ltb, ◌==◌, any, be16, ok, err, append_assoc, take-append, drop-append,
  length-append,
}
use hold_the_donut.Core.Address.{
  v4, v6, Address, ip, domain, Endpoint, new_domain, IsAddress, IsEndpoint,
}
use hold_the_donut.Socks.{
  Conn, no_acceptable_auth, read_exact, write_all, read_byte, read_pair, checked_domain,
  read_address, greet, read_connect, handshake_connect,
}

-- What the client sends: the methods it offers, and a request.
abbrev pub greeting : List ℕ → List ℕ
greeting methods = 5 ∷ length methods ∷ methods

abbrev address_bytes : Address → List ℕ
address_bytes (ip (v4 a)) = 1 ∷ a
address_bytes (ip (v6 a)) = 4 ∷ a
address_bytes (domain d) = 3 ∷ length d ∷ d

abbrev pub connect_request : Endpoint → List ℕ
connect_request ep = 5 ∷ 1 ∷ 0 ∷ (address_bytes ep.address ++ be16 ep.port)

new_domain_fits : (d : List ℕ) → 1 ≤ length d → length d ≤ 255 → new_domain d ≡ ok (domain d)
unfolding new_domain
new_domain_fits d low high = ground arith

read_exact-append :
    (n : ℕ) (bytes rest written : List ℕ) (writes : Bool)
    → length bytes ≡ n
    → read_exact n (record { input = bytes ++ rest; written = written; writes = writes })
      ≡ (record { input = rest; written = written; writes = writes }, ok bytes)
unfolding read_exact
read_exact-append n bytes rest written writes h =
    let fits : length bytes ≤ length (bytes ++ rest) = omega (arith, length-append bytes rest) in
    rw (← h) (rw (le→ltb _ _ fits, take-append bytes rest, drop-append bytes rest) refl)

module _ (written rest : List ℕ) (writes : Bool) where
  abbrev left : List ℕ → Conn
  left bytes = record { input = bytes; written = written; writes = writes }

  -- The address, behind its type.
  read_address-bytes :
      (a : Address)
      → IsAddress a
      → (atyp : ℕ) × (bytes : List ℕ) × (address_bytes a ≡ atyp ∷ bytes)
        × (read_address atyp (left (bytes ++ rest)) ≡ (left rest, ok a))
  unfolding read_address read_byte checked_domain
  read_address-bytes (ip (v4 a)) (h, b) =
      (1, a, refl, rw (read_exact-append 4 a rest written writes h) refl)
  read_address-bytes (ip (v6 a)) (h, b) =
      (4, a, refl, rw (read_exact-append 16 a rest written writes h) refl)
  read_address-bytes (domain d) (low, high, b, utf8) = (
    3,
    length d ∷ d,
    refl,
    rw (read_exact-append (length d) d rest written writes refl, utf8, new_domain_fits d low high)
        refl,
  )

greet-ok :
    (methods rest written : List ℕ)
    → any (λ m. m == 0) methods ≡ true
    → greet (record { input = greeting methods ++ rest; written = written; writes = true })
      ≡ (record { input = rest; written = written ++ (5 ∷ 0 ∷ []); writes = true }, ok tt)
unfolding greet read_pair write_all
greet-ok methods rest written h =
    rw (read_exact-append (length methods) methods rest written true refl, h) refl

-- A client that does not offer the method without authentication is told so, and refused, and nothing
-- else is written.
handshake_connect-no_acceptable_auth :
    (methods rest written : List ℕ)
    → any (λ m. m == 0) methods ≡ false
    → handshake_connect
        (record { input = greeting methods ++ rest; written = written; writes = true })
      ≡ (
        record { input = rest; written = written ++ (5 ∷ 0xff ∷ []); writes = true },
        err no_acceptable_auth,
      )
unfolding handshake_connect greet read_pair write_all
handshake_connect-no_acceptable_auth methods rest written h =
    rw (read_exact-append (length methods) methods rest written true refl, h) refl

read_port :
    (port : ℕ) (rest written : List ℕ) (writes : Bool)
    → read_pair (record { input = be16 port ++ rest; written = written; writes = writes }) ≡ (
      record { input = rest; written = written; writes = writes },
      ok (port / 256 % 256, port % 256),
    )
unfolding read_pair
read_port port rest written writes = refl

port_value : (n : ℕ) → n < 65536 → n / 256 % 256 * 256 + n % 256 ≡ n
port_value n h = omega arith

read_connect-request :
    (ep : Endpoint) (rest written : List ℕ) (writes : Bool)
    → IsEndpoint ep
    → read_connect
        (record { input = connect_request ep ++ rest; written = written; writes = writes })
      ≡ (record { input = rest; written = written; writes = writes }, ok ep)
unfolding read_connect read_pair
read_connect-request ep rest written writes h =
    let (atyp, bytes, split, reads) =
      read_address-bytes written (be16 ep.port ++ rest) writes ep.address h.address_ok in
    let whole : (address_bytes ep.address ++ be16 ep.port) ++ rest
        ≡ atyp ∷ (bytes ++ (be16 ep.port ++ rest)) =
      append_assoc (address_bytes ep.address) (be16 ep.port) rest
      ∙ ap (λ t. t ++ (be16 ep.port ++ rest)) split in
    rw (whole, reads, port_value ep.port h.port_ok) refl

-- A client that offers the method without authentication among its methods and asks to connect to any
-- well-formed endpoint gets exactly the two bytes that choose that method, the endpoint is read as it was
-- written, and what the client sends behind the request is left on the stream.
pub handshake_connect-request :
    (methods : List ℕ) (ep : Endpoint) (rest written : List ℕ)
    → any (λ m. m == 0) methods ≡ true
    → IsEndpoint ep
    → handshake_connect (record {
      input = greeting methods ++ (connect_request ep ++ rest);
      written = written;
      writes = true;
    })
      ≡ (record { input = rest; written = written ++ (5 ∷ 0 ∷ []); writes = true }, ok ep)
unfolding handshake_connect
handshake_connect-request methods ep rest written h e =
    rw (handshake_connect, greet-ok methods (connect_request ep ++ rest) written h)
      (read_connect-request ep rest (written ++ (5 ∷ 0 ∷ [])) true e)
