-- ===== src/Socks.antt =====
-- crates/donut-socks/src/lib.rs: the SOCKS5 inbound, over the bytes that the client sends until it closes.
pub mod Connect
use hold_the_donut.Prelude.{
  ℕ, ◌+◌, ◌*◌, Bool, true, false, not, List, [], ◌∷◌, ◌++◌, length, take, drop, ltb, ◌==◌,
  if◌then◌else◌, any, be16, Outcome, ok, err, panic,
}
use hold_the_donut.Prelude.Utf8.{is_utf8}
use hold_the_donut.Core.Address.{IpAddr, v4, v6, Address, ip, domain, Endpoint, new_domain}

abbrev ver : ℕ
ver = 5

abbrev rep_succeeded : ℕ
rep_succeeded = 0

abbrev rep_general_failure : ℕ
rep_general_failure = 1

abbrev rep_command_not_supported : ℕ
rep_command_not_supported = 7

abbrev atyp_ipv4 : ℕ
atyp_ipv4 = 1

abbrev atyp_domain : ℕ
atyp_domain = 3

abbrev atyp_ipv6 : ℕ
atyp_ipv6 = 4

pub data SocksError : Type 0 where
  io : SocksError
  bad_version : ℕ → SocksError
  no_acceptable_auth : SocksError
  unsupported_command : ℕ → SocksError
  bad_address_type : ℕ → SocksError
  bad_domain : SocksError

-- What is still to be read, what was written, and whether a write succeeds.
pub record Conn : Type 0 where
  pub input : List ℕ
  pub written : List ℕ
  pub writes : Bool

abbrev pub Socks : Type 0 → Type 0
Socks A = Conn → Conn × Outcome SocksError A

infixl 5 ◌>>=◌ ◌>>◌
abbrev pub after :
    {A B : Type 0} → (A → Socks B) → Conn × Outcome SocksError A → Conn × Outcome SocksError B
after f (c, ok a) = f a c
after f (c, err e) = (c, err e)
after f (c, panic) = (c, panic)

abbrev pub ◌>>=◌ : {A B : Type 0} → Socks A → (A → Socks B) → Socks B
◌>>=◌ m f c = after f (m c)

abbrev pub ◌>>◌ : {A B : Type 0} → Socks A → Socks B → Socks B
m >> k = m >>= λ _. k

abbrev pub pure : {A : Type 0} → A → Socks A
pure a c = (c, ok a)

abbrev pub fail : {A : Type 0} → SocksError → Socks A
fail e c = (c, err e)

-- `read_exact`; a stream that ends before is `UnexpectedEof`, whatever was read.
unfoldable pub read_exact : ℕ → Socks (List ℕ)
read_exact n c =
    if ltb (length c.input) n
    then (record c { input = [] }, err io)
    else (record c { input = drop n c.input }, ok (take n c.input))

unfoldable pub write_all : List ℕ → Socks Unit
write_all bytes c =
    if c.writes then (record c { written = c.written ++ bytes }, ok tt) else (c, err io)

-- One byte, and two, of what `read_exact` gives.
unfoldable pub read_byte : Socks ℕ
unfolding read_exact
read_byte c = elim c.input [ [] ↦ (c, err io) | b ∷ rest ↦ (record c { input = rest }, ok b) ]

unfoldable pub read_pair : Socks (ℕ × ℕ)
read_pair c = elim c.input [
  | [] ↦ (c, err io)
  | a ∷ more ↦ elim more [
    | [] ↦ (record c { input = [] }, err io)
    | b ∷ rest ↦ (record c { input = rest }, ok (a, b))
  ]
]

-- `write_reply`: the address that is bound.
unfoldable pub reply_bytes : ℕ → IpAddr → ℕ → List ℕ
reply_bytes rep (v4 a) port = ver ∷ rep ∷ 0 ∷ atyp_ipv4 ∷ (a ++ be16 port)
reply_bytes rep (v6 a) port = ver ∷ rep ∷ 0 ∷ atyp_ipv6 ∷ (a ++ be16 port)

abbrev unspecified : IpAddr
unspecified = v4 (0 ∷ 0 ∷ 0 ∷ 0 ∷ [])

-- `write_reply(..).await.ok()`: its error is ignored.
unfoldable pub try_write : List ℕ → Socks Unit
unfolding write_all
try_write bytes c = ((write_all bytes c).0, ok tt)

-- `String::from_utf8` and `Address::domain`.
unfoldable pub checked_domain : List ℕ → Socks Address
checked_domain buf =
    if is_utf8 buf
    then (elim (new_domain buf) [
      | ok a ↦ pure a
      | err e ↦ fail bad_domain
      | panic ↦ fail bad_domain
    ])
    else fail bad_domain

-- The `match atyp`.
unfoldable pub read_address : ℕ → Socks Address
read_address atyp =
    if atyp == atyp_ipv4
    then (do b ← read_exact 4; pure (ip (v4 b)))
    else if atyp == atyp_ipv6
    then (do b ← read_exact 16; pure (ip (v6 b)))
    else if atyp == atyp_domain
    then (do len ← read_byte; buf ← read_exact len; checked_domain buf)
    else fail (bad_address_type atyp)

-- The greeting.
unfoldable pub greet : Socks Unit
greet = do
  (v, nmethods) ← read_pair
  if not (v == ver) then fail (bad_version v) else do
    methods ← read_exact nmethods
    if not (any (λ x. x == 0) methods)
        then (do write_all (ver ∷ 0xff ∷ []); fail no_acceptable_auth)
        else write_all (ver ∷ 0 ∷ [])

-- The request.
unfoldable pub read_connect : Socks Endpoint
read_connect = do
  (v, cmd) ← read_pair
  (rsv, atyp) ← read_pair
  if not (v == ver)
      then fail (bad_version v)
      else if not (cmd == 1)
      then (do
        try_write (reply_bytes rep_command_not_supported unspecified 0)
        fail (unsupported_command cmd))
      else do
        address ← read_address atyp
        (hi, lo) ← read_pair
        pure (record { address = address; port = hi * 256 + lo })

-- `handshake_connect`
unfoldable pub handshake_connect : Socks Endpoint
handshake_connect = do greet; read_connect

-- `PendingConnect::accept` and `reject`, up to the flush.
unfoldable pub accept : IpAddr → ℕ → Socks Unit
accept bound port = write_all (reply_bytes rep_succeeded bound port)

unfoldable reject : Socks Unit
reject = write_all (reply_bytes rep_general_failure unspecified 0)
