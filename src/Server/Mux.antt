-- ===== src/Server/Mux.antt =====
-- The frames of crates/donut-server/src/mux.rs, Mux.Cool with XUDP.
pub mod Frames
pub mod Incremental
pub mod Egress
pub mod Relay
pub mod Chunks
pub mod Padded
pub mod Uplink
use Prim.Native.Nat.{bit_and}
use hold_the_donut.Prelude.{
  ℕ, ◌+◌, ◌*◌, ◌≤◌, ◌<◌, Bool, not, ◌&&◌, ◌||◌, Option, none, some, List, [], ◌∷◌, ◌++◌, length,
  take, drop, ltb, leb, ◌==◌, if◌then◌else◌, be16, Outcome, ok, err, panic, ◌>>=◌, false,
}
use hold_the_donut.Prelude.Utf8.{utf8_lossy}
use hold_the_donut.Core.Address.{IpAddr, v4, v6}

abbrev pub status_new : ℕ
status_new = 1

abbrev pub status_keep : ℕ
status_keep = 2

abbrev pub status_end : ℕ
status_end = 3

abbrev pub status_keepalive : ℕ
status_keepalive = 4

abbrev pub option_data : ℕ
option_data = 1

abbrev net_udp : ℕ
net_udp = 2

pub record SocketAddr : Type 0 where
  pub ip_of : IpAddr
  pub port : ℕ

pub data Addr : Type 0 where
  ip : SocketAddr → Addr
  domain : List ℕ → ℕ → Addr

-- The three errors of `parse_frame`, and the one that the relay gives for a status it does not know.
pub data MuxError : Type 0 where
  bad_meta_length : ℕ → MuxError
  meta_truncated : MuxError
  addr_parse : MuxError
  unknown_status : MuxError

-- `read_addr`: the address, and how many bytes it takes. The patterns are the source's length tests.
unfoldable pub read_addr : List ℕ → Option (Addr × ℕ)
read_addr [] = none
read_addr (a ∷ []) = none
read_addr (a ∷ b ∷ []) = none
read_addr (a ∷ b ∷ ty ∷ more) =
    let port = a * 256 + b in
    if ty == 1
    then (if ltb (length more) 4
        then none
        else some (ip (record { ip_of = v4 (take 4 more); port = port }), 7))
    else if ty == 3
    then (if ltb (length more) 16
        then none
        else some (ip (record { ip_of = v6 (take 16 more); port = port }), 19))
    else if ty == 2
    then elim more [
      | [] ↦ none
      | dlen ∷ name ↦
          if ltb (length name) dlen
          then none
          else some (domain (utf8_lossy (take dlen name)) port, 4 + dlen)
    ]
    else none

-- The type and the octets of an address.
abbrev pub ip_octets : IpAddr → List ℕ
ip_octets (v4 a) = 1 ∷ a
ip_octets (v6 a) = 3 ∷ a

-- `write_addr`
unfoldable pub write_addr : SocketAddr → List ℕ
write_addr src = net_udp ∷ (be16 src.port ++ ip_octets src.ip_of)

pub record Frame : Type 0 where
  pub sid : ℕ
  pub status : ℕ
  pub target : Option Addr
  pub data_of : Option (List ℕ)

-- `meta.len() > 4 && meta[4] == NET_UDP`, of the bytes behind the first four.
unfoldable pub says_udp : List ℕ → Bool
says_udp [] = false
says_udp (net ∷ more) = net == net_udp

-- The target, of the bytes behind the first four.
unfoldable pub read_target : List ℕ → Outcome MuxError (Option Addr)
unfolding read_addr
read_target [] = err meta_truncated
read_target (net ∷ more) = elim (read_addr more) [
  | none ↦ err addr_parse
  | some (a, used) ↦ ok (some a)
]

-- What follows the meta data, and what is left of the buffer; `none` while it is not complete.
unfoldable pub read_data : ℕ → List ℕ → Option (Option (List ℕ) × List ℕ)
read_data option buf = if bit_and option option_data == 0 then some (none, buf) else elim buf [
  | [] ↦ none
  | a ∷ [] ↦ none
  | a ∷ b ∷ more ↦
      if ltb (length more) (a * 256 + b)
      then none
      else some (some (take (a * 256 + b) more), drop (a * 256 + b) more)
]

-- The target of a frame, which `New` has, and `Keep` where its meta data go on with UDP.
unfoldable pub frame_target : ℕ → List ℕ → Outcome MuxError (Option Addr)
unfolding says_udp read_target
frame_target status more =
    let has_addr = status == status_new || (status == status_keep && says_udp more) in
    if has_addr then read_target more else ok none

-- The frame, and the bytes behind it, where its data are complete.
unfoldable pub frame_of :
    ℕ → ℕ → Option Addr → Option (Option (List ℕ) × List ℕ) → Option (Frame × List ℕ)
frame_of sid status target none = none
frame_of sid status target (some (bytes, left)) =
    some (record { sid = sid; status = status; target = target; data_of = bytes }, left)

-- `parse_frame` behind its length tests: the meta data, and the bytes behind it.
unfoldable pub parse_meta : List ℕ → List ℕ → Outcome MuxError (Option (Frame × List ℕ))
unfolding frame_target read_data frame_of
parse_meta [] rest = panic
parse_meta (a ∷ []) rest = panic
parse_meta (a ∷ b ∷ []) rest = panic
parse_meta (a ∷ b ∷ c ∷ []) rest = panic
parse_meta (s1 ∷ s0 ∷ status ∷ option ∷ more) rest = frame_target status more >>= λ target.
    ok (frame_of (s1 * 256 + s0) status target (read_data option rest))

-- `parse_frame`: the frame and the bytes left, or `none` where the buffer is to stay as it is.
unfoldable pub parse_frame : List ℕ → Outcome MuxError (Option (Frame × List ℕ))
unfolding parse_meta
parse_frame [] = ok none
parse_frame (a ∷ []) = ok none
parse_frame (a ∷ b ∷ buf) =
    let meta_len = a * 256 + b in
    if not (leb 4 meta_len && leb meta_len 512)
    then err (bad_meta_length meta_len)
    else if ltb (length buf) meta_len
    then ok none
    else parse_meta (take meta_len buf) (drop meta_len buf)

-- `keep_frame`
unfoldable pub keep_frame : ℕ → SocketAddr → List ℕ → List ℕ
unfolding write_addr
keep_frame sid src bytes =
    let meta = be16 sid ++ (status_keep ∷ option_data ∷ write_addr src) in
    be16 (length meta) ++ (meta ++ (be16 (length bytes) ++ bytes))
