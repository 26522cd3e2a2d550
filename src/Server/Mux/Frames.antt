-- ===== src/Server/Mux/Frames.antt =====
-- The frames of mux.rs: a response is read back as it was framed.
use hold_the_donut.Prelude.{
  ℕ, suc, ◌+◌, ◌*◌, ◌/◌, ◌%◌, ◌≤◌, ◌<◌, ◌≡◌, refl, ap, ◌∙◌, arith, some, List, ◌∷◌, ◌++◌, length,
  take, be16, le→ltb, le→leb, true, ok, IsU16, append_assoc, take-append, drop-append,
  length-append, take-length,
}
use hold_the_donut.Core.Address.{IpAddr, v4, v6, IsIpAddr}
use hold_the_donut.Server.Mux.{
  SocketAddr, ip, status_keep, ip_octets, read_addr, write_addr, read_target, read_data, says_udp,
  frame_target, frame_of, parse_meta, parse_frame, keep_frame,
}

pub record IsSocketAddr (s : SocketAddr) : Type 0 where
  pub ip_ok : IsIpAddr s.ip_of
  pub port_ok : IsU16 s.port

be16_value : (n : ℕ) → n < 65536 → n / 256 % 256 * 256 + n % 256 ≡ n
be16_value n h = omega arith

take_all : (n : ℕ) (xs : List ℕ) → length xs ≡ n → take n xs ≡ xs
take_all n xs h = rw (← h) (take-length xs)

read_addr-write :
    (i : IpAddr) (port : ℕ)
    → IsIpAddr i
    → port < 65536
    → (used : ℕ) × (read_addr (be16 port ++ ip_octets i)
        ≡ some (ip (record { ip_of = i; port = port }), used))
unfolding read_addr
read_addr-write (v4 a) port (h, b) k = (7, rw (be16_value port k, h, take_all 4 a h) refl)
read_addr-write (v6 a) port (h, b) k = (19, rw (be16_value port k, h, take_all 16 a h) refl)

read_target-write :
    (src : SocketAddr) → IsSocketAddr src → read_target (write_addr src) ≡ ok (some (ip src))
unfolding read_target write_addr
read_target-write src h =
    let (used, e) = read_addr-write src.ip_of src.port h.ip_ok h.port_ok in rw (read_target, e) refl

read_data-some :
    (bytes rest : List ℕ)
    → length bytes ≤ 65535
    → read_data 1 (be16 (length bytes) ++ (bytes ++ rest)) ≡ some (some bytes, rest)
unfolding read_data
read_data-some bytes rest h =
    let fits : length bytes ≤ length (bytes ++ rest) = omega (arith, length-append bytes rest) in
    rw
      (
        be16_value (length bytes) (omega arith),
        le→ltb _ _ fits,
        take-append bytes rest,
        drop-append bytes rest,
      )
      refl

length-write_addr :
    (src : SocketAddr)
    → IsSocketAddr src
    → (8 ≤ length (write_addr src)) × (length (write_addr src) ≤ 20)
unfolding write_addr
length-write_addr src h = by_ip src.ip_of h.ip_ok
  where
    by_ip :
        (i : IpAddr)
        → IsIpAddr i
        → (8 ≤ suc (suc (suc (length (ip_octets i)))))
          × (suc (suc (suc (length (ip_octets i)))) ≤ 20)
    by_ip (v4 a) (h, b) = (omega arith, omega arith)
    by_ip (v6 a) (h, b) = (omega arith, omega arith)

says_udp-write : (src : SocketAddr) → says_udp (write_addr src) ≡ true
unfolding says_udp write_addr
says_udp-write src = refl

frame_target-write :
    (src : SocketAddr)
    → IsSocketAddr src
    → frame_target status_keep (write_addr src) ≡ ok (some (ip src))
unfolding frame_target
frame_target-write src h = rw (says_udp-write src) (read_target-write src h)

-- Meta data in front of which its length stands.
parse_frame-meta :
    (m tail : List ℕ)
    → 4 ≤ length m
    → length m ≤ 512
    → parse_frame (be16 (length m) ++ (m ++ tail)) ≡ parse_meta m tail
unfolding parse_frame
parse_frame-meta m tail low high =
    let fits : length m ≤ length (m ++ tail) = omega (arith, length-append m tail) in
    rw
      (
        be16_value (length m) (omega arith),
        le→leb _ _ low,
        le→leb _ _ high,
        le→ltb _ _ fits,
        take-append m tail,
        drop-append m tail,
      )
      refl

parse_meta-keep :
    (sid : ℕ) (src : SocketAddr) (bytes rest : List ℕ)
    → IsU16 sid
    → IsSocketAddr src
    → length bytes ≤ 65535
    → parse_meta (be16 sid ++ (2 ∷ 1 ∷ write_addr src)) (be16 (length bytes) ++ (bytes ++ rest))
      ≡ ok (
          some (
            record {
              sid = sid;
              status = status_keep;
              target = some (ip src);
              data_of = some bytes;
            },
            rest,
          ))
unfolding parse_meta frame_of
parse_meta-keep sid src bytes rest hs ha hb =
    rw (frame_target-write src ha, read_data-some bytes rest hb, be16_value sid hs) refl

-- A response of at most 65535 bytes from a socket address is read back as the frame that was written,
-- with its session id, its source and its bytes, and what follows it is left.
pub parse_frame-keep_frame :
    (sid : ℕ) (src : SocketAddr) (bytes rest : List ℕ)
    → IsU16 sid
    → IsSocketAddr src
    → length bytes ≤ 65535
    → parse_frame (keep_frame sid src bytes ++ rest)
      ≡ ok (
          some (
            record {
              sid = sid;
              status = status_keep;
              target = some (ip src);
              data_of = some bytes;
            },
            rest,
          ))
unfolding keep_frame
parse_frame-keep_frame sid src bytes rest hs ha hb =
    let m = be16 sid ++ (2 ∷ 1 ∷ write_addr src) in
    let (low, high) = length-write_addr src ha in
    ap parse_frame (
      ap (λ t. be16 (length m) ++ t)
        (append_assoc m (be16 (length bytes) ++ bytes) rest
          ∙ ap (λ t. m ++ t) (append_assoc (be16 (length bytes)) bytes rest)))
    ∙ parse_frame-meta m (be16 (length bytes) ++ (bytes ++ rest)) (omega arith) (omega arith)
    ∙ parse_meta-keep sid src bytes rest hs ha hb
