-- ===== src/Examples/Server.antt =====
-- Concrete runs of donut-server.
use mathlib.Core.List.{flatten}
use hold_the_donut.Prelude.{
  ℕ, ◌≡◌, refl, arith, true, false, List, [], ◌∷◌, ◌++◌, All, IsByte, none, some, ok, codes, ◌==◌,
}
use hold_the_donut.Core.Address.{v4}
use hold_the_donut.Wire.Varint.{put_varint, varint_len}
use hold_the_donut.Wire.Addons.{addons_len, encode_addons}
use hold_the_donut.Wire.Request.{encode_response}
use hold_the_donut.Io.VisionXray.{new_unpadder, xtls_padding}
use hold_the_donut.Io.VisionXray.Streams.{feed}
use hold_the_donut.Server.Header.{read_request}
use hold_the_donut.Server.Header.Whole.{ReadsTo, read_request-encode_request}
use hold_the_donut.Server.Mux.{SocketAddr, Addr, ip, status_keep, parse_frame, keep_frame}
use hold_the_donut.Server.Mux.Frames.{parse_frame-keep_frame}
use hold_the_donut.Server.Mux.Egress.{
  Net, default_session, IsUpChain, endpoint_of, send_datagram, send_datagram-IsUpChain,
}
use hold_the_donut.Server.Mux.Relay.{new_relay, started, drain, drain_loop, handle_frame, on_data}
use hold_the_donut.Server.Mux.Padded.{devision, revision, revision_loop, uplink, feed-revision}
use hold_the_donut.Server.Mux.Uplink.{unpadder_of, uplink-chunks}
use hold_the_donut.Examples.Data.{alice, example_request, example_bytes, IsRequest-example}
use hold_the_donut.Examples.Wire.{encode_example, vision_response}

abbrev source : SocketAddr
source = record { ip_of = v4 (10 ∷ 0 ∷ 0 ∷ 1 ∷ []); port = 5353 }

-- HTTPS goes up the chain.
abbrev net : Net
net = record {
  chained = λ ep. ep.port == 443;
  lookup = λ h p. some source;
  dials = λ ep. true;
  binds = λ v6. true;
}

parse_frame-keep_frame_example :
    parse_frame (keep_frame 3 source (1 ∷ 2 ∷ []) ++ (9 ∷ []))
    ≡ ok (
        some (
          record {
            sid = 3;
            status = status_keep;
            target = some (ip source);
            data_of = some (1 ∷ 2 ∷ []);
          },
          9 ∷ [],
        ))
parse_frame-keep_frame_example =
    parse_frame-keep_frame 3 source (1 ∷ 2 ∷ []) (9 ∷ []) (omega arith)
      (record { ip_ok = (refl, ground arith); port_ok = omega arith }) (omega arith)

-- A target that resolves to a source of another port.
abbrev secure : Addr
secure = Addr.domain (codes "a.io") 443

abbrev plain_target : Addr
plain_target = Addr.domain (codes "a.io") 53

secure_chained : net.chained (endpoint_of secure) ≡ true
unfolding endpoint_of
secure_chained = refl

plain_local : net.chained (endpoint_of plain_target) ≡ false
unfolding endpoint_of
plain_local = refl

send_datagram-IsUpChain_example :
    All IsUpChain (send_datagram net default_session (some secure) (7 ∷ [])).1
    × ((send_datagram net default_session (some secure) (7 ∷ [])).0.direct ≡ false)
send_datagram-IsUpChain_example =
    send_datagram-IsUpChain net default_session secure (7 ∷ []) secure_chained

-- A New frame and a Keep frame with a datagram each, cut inside both.
abbrev frames : List (List ℕ)
frames =
    (0 ∷ 12 ∷ 0 ∷ 1 ∷ 1 ∷ 1 ∷ 2 ∷ 0 ∷ [])
    ∷ (53 ∷ 1 ∷ 9 ∷ 9 ∷ 9 ∷ 9 ∷ 0 ∷ 1 ∷ 65 ∷ 0 ∷ 4 ∷ 0 ∷ [])
    ∷ (1 ∷ 2 ∷ 1 ∷ 0 ∷ 2 ∷ 66 ∷ 67 ∷ [])
    ∷ []

abbrev frames_whole : List (List ℕ)
frames_whole = flatten frames ∷ []

frames_same : flatten frames ≡ flatten frames_whole
unfolding flatten
frames_same = refl

frames_bytes : All (All IsByte) frames
frames_bytes = (ground arith, (ground arith, (ground arith, tt)))

frames_whole_bytes : All (All IsByte) frames_whole
unfolding flatten
frames_whole_bytes = (ground arith, tt)

-- Both datagrams leave from the local socket.
frames_run : (uplink net none (started new_relay) frames).relay.uplink ≡ 3
unfolding uplink devision drain drain_loop parse_frame handle_frame on_data send_datagram
frames_run = refl

uplink-chunks_example :
    ((uplink net (unpadder_of none) (started new_relay) frames).relay
      ≡ (uplink net (unpadder_of none) (started new_relay) frames_whole).relay)
    × ((uplink net (unpadder_of none) (started new_relay) frames).outcome
        ≡ (uplink net (unpadder_of none) (started new_relay) frames_whole).outcome)
uplink-chunks_example =
    uplink-chunks net none frames frames_whole frames_bytes frames_whole_bytes frames_same

abbrev rolls : ℕ → ℕ → ℕ
rolls i n = 2

abbrev padded : List (List ℕ)
padded =
    (1 ∷ 2 ∷ 3 ∷ 4 ∷ 5 ∷ 6 ∷ 7 ∷ 8 ∷ 9 ∷ 10 ∷ 11 ∷ 12 ∷ 13 ∷ 14 ∷ 15 ∷ 16 ∷ 1 ∷ 0 ∷ [])
    ∷ (3 ∷ 0 ∷ 2 ∷ 70 ∷ 71 ∷ 72 ∷ 0 ∷ 0 ∷ 33 ∷ [])
    ∷ []

padded_revision : flatten padded ≡ revision rolls alice (70 ∷ 71 ∷ 72 ∷ []) ++ (33 ∷ [])
unfolding flatten revision revision_loop xtls_padding
padded_revision = refl

feed-revision_example : (feed (new_unpadder alice) padded).1 ≡ (70 ∷ 71 ∷ 72 ∷ []) ++ (33 ∷ [])
feed-revision_example =
    feed-revision rolls alice (70 ∷ 71 ∷ 72 ∷ []) (33 ∷ []) padded refl
      (ground arith, (ground arith, tt)) padded_revision

-- The request in two pieces, with two bytes of payload behind it.
abbrev pub reads : List (List ℕ)
reads =
    (0 ∷ 1 ∷ 2 ∷ 3 ∷ 4 ∷ 5 ∷ 6 ∷ 7 ∷ 8 ∷ 9 ∷ 10 ∷ 11 ∷ [])
    ∷ (12 ∷ 13 ∷ 14 ∷ 15 ∷ 16 ∷ 0 ∷ 1 ∷ 1 ∷ 187 ∷ 2 ∷ 4 ∷ 97 ∷ 46 ∷ 105 ∷ 111 ∷ 22 ∷ 3 ∷ [])
    ∷ []

pub reads_flat : flatten reads ≡ example_bytes ++ (22 ∷ 3 ∷ [])
unfolding flatten
reads_flat = refl

read_request-encode_request_example : ReadsTo example_request (22 ∷ 3 ∷ []) (read_request reads)
read_request-encode_request_example =
    read_request-encode_request example_request example_bytes (22 ∷ 3 ∷ []) reads IsRequest-example
      encode_example (omega arith, (omega arith, tt)) reads_flat

abbrev response_reads : List (List ℕ)
response_reads =
    (0 ∷ 22 ∷ 10 ∷ 16 ∷ []) ∷ (codes "xtls-rprx-vision" ++ (18 ∷ 2 ∷ 1 ∷ 2 ∷ 80 ∷ [])) ∷ []

response_flat : flatten response_reads ≡ encode_response vision_response ++ (80 ∷ [])
unfolding flatten encode_response encode_addons addons_len put_varint varint_len
response_flat = refl
