-- ===== src/Carrier/PacketUp/Handle.antt =====
-- `Dispatcher` of packet_up.rs: the request is read and its session looked up or made. Requests are served
-- one after the other here.
use hold_the_donut.Prelude.{
  ℕ, ◌+◌, true, false, Bool, not, Option, none, some, List, [], ◌∷◌, ◌++◌, length, ltb,
  if◌then◌else◌, bytes_eq, Outcome, ok, err, panic,
}
use hold_the_donut.Carrier.Config.{
  Mode, packet_up, Decoy, ServerConfig, CarrierError, upload_chunk_too_large, hyper_error,
}
use hold_the_donut.Carrier.SessionId.{SessionId, Hex}
use hold_the_donut.Carrier.Extract.{Head, session_id, sequence}
use hold_the_donut.Carrier.PacketUp.{
  Bytes, Pipe, Session, SessionState, Status, ok_200, bad_request_400, not_found_404, fresh_state,
  uplink, downlink,
}
use hold_the_donut.Carrier.PacketUp.HandOver.{sends}
use hold_the_donut.Carrier.PacketUp.Runs.{empty_pipe}

-- What hyper yields of a body: a frame of bytes, another frame, or an error.
pub data Frame : Type 0 where
  part : Bytes → Frame
  trailers : Frame
  broken : Frame

-- `collect_body`
unfoldable pub collect_loop : ℕ → Bytes → List Frame → Outcome CarrierError Bytes
collect_loop max out [] = ok out
collect_loop max out (part d ∷ fs) =
    let rest = collect_loop max (out ++ d) fs in
    if ltb max (length out + length d) then err upload_chunk_too_large else rest
collect_loop max out (trailers ∷ fs) = collect_loop max out fs
collect_loop max out (broken ∷ fs) = err hyper_error

unfoldable pub collect_body : List Frame → ℕ → Outcome CarrierError Bytes
unfolding collect_loop
collect_body frames max = collect_loop max [] frames

pub record Request : Type 0 where
  pub head : Head
  pub body : List Frame
  pub remote : List ℕ

-- `sessions`, and what was sent on the accept channel.
abbrev pub Sessions : Type 0
Sessions = List (SessionId × (SessionState × Pipe))

pub record Dispatcher : Type 0 where
  pub sessions : Sessions
  pub accepts : List Session

-- `get_mut`, and `entry(sid).or_insert_with(…)` with what is then put there.
unfoldable pub find_session : SessionId → Sessions → Option (SessionState × Pipe)
find_session sid [] = none
find_session sid ((k, e) ∷ r) = if bytes_eq k sid then some e else find_session sid r

unfoldable pub put_session : SessionId → SessionState × Pipe → Sessions → Sessions
put_session sid e [] = (sid, e) ∷ []
put_session sid e ((k, d) ∷ r) =
    let rest = put_session sid e r in if bytes_eq k sid then (k, e) ∷ r else (k, d) ∷ rest

unfoldable pub or_fresh : SessionId → List ℕ → Option (SessionState × Pipe) → SessionState × Pipe
unfolding fresh_state
or_fresh sid remote none = (fresh_state sid remote, empty_pipe)
or_fresh sid remote (some e) = e

pub data Reply : Type 0 where
  status : Status → Reply
  download : Reply
  from_decoy : Decoy → Reply

-- `handle_uplink`
unfoldable pub handle_uplink :
    ServerConfig → Request → SessionId → ℕ → Dispatcher → Dispatcher × Outcome CarrierError Reply
unfolding collect_body find_session put_session or_fresh uplink sends
handle_uplink config req sid seq d = elim (collect_body (req.body) (config.max_post_bytes)) [
  | err e ↦ (d, err e)
  | panic ↦ (d, panic)
  | ok chunk ↦
      let entry = or_fresh sid (req.remote) (find_session sid (d.sessions)) in
      let r = uplink (config.max_buffered_posts) seq chunk entry in
      (
        record {
          sessions = put_session sid (r.0) (d.sessions);
          accepts = d.accepts ++ sends (r.1.1);
        },
        ok (status (r.1.0)),
      )
]

-- `handle_downlink`
unfoldable is_success : Status → Bool
is_success ok_200 = true
is_success s = false

unfoldable pub handle_downlink :
    Request → SessionId → Dispatcher → Dispatcher × Outcome CarrierError Reply
unfolding find_session put_session or_fresh downlink sends is_success
handle_downlink req sid d =
    let entry = or_fresh sid (req.remote) (find_session sid (d.sessions)) in
    let r = downlink (entry.0) in
    (
      record {
        sessions = put_session sid (r.0, entry.1) (d.sessions);
        accepts = d.accepts ++ sends (r.1.1);
      },
      ok (if is_success (r.1.0) then download else status (r.1.0)),
    )

unfoldable pub is_packet_up : Mode → Bool
is_packet_up packet_up = true
is_packet_up m = false

-- What a request gets that is of no session.
unfoldable self_steal : Option Decoy → Reply
self_steal none = status not_found_404
self_steal (some d) = from_decoy d

-- `handle`
unfoldable pub handle :
    Hex → ServerConfig → Request → Dispatcher → Dispatcher × Outcome CarrierError Reply
unfolding is_packet_up session_id sequence handle_uplink handle_downlink self_steal
handle hex config req d =
    if not (is_packet_up (config.mode))
    then (d, ok (status not_found_404))
    else elim (session_id hex (req.head) config) [
      | err e ↦ (d, ok (self_steal (config.decoy)))
      | panic ↦ (d, panic)
      | ok (sid, tail) ↦
          if req.head.is_get then handle_downlink req sid d else elim (sequence (req.head) config) [
            | err e ↦ (d, ok (status bad_request_400))
            | panic ↦ (d, panic)
            | ok seq ↦ handle_uplink config req sid seq d
          ]
    ]
