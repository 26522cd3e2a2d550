-- ===== src/Server/Mux/Relay.antt =====
-- `mux_relay` of crates/donut-server/src/mux.rs: the loop that takes frames off the buffer.
use hold_the_donut.Prelude.{
  ℕ, zero, suc, ◌+◌, ◌||◌, none, some, List, [], ◌∷◌, ◌++◌, length, ◌==◌, if◌then◌else◌, Outcome,
  ok, err, panic,
}
use hold_the_donut.Server.Mux.{
  Frame, MuxError, status_new, status_keep, status_end, status_keepalive, unknown_status,
  parse_frame,
}
use hold_the_donut.Server.Mux.Egress.{Net, UdpSession, default_session, Action, send_datagram}

-- The state of the loop, less the buffer: the sub-sessions, what has left so far, and the bytes that the
-- metrics count up.
pub record Relay : Type 0 where
  pub sessions : List (ℕ × UdpSession)
  actions : List Action
  pub uplink : ℕ

abbrev pub new_relay : Relay
new_relay = record { sessions = []; actions = []; uplink = 0 }

-- `sessions.entry(sid).or_default()`, read.
unfoldable pub session_of : ℕ → List (ℕ × UdpSession) → UdpSession
session_of sid [] = default_session
session_of sid ((k, s) ∷ sessions) = if k == sid then s else session_of sid sessions

-- The map with `sid` removed.
unfoldable pub remove : ℕ → List (ℕ × UdpSession) → List (ℕ × UdpSession)
remove sid [] = []
remove sid ((k, s) ∷ sessions) =
    let rest = remove sid sessions in if k == sid then rest else (k, s) ∷ rest

unfoldable pub insert : ℕ → UdpSession → List (ℕ × UdpSession) → List (ℕ × UdpSession)
unfolding remove
insert sid s sessions = (sid, s) ∷ remove sid sessions

-- `New` and `Keep`.
unfoldable pub on_data : Net → Frame → Relay → Relay
unfolding insert session_of send_datagram
on_data net f r = elim f.data_of [
  | none ↦ record r { sessions = insert f.sid (session_of f.sid r.sessions) r.sessions }
  | some bytes ↦
      let (s, out) = send_datagram net (session_of f.sid r.sessions) f.target bytes in
      record {
        sessions = insert f.sid s r.sessions;
        actions = r.actions ++ out;
        uplink = r.uplink + length bytes;
      }
]

-- The `match frame.status`.
unfoldable pub handle_frame : Net → Frame → Relay → Relay × Outcome MuxError Unit
unfolding on_data remove
handle_frame net f r =
    if f.status == status_new || f.status == status_keep
    then (on_data net f r, ok tt)
    else if f.status == status_end
    then (record r { sessions = remove f.sid r.sessions }, ok tt)
    else if f.status == status_keepalive
    then (r, ok tt)
    else (r, err unknown_status)

-- How draining the buffer ends, with the bytes that stay in it.
pub record Drained : Type 0 where
  pub relay : Relay
  pub inbuf : List ℕ
  pub outcome : Outcome MuxError Unit

-- Before the first chunk.
abbrev pub started : Relay → Drained
started r = record { relay = r; inbuf = []; outcome = ok tt }

-- After a frame: its handler's `?`, and the rest of the loop.
unfoldable pub after_frame :
    (Relay → List ℕ → Drained) → Relay × Outcome MuxError Unit → List ℕ → Drained
after_frame again (now, ok u) left = again now left
after_frame again (now, err e) left = record { relay = now; inbuf = left; outcome = err e }
after_frame again (now, panic) left = record { relay = now; inbuf = left; outcome = panic }

-- `while let Some(frame) = parse_frame(&mut inbuf)?`, on fuel.
unfoldable pub drain_loop : Net → ℕ → Relay → List ℕ → Drained
unfolding after_frame
drain_loop net zero r buf = record { relay = r; inbuf = buf; outcome = ok tt }
drain_loop net (suc fuel) r buf =
    let again = drain_loop net fuel in
    elim (parse_frame buf) [
      | err e ↦ record { relay = r; inbuf = buf; outcome = err e }
      | panic ↦ record { relay = r; inbuf = buf; outcome = panic }
      | ok none ↦ record { relay = r; inbuf = buf; outcome = ok tt }
      | ok (some (f, left)) ↦ after_frame again (handle_frame net f r) left
    ]

-- A frame takes a byte at least.
unfoldable pub drain : Net → Relay → List ℕ → Drained
unfolding drain_loop
drain net r buf = drain_loop net (suc (length buf)) r buf

-- Chunks from the tunnel, each added to the buffer and drained; an error ends the relay.
unfoldable pub relay_all : Net → Drained → List (List ℕ) → Drained
unfolding drain
relay_all net d [] = d
relay_all net d (c ∷ chunks) =
    let again = λ (d' : Drained). relay_all net d' chunks in
    elim d.outcome [ ok u ↦ again (drain net d.relay (d.inbuf ++ c)) | err e ↦ d | panic ↦ d ]
