-- ===== src/Carrier/PacketUp.antt =====
-- crates/donut-carrier/src/server/packet_up.rs: one session's upload is many numbered POSTs, put in order
-- here, and its download one GET.
--
-- A session's pipe is what the server's user reads: `received` is all that was written to it, and writes fail
-- once the user has dropped it. The pipe's capacity of 64 KiB is left out: a write that waits for room is taken
-- to go on once the user has read. Where nobody reads there is no such answer: a session is handed over only
-- behind the write of its first POST, so one that is longer than the pipe is never answered by the code.
pub mod Buffer
pub mod Release
pub mod Ordered
pub mod Arrived
pub mod Runs
pub mod Overlap
pub mod HandOver
pub mod Handle
pub mod Isolation
use hold_the_donut.Prelude.{
  ℕ, zero, suc, ◌+◌, ◌%◌, Bool, true, false, not, ◌&&◌, Option, none, some, List, [], ◌∷◌, ◌++◌,
  length, ltb, leb, ◌==◌, if◌then◌else◌, bytes_eq, Outcome, ok, err,
}
use hold_the_donut.Carrier.Config.{
  Mode, stream_one, stream_up, packet_up, Decoy, ServerConfig, CarrierError, upload_chunk_too_large,
  hyper_error,
}
use hold_the_donut.Carrier.SessionId.{SessionId, Hex}
use hold_the_donut.Carrier.Extract.{Head, session_id, sequence}

abbrev pub Bytes : Type 0
Bytes = List ℕ

-- `super::Session`, less its stream, which is the pipe.
pub record Session : Type 0 where
  pub session_id : SessionId
  pub remote : List ℕ

-- `BTreeMap<u64, Bytes>`
abbrev pub Buffered : Type 0
Buffered = List (ℕ × Bytes)

unfoldable pub get : ℕ → Buffered → Option Bytes
get k [] = none
get k ((j, c) ∷ r) = if j == k then some c else get k r

unfoldable pub insert : ℕ → Bytes → Buffered → Buffered
insert k c [] = (k, c) ∷ []
insert k c ((j, d) ∷ r) = let rest = insert k c r in if j == k then (k, c) ∷ r else (j, d) ∷ rest

unfoldable pub remove : ℕ → Buffered → Buffered
remove k [] = []
remove k ((j, c) ∷ r) = let rest = remove k r in if j == k then rest else (j, c) ∷ rest

-- The write half of the pipe, or the one of `duplex(1).1`, whose other end is dropped.
pub data Writer : Type 0 where
  live : Writer
  dangling : Writer

pub record SessionState : Type 0 where
  pub buffered : Buffered
  pub next_seq : ℕ
  pub upload_wr : Writer
  pub downlink_rd : Bool
  pub accept_pending : Option Session
  pub accepted : Bool

pub record Pipe : Type 0 where
  pub received : Bytes
  pub is_open : Bool

-- `fresh_state`: `downlink_rd` tells whether the read half is still there.
unfoldable pub fresh_state : SessionId → List ℕ → SessionState
fresh_state sid remote = record {
  buffered = [];
  next_seq = 0;
  upload_wr = live;
  downlink_rd = true;
  accept_pending = some (record { session_id = sid; remote = remote });
  accepted = false;
}

-- `write_all` and whether it succeeds. An empty buffer is not written at all.
unfoldable pub is_nil : Bytes → Bool
is_nil [] = true
is_nil (b ∷ bs) = false

unfoldable pub write_all : Writer → Pipe → Bytes → Pipe × Bool
unfolding is_nil
write_all dangling p c = (p, is_nil c)
write_all live p c =
    if p.is_open
    then (record { received = p.received ++ c; is_open = p.is_open }, true)
    else (p, is_nil c)

-- The loop that writes the released chunks, up to the first failure.
unfoldable pub write_chunks : Writer → Pipe → List Bytes → Pipe
unfolding write_all
write_chunks w p [] = p
write_chunks w p (c ∷ cs) =
    let r = write_all w p c in let rest = write_chunks w (r.0) cs in if r.1 then rest else r.0

-- `entry.next_seq += 1`
unfoldable pub u64_succ : ℕ → ℕ
u64_succ n = (n + 1) % 18446744073709551616

-- The loop that takes the ordered prefix out of the buffer. Each round removes a chunk, so as many rounds as
-- there are chunks are enough.
unfoldable pub release : ℕ → ℕ → Buffered → List Bytes × (ℕ × Buffered)
unfolding get remove
release zero next b = ([], (next, b))
release (suc fuel) next b = elim (get next b) [
  | none ↦ ([], (next, b))
  | some c ↦ let rest = release fuel (u64_succ next) (remove next b) in (c ∷ rest.0, rest.1)
]

-- What `handle_uplink` goes on with when it has let go of the lock: an answer, or chunks to write by the
-- writer it has taken out, and a session to hand over.
pub data Status : Type 0 where
  ok_200 : Status
  bad_request_400 : Status
  not_found_404 : Status
  conflict_409 : Status
  too_many_requests_429 : Status

pub data UplinkStart : Type 0 where
  answered : Status → UplinkStart
  writing : Writer → List Bytes → Option Session → UplinkStart

-- The first use of the entry: whether the session is handed over, and the state after it.
unfoldable pub take_accept : SessionState → SessionState × Option Session
take_accept s =
    if not (s.accepted) && not (s.downlink_rd)
    then (s, none)
    else if not (s.accepted)
    then (
      record {
        buffered = s.buffered;
        next_seq = s.next_seq;
        upload_wr = s.upload_wr;
        downlink_rd = s.downlink_rd;
        accept_pending = none;
        accepted = true;
      },
      s.accept_pending,
    )
    else (s, none)

-- The chunk is put into the buffer, the ordered prefix and the writer are taken out.
unfoldable pub advance : ℕ → Bytes → SessionState → SessionState × List Bytes
unfolding release insert
advance seq chunk s =
    let filled = insert seq chunk (s.buffered) in
    let r = release (length filled) (s.next_seq) filled in
    (
      record {
        buffered = r.1.1;
        next_seq = r.1.0;
        upload_wr = dangling;
        downlink_rd = s.downlink_rd;
        accept_pending = s.accept_pending;
        accepted = s.accepted;
      },
      r.0,
    )

-- The part of `handle_uplink` under its first lock, for an entry that is there.
unfoldable pub begin_uplink : ℕ → ℕ → Bytes → SessionState → SessionState × UplinkStart
unfolding advance take_accept
begin_uplink max seq chunk s =
    if ltb seq (s.next_seq)
    then (s, answered ok_200)
    else if ltb (s.next_seq) seq && leb max (length (s.buffered))
    then (s, answered too_many_requests_429)
    else let r = advance seq chunk s in
      let a = take_accept (r.0) in (a.0, writing (s.upload_wr) (r.1) (a.1))

-- The re-attachment under its second lock.
unfoldable pub attach : Writer → SessionState → SessionState
attach w s = record {
  buffered = s.buffered;
  next_seq = s.next_seq;
  upload_wr = w;
  downlink_rd = s.downlink_rd;
  accept_pending = s.accept_pending;
  accepted = s.accepted;
}

-- The rest of `handle_uplink`, where no other request of the session comes between its two locks.
unfoldable pub finish_uplink :
    SessionState × UplinkStart → Pipe → (SessionState × Pipe) × (Status × Option Session)
unfolding write_chunks attach
finish_uplink (s, answered status) p = ((s, p), (status, none))
finish_uplink (s, writing w chunks accept) p =
    ((attach w s, write_chunks w p chunks), (ok_200, accept))

-- `handle_uplink` of an entry.
unfoldable pub uplink :
    ℕ → ℕ → Bytes → SessionState × Pipe → (SessionState × Pipe) × (Status × Option Session)
unfolding begin_uplink finish_uplink
uplink max seq chunk (s, p) = finish_uplink (begin_uplink max seq chunk s) p

-- `handle_downlink` of an entry: the answer's body, if it is not refused, is the pipe's other direction.
unfoldable pub downlink : SessionState → SessionState × (Status × Option Session)
downlink s = (
  record {
    buffered = s.buffered;
    next_seq = s.next_seq;
    upload_wr = s.upload_wr;
    downlink_rd = false;
    accept_pending = if s.accepted then s.accept_pending else none;
    accepted = true;
  },
  if s.downlink_rd
      then (ok_200, if s.accepted then none else s.accept_pending)
      else (conflict_409, none),
)
