-- ===== src/Carrier/PacketUp/Ordered.antt =====
-- What a session's POSTs and GETs, one after the other, make of its pipe.
use hold_the_donut.Prelude.{
  ℕ, ◌≤◌, ◌<◌, ◌≡◌, refl, sym, ◌∙◌, ◌⊎◌, inl, inr, true, false, not, ◌&&◌, none, List, [], ◌∷◌,
  ◌++◌, append-nil, append_assoc, length, lt_or_le, ltb, leb, All, arith, Bool-cases, lt→ltb,
  le→ltb, le→leb,
}
use hold_the_donut.Carrier.PacketUp.{
  Bytes, Buffered, get, insert, live, Pipe, SessionState, ok_200, too_many_requests_429, write_all,
  write_chunks, answered, writing, advance, take_accept, begin_uplink, attach, finish_uplink,
  uplink,
}
use hold_the_donut.Carrier.PacketUp.Buffer.{All-insert, length-insert_le, get-insert_same}
use hold_the_donut.Carrier.PacketUp.Release.{
  Releases, release-Releases, upto, concat, Awaited, Releases-upto, Releases-Awaited, Releases-get,
  Releases-length_lt,
}

write_chunks-live :
    (p : Pipe) (cs : List Bytes)
    → p.is_open ≡ true
    → write_chunks live p cs ≡ record { received = p.received ++ concat cs; is_open = p.is_open }
unfolding write_chunks write_all concat
write_chunks-live p [] o = rw (append-nil (p.received)) refl
write_chunks-live p (c ∷ cs) o =
    rw
      (
        o,
        write_chunks-live (record { received = p.received ++ c; is_open = true }) cs refl,
        append_assoc (p.received) c (concat cs),
      )
      refl

-- Between two requests of a session whose stream of chunks is `sent`.
pub record InOrder (sent : ℕ → Bytes) (max : ℕ) (s : SessionState) (p : Pipe) : Type 0 where
  pub received : p.received ≡ upto sent (s.next_seq)
  pub is_open : p.is_open ≡ true
  pub writer : s.upload_wr ≡ live
  pub awaited : All (Awaited sent (s.next_seq)) (s.buffered)
  pub missing : get (s.next_seq) (s.buffered) ≡ none
  pub room : length (s.buffered) ≤ max

-- The outcome of a POST in the three cases of its number.
pub data Answered : ℕ → SessionState → ℕ → Type 0 where
  late : {max : ℕ} {s : SessionState} {k : ℕ} → k < s.next_seq → Answered max s k
  full :
      {max : ℕ} {s : SessionState} {k : ℕ}
      → s.next_seq < k
      → max ≤ length (s.buffered)
      → Answered max s k
  next : {max : ℕ} {s : SessionState} {k : ℕ} → k ≡ s.next_seq → Answered max s k
  kept :
      {max : ℕ} {s : SessionState} {k : ℕ}
      → s.next_seq < k
      → length (s.buffered) < max
      → Answered max s k

pub Answered-cases : (max : ℕ) (s : SessionState) (k : ℕ) → Answered max s k
Answered-cases max s k = elim (lt_or_le k (s.next_seq)) [
  | inl lt ↦ late lt
  | inr ge ↦ elim (lt_or_le (s.next_seq) k) [
    | inr le ↦ next (omega arith)
    | inl lt ↦ elim (lt_or_le (length (s.buffered)) max) [
      | inl fits ↦ kept lt fits
      | inr over ↦ full lt over
    ]
  ]
]

-- Handing over changes nothing else.
pub take_accept-rest :
    (s : SessionState)
    → let t = (take_accept s).0 in
      (t.buffered ≡ s.buffered) × (t.next_seq ≡ s.next_seq) × (t.downlink_rd ≡ s.downlink_rd)
unfolding take_accept
take_accept-rest s = elim (Bool-cases (not (s.accepted) && not (s.downlink_rd))) [
  | inl t ↦ rw t (refl, refl, refl)
  | inr f ↦ elim (Bool-cases (not (s.accepted))) [
    | inl t ↦ rw (f, t) (refl, refl, refl)
    | inr u ↦ rw (f, u) (refl, refl, refl)
  ]
]

pub begin_late :
    (max k : ℕ) (c : Bytes) (s : SessionState)
    → k < s.next_seq
    → begin_uplink max k c s ≡ (s, answered ok_200)
unfolding begin_uplink
begin_late max k c s lt = rw (lt→ltb k (s.next_seq) lt) refl

pub begin_full :
    (max k : ℕ) (c : Bytes) (s : SessionState)
    → s.next_seq < k
    → max ≤ length (s.buffered)
    → begin_uplink max k c s ≡ (s, answered too_many_requests_429)
unfolding begin_uplink
begin_full max k c s lt le =
    rw
      (
        le→ltb k (s.next_seq) (omega arith),
        lt→ltb (s.next_seq) k lt,
        le→leb max (length (s.buffered)) le,
      )
      refl

-- A POST that is taken in.
pub begin_taken :
    (max k : ℕ) (c : Bytes) (s : SessionState)
    → ltb k (s.next_seq) ≡ false
    → (ltb (s.next_seq) k && leb max (length (s.buffered))) ≡ false
    → let r = advance k c s in
      let a = take_accept (r.0) in begin_uplink max k c s ≡ (a.0, writing (s.upload_wr) (r.1) (a.1))
unfolding begin_uplink
begin_taken max k c s f g = rw (f, g) refl

-- The invariant of a session at rest.
pub advance-InOrder :
    (sent : ℕ → Bytes) (max k : ℕ) (s : SessionState) (p : Pipe)
    → InOrder sent max s p
    → s.next_seq ≤ k
    → k < 18446744073709551615
    → (s.next_seq ≡ k) ⊎ (length (s.buffered) < max)
    → let r = advance k (sent k) s in
      InOrder sent max (attach live (r.0)) (write_chunks live p (r.1))
unfolding advance attach
advance-InOrder sent max k s p i le lt fits =
    let filled = insert k (sent k) (s.buffered) in
    let rel = release-Releases (length filled) (s.next_seq) filled (omega arith) in
    let aw =
      All-insert (Awaited sent (s.next_seq)) k (sent k) (s.buffered) (refl, le, lt) (i.awaited) in
    let (later, up, fewer) = Releases-Awaited sent aw rel in
    rw (write_chunks-live p _ (i.is_open)) (record {
      received = (rw (i.received) (Releases-upto sent aw rel));
      is_open = i.is_open;
      writer = refl;
      awaited = later;
      missing = Releases-get rel;
      room = room_left fewer rel fits;
    })
  where
    room_left :
        {cs : List Bytes} {m : ℕ} {b : Buffered}
        → length b ≤ length (insert k (sent k) (s.buffered))
        → Releases (s.next_seq) (insert k (sent k) (s.buffered)) cs m b
        → (s.next_seq ≡ k) ⊎ (length (s.buffered) < max)
        → length b ≤ max
    room_left fewer rel (inr fits) = omega (arith, length-insert_le k (sent k) (s.buffered))
    room_left fewer rel (inl same) =
        let there = get-insert_same k (sent k) (s.buffered) in
        omega (
          arith,
          i.room,
          length-insert_le k (sent k) (s.buffered),
          Releases-length_lt (sent k) (rw same there) rel,
        )

live_writer :
    (sent : ℕ → Bytes) (max : ℕ) (s t : SessionState) (p : Pipe)
    → t.buffered ≡ s.buffered
    → t.next_seq ≡ s.next_seq
    → t.upload_wr ≡ s.upload_wr
    → InOrder sent max s p
    → InOrder sent max t p
live_writer sent max s t p b n w i = record {
  received = (rw n (i.received));
  is_open = i.is_open;
  writer = w ∙ i.writer;
  awaited = (rw (b, n) (i.awaited));
  missing = (rw (b, n) (i.missing));
  room = (rw b (i.room));
}

attach-accept :
    (sent : ℕ → Bytes) (max : ℕ) (s : SessionState) (p : Pipe)
    → InOrder sent max (attach live s) p
    → InOrder sent max (attach live ((take_accept s).0)) p
unfolding attach
attach-accept sent max s p i =
    let (b, n, d) = take_accept-rest s in
    live_writer sent max (attach live s) (attach live ((take_accept s).0)) p b n refl i

pub test_taken :
    (max k : ℕ) (s : SessionState)
    → (s.next_seq ≡ k) ⊎ (length (s.buffered) < max)
    → (ltb (s.next_seq) k && leb max (length (s.buffered))) ≡ false
test_taken max k s (inl same) = ground arith
test_taken max k s (inr less) = ground arith

uplink_in :
    (sent : ℕ → Bytes) (max k : ℕ) (s : SessionState) (p : Pipe)
    → InOrder sent max s p
    → s.next_seq ≤ k
    → k < 18446744073709551615
    → (s.next_seq ≡ k) ⊎ (length (s.buffered) < max)
    → let q = (uplink max k (sent k) (s, p)).0 in InOrder sent max (q.0) (q.1)
unfolding finish_uplink uplink
uplink_in sent max k s p i le lt fits =
    rw
      (
        uplink,
        begin_taken max k (sent k) s (le→ltb k (s.next_seq) le) (test_taken max k s fits),
        i.writer,
      )
      (attach-accept sent max _ _ (advance-InOrder sent max k s p i le lt fits))

pub uplink-InOrder :
    (sent : ℕ → Bytes) (max k : ℕ) (s : SessionState) (p : Pipe)
    → InOrder sent max s p
    → k < 18446744073709551615
    → let q = (uplink max k (sent k) (s, p)).0 in InOrder sent max (q.0) (q.1)
unfolding finish_uplink uplink
uplink-InOrder sent max k s p i lt = elim (Answered-cases max s k) [
  | late less ↦ rw (uplink, begin_late max k (sent k) s less) i
  | full more over ↦ rw (uplink, begin_full max k (sent k) s more over) i
  | next same ↦ uplink_in sent max k s p i (omega arith) lt (inl (sym same))
  | kept more fits ↦ uplink_in sent max k s p i (omega arith) lt (inr fits)
]
