-- ===== src/Carrier/PacketUp/Arrived.antt =====
-- A chunk whose POST was answered with success stays until it is released.
use hold_the_donut.Prelude.{
  ℕ, ◌≤◌, ◌<◌, ◌≡◌, ◌≢◌, refl, sym, ◌⊎◌, inl, inr, false, length, arith, Bool-cases, le→ltb, ◌==◌,
  ==_iff,
}
use hold_the_donut.Carrier.PacketUp.{
  Bytes, Buffered, insert, release, Pipe, SessionState, ok_200, advance, attach, finish_uplink,
  uplink,
}
use hold_the_donut.Carrier.PacketUp.Buffer.{All-insert, get-insert_same, get-insert_other}
use hold_the_donut.Carrier.PacketUp.Release.{release-Releases, Awaited, Has, Releases-Has}
use hold_the_donut.Carrier.PacketUp.Ordered.{
  InOrder, Answered-cases, late, full, next, kept, begin_late, begin_full, begin_taken,
  take_accept-rest, test_taken,
}

-- A chunk that is taken in has come, and those that had come still have.
uplink_in-Has :
    (sent : ℕ → Bytes) (max k j : ℕ) (s : SessionState) (p : Pipe)
    → InOrder sent max s p
    → s.next_seq ≤ k
    → k < 18446744073709551615
    → (s.next_seq ≡ k) ⊎ (length (s.buffered) < max)
    → Has (s.next_seq) (insert k (sent k) (s.buffered)) j
    → let q = (uplink max k (sent k) (s, p)).0.0 in Has (q.next_seq) (q.buffered) j
unfolding finish_uplink uplink attach
uplink_in-Has sent max k j s p i le lt fits has =
    let filled = insert k (sent k) (s.buffered) in
    let rel = release-Releases (length filled) (s.next_seq) filled (omega arith) in
    let aw =
      All-insert (Awaited sent (s.next_seq)) k (sent k) (s.buffered) (refl, le, lt) (i.awaited) in
    let (b, n, d) = take_accept-rest ((advance k (sent k) s).0) in
    rw (begin_taken max k (sent k) s (le→ltb k (s.next_seq) le) (test_taken max k s fits), b, n)
      (advance-Has (Releases-Has sent j aw rel has))
  where
    advance-Has :
        let filled = insert k (sent k) (s.buffered) in
        let r = release (length filled) (s.next_seq) filled in
        let t = (advance k (sent k) s).0 in Has (r.1.0) (r.1.1) j → Has (t.next_seq) (t.buffered) j
    advance-Has h = h

insert-Has : (k j n : ℕ) (c : Bytes) (b : Buffered) → Has n b j → Has n (insert k c b) j
insert-Has k j n c b (inl less) = inl less
insert-Has k j n c b (inr there) = elim (Bool-cases (k == j)) [
  | inl t ↦ inr (rw (sym ((==_iff k j).0 t), get-insert_same k c b) (λ e. cc))
  | inr f ↦ inr (rw (get-insert_other j k c b (ne_of f)) there)
]
  where
    ne_of : {a b : ℕ} → (a == b) ≡ false → a ≢ b
    ne_of f = ground arith

pub uplink-Has_old :
    (sent : ℕ → Bytes) (max k j : ℕ) (s : SessionState) (p : Pipe)
    → InOrder sent max s p
    → k < 18446744073709551615
    → Has (s.next_seq) (s.buffered) j
    → let q = (uplink max k (sent k) (s, p)).0.0 in Has (q.next_seq) (q.buffered) j
unfolding finish_uplink uplink
uplink-Has_old sent max k j s p i lt has =
    let has' = insert-Has k j (s.next_seq) (sent k) (s.buffered) has in
    elim (Answered-cases max s k) [
      | late less ↦ rw (begin_late max k (sent k) s less) has
      | full more over ↦ rw (begin_full max k (sent k) s more over) has
      | next same ↦ uplink_in-Has sent max k j s p i (omega arith) lt (inl (sym same)) has'
      | kept more fits ↦ uplink_in-Has sent max k j s p i (omega arith) lt (inr fits) has'
    ]

pub uplink-Has_new :
    (sent : ℕ → Bytes) (max k : ℕ) (s : SessionState) (p : Pipe)
    → InOrder sent max s p
    → k < 18446744073709551615
    → (uplink max k (sent k) (s, p)).1.0 ≡ ok_200
    → let q = (uplink max k (sent k) (s, p)).0.0 in Has (q.next_seq) (q.buffered) k
unfolding finish_uplink uplink
uplink-Has_new sent max k s p i lt ok =
    let has' : Has (s.next_seq) (insert k (sent k) (s.buffered)) k =
      inr (rw (get-insert_same k (sent k) (s.buffered)) (λ e. cc)) in
    elim (Answered-cases max s k) [
      | late less ↦ rw (begin_late max k (sent k) s less) (inl less)
      | full more over ↦ cc (rw (begin_full max k (sent k) s more over) at ok)
      | next same ↦ uplink_in-Has sent max k k s p i (omega arith) lt (inl (sym same)) has'
      | kept more fits ↦ uplink_in-Has sent max k k s p i (omega arith) lt (inr fits) has'
    ]
