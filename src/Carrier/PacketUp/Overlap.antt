-- ===== src/Carrier/PacketUp/Overlap.antt =====
-- Two POSTs of a session at once: the second one begins while the first has the writer.
use hold_the_donut.Prelude.{
  ℕ, ◌≤◌, ◌<◌, ◌≡◌, refl, ◌∙◌, sym, ◌⊎◌, inl, inr, some, Bool-cases, not, ◌&&◌, List, [], ◌∷◌,
  length, le→ltb, All, arith,
}
use hold_the_donut.Carrier.PacketUp.{
  Bytes, get, insert, dangling, Pipe, SessionState, ok_200, write_all, write_chunks, is_nil, attach,
  advance, take_accept, begin_uplink, finish_uplink, uplink,
}
use hold_the_donut.Carrier.PacketUp.Buffer.{All-insert, get-insert_same}
use hold_the_donut.Carrier.PacketUp.Release.{release-Releases, Awaited, Releases-lt}
use hold_the_donut.Carrier.PacketUp.Ordered.{
  InOrder, advance-InOrder, begin_taken, take_accept-rest, test_taken,
}

write_chunks-dangling : (p : Pipe) (cs : List Bytes) → write_chunks dangling p cs ≡ p
unfolding write_chunks write_all
write_chunks-dangling p [] = refl
write_chunks-dangling p (c ∷ cs) = elim (Bool-cases (is_nil c)) [
  | inl t ↦ rw t (write_chunks-dangling p cs)
  | inr f ↦ rw f refl
]

take_accept-upload_wr : (s : SessionState) → (take_accept s).0.upload_wr ≡ s.upload_wr
unfolding take_accept
take_accept-upload_wr s = elim (Bool-cases (not (s.accepted) && not (s.downlink_rd))) [
  | inl t ↦ rw t refl
  | inr f ↦ elim (Bool-cases (not (s.accepted))) [ inl t ↦ rw (f, t) refl | inr u ↦ rw (f, u) refl ]
]

advance-next_seq_lt :
    (sent : ℕ → Bytes) (k : ℕ) (s : SessionState)
    → All (Awaited sent (s.next_seq)) (s.buffered)
    → k ≡ s.next_seq
    → k < 18446744073709551615
    → k < (advance k (sent k) s).0.next_seq
unfolding advance
advance-next_seq_lt sent k s aw same lt =
    let filled = insert k (sent k) (s.buffered) in
    let aw' =
      All-insert (Awaited sent (s.next_seq)) k (sent k) (s.buffered) (refl, omega (arith, same), lt)
        aw in
    let rel = release-Releases (length filled) (s.next_seq) filled (omega arith) in
    let there = get-insert_same k (sent k) (s.buffered) in
    omega (arith, same, Releases-lt sent (sent k) aw' (found there) rel)
  where
    found :
        get k (insert k (sent k) (s.buffered)) ≡ some (sent k)
        → get (s.next_seq) (insert k (sent k) (s.buffered)) ≡ some (sent k)
    found e = rw (sym same) e

advance-upload_wr : (k : ℕ) (c : Bytes) (s : SessionState) → (advance k c s).0.upload_wr ≡ dangling
unfolding advance
advance-upload_wr k c s = refl

-- The next chunk, taken in while the writer is away.
dangling_lost :
    (sent : ℕ → Bytes) (max k : ℕ) (s : SessionState) (p : Pipe)
    → s.upload_wr ≡ dangling
    → All (Awaited sent (s.next_seq)) (s.buffered)
    → k ≡ s.next_seq
    → k < 18446744073709551615
    → let q = uplink max k (sent k) (s, p) in
      (q.1.0 ≡ ok_200) × (q.0.1 ≡ p) × (k < q.0.0.next_seq) × (q.0.0.upload_wr ≡ dangling)
unfolding uplink finish_uplink attach
dangling_lost sent max k s p w aw same lt =
    let (b, n, d) = take_accept-rest ((advance k (sent k) s).0) in
    rw
      (
        begin_taken max k (sent k) s (le→ltb k (s.next_seq) (omega (arith, same)))
            (test_taken max k s (inl (sym same))),
        w,
        write_chunks-dangling p ((advance k (sent k) s).1),
        n,
      )
      (refl, refl, advance-next_seq_lt sent k s aw same lt, refl)

-- The code loses a chunk when two POSTs of a session overlap. Let a POST of number j be taken in, in a session
-- at rest. Until it gives the writer back, a POST of the number k awaited next is answered with success and k
-- counts as released, so that its chunk will not be taken again, but the pipe is left as it is, and afterwards
-- the session may be left with a writer that reaches nobody. The numbers are below the largest u64.
pub begin_uplink-uplink-lost :
    (sent : ℕ → Bytes) (max j k : ℕ) (s : SessionState) (p p' : Pipe)
    → InOrder sent max s p
    → s.next_seq ≤ j
    → (s.next_seq ≡ j) ⊎ (length (s.buffered) < max)
    → j < 18446744073709551615
    → k < 18446744073709551615
    → k ≡ (begin_uplink max j (sent j) s).0.next_seq
    → let q = uplink max k (sent k) ((begin_uplink max j (sent j) s).0, p') in
      (q.1.0 ≡ ok_200) × (q.0.1 ≡ p') × (k < q.0.0.next_seq) × (q.0.0.upload_wr ≡ dangling)
unfolding attach
begin_uplink-uplink-lost sent max j k s p p' i le fits ltj ltk same =
    let e = begin_taken max j (sent j) s (le→ltb j (s.next_seq) le) (test_taken max j s fits) in
    let r = (advance j (sent j) s).0 in
    let (b, n, d) = take_accept-rest r in
    let rest = advance-InOrder sent max j s p i le ltj fits in
    let same' : k ≡ (take_accept r).0.next_seq = (rw e at same) in
    rw e (
      dangling_lost sent max k ((take_accept r).0) p'
        (take_accept-upload_wr r ∙ advance-upload_wr j (sent j) s) (rw (b, n) (rest.awaited)) same'
        ltk)
