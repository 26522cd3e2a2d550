-- ===== src/Carrier/PacketUp/HandOver.antt =====
-- When packet_up.rs hands a session over to the server.
use hold_the_donut.Prelude.{
  ℕ, ◌≤◌, ◌<◌, ◌≡◌, refl, ◌∙◌, sym, ◌⊎◌, inl, inr, true, false, Bool, Bool-cases, ◌||◌, Option,
  none, some, List, [], ◌∷◌, ◌++◌, length, le→ltb, if◌then◌else◌, arith,
}
use hold_the_donut.Carrier.SessionId.{SessionId}
use hold_the_donut.Carrier.PacketUp.{
  Bytes, Pipe, Session, SessionState, Status, ok_200, attach, advance, take_accept, finish_uplink,
  uplink, downlink, fresh_state,
}
use hold_the_donut.Carrier.PacketUp.Ordered.{
  begin_taken, begin_late, begin_full, test_taken, Answered-cases, late, full, next, kept,
}
use hold_the_donut.Carrier.PacketUp.Runs.{Call, post, get_down, serve, empty_pipe, served, run}

-- What is sent on the accept channel.
unfoldable pub sends : Option Session → List Session
sends none = []
sends (some s) = s ∷ []

module _ (sent : ℕ → Bytes) (max : ℕ) where
  unfoldable pub handed : Call → SessionState × Pipe → List Session
  unfolding sends uplink downlink
  handed (post k) (s, p) = sends ((uplink max k (sent k) (s, p)).1.1)
  handed get_down (s, p) = sends ((downlink s).1.1)

  unfoldable pub run_handed : List Call → SessionState × Pipe → List Session
  unfolding handed serve
  run_handed [] sp = []
  run_handed (c ∷ cs) sp = handed c sp ++ run_handed cs ((serve sent max c sp).0)

unfoldable is_ok : Status → Bool
is_ok ok_200 = true
is_ok st = false

unfoldable pub any_ok : List (Call × Status) → Bool
unfolding is_ok
any_ok [] = false
any_ok ((c, st) ∷ r) = is_ok st || any_ok r

take_accept_done :
    (s : SessionState)
    → s.accepted ≡ true
    → ((take_accept s).0.accepted ≡ true) × ((take_accept s).1 ≡ none)
unfolding take_accept
take_accept_done s a = rw a (refl, refl)

take_accept_first :
    (s : SessionState)
    → s.accepted ≡ false
    → s.downlink_rd ≡ true
    → ((take_accept s).0.accepted ≡ true) × ((take_accept s).1 ≡ s.accept_pending)
unfolding take_accept
take_accept_first s a d = rw (a, d) (refl, refl)

advance-rest :
    (k : ℕ) (c : Bytes) (s : SessionState)
    → let t = (advance k c s).0 in
      (t.accepted ≡ s.accepted)
      × (t.downlink_rd ≡ s.downlink_rd)
      × (t.accept_pending ≡ s.accept_pending)
unfolding advance
advance-rest k c s = (refl, refl, refl)

module _ (sent : ℕ → Bytes) (max : ℕ) where
  -- A session that was handed over stays so, and is not handed over again.
  uplink_done :
      (k : ℕ) (s : SessionState) (p : Pipe)
      → s.accepted ≡ true
      → let q = uplink max k (sent k) (s, p) in (q.0.0.accepted ≡ true) × (q.1.1 ≡ none)
  unfolding uplink finish_uplink attach
  uplink_done k s p a = elim (Answered-cases max s k) [
    | late less ↦ rw (begin_late max k (sent k) s less) (a, refl)
    | full more over ↦ rw (begin_full max k (sent k) s more over) (a, refl)
    | next same ↦
        rw
          (begin_taken max k (sent k) s (le→ltb k (s.next_seq) (omega (arith, same)))
            (test_taken max k s (inl (sym same))))
          (taken)
    | kept more fits ↦
        rw
          (begin_taken max k (sent k) s (le→ltb k (s.next_seq) (omega arith))
            (test_taken max k s (inr fits)))
          (taken)
  ]
    where
      taken :
          ((take_accept ((advance k (sent k) s).0)).0.accepted ≡ true)
          × ((take_accept ((advance k (sent k) s).0)).1 ≡ none)
      taken = let (acc, d, pend) = advance-rest k (sent k) s in take_accept_done _ (acc ∙ a)

  serve_done :
      (c : Call) (sp : SessionState × Pipe)
      → sp.0.accepted ≡ true
      → ((serve sent max c sp).0.0.accepted ≡ true) × (handed sent max c sp ≡ [])
  unfolding serve handed sends downlink
  serve_done (post k) (s, p) a =
      let (acc, none_sent) = uplink_done k s p a in (acc, rw none_sent refl)
  serve_done get_down (s, p) a = (refl, downlink_none a (Bool-cases (s.downlink_rd)))
    where
      downlink_none :
          s.accepted ≡ true
          → (s.downlink_rd ≡ true) ⊎ (s.downlink_rd ≡ false)
          → sends ((downlink s).1.1) ≡ []
      downlink_none a (inl t) = rw (t, a) refl
      downlink_none a (inr f) = rw (f) refl

  run_done :
      (cs : List Call) (sp : SessionState × Pipe)
      → sp.0.accepted ≡ true
      → run_handed sent max cs sp ≡ []
  unfolding run_handed
  run_done [] sp a = refl
  run_done (c ∷ cs) sp a =
      let (acc, e) = serve_done c sp a in rw (e) (run_done cs ((serve sent max c sp).0) acc)

-- The session of the first request.
abbrev pub session_of : SessionId → List ℕ → Session
session_of sid remote = record { session_id = sid; remote = remote }

module _ (sent : ℕ → Bytes) (max : ℕ) (sid : SessionId) (remote : List ℕ) where
  abbrev fresh : SessionState × Pipe
  fresh = (fresh_state sid remote, empty_pipe)

  fresh_acc : (fresh_state sid remote).accepted ≡ false
  unfolding fresh_state
  fresh_acc = refl

  fresh_rd : (fresh_state sid remote).downlink_rd ≡ true
  unfolding fresh_state
  fresh_rd = refl

  fresh_pend : (fresh_state sid remote).accept_pending ≡ some (session_of sid remote)
  unfolding fresh_state
  fresh_pend = refl

  -- The first request either succeeds, and hands the session over, or leaves all as it is.
  abbrev First : Call → Type 0
  First c =
      (((serve sent max c fresh).1 ≡ ok_200)
        × ((serve sent max c fresh).0.0.accepted ≡ true)
        × (handed sent max c fresh ≡ session_of sid remote ∷ []))
      ⊎ ((is_ok ((serve sent max c fresh).1) ≡ false)
          × ((serve sent max c fresh).0 ≡ fresh)
          × (handed sent max c fresh ≡ []))

  none_before : (k : ℕ) → k < (fresh_state sid remote).next_seq → First (post k)
  unfolding fresh_state
  none_before k less = absurd (omega arith)

  uplink-First :
      (k : ℕ)
      → (fresh_state sid remote).next_seq ≤ k
      → ((fresh_state sid remote).next_seq ≡ k) ⊎ (length ((fresh_state sid remote).buffered) < max)
      → First (post k)
  unfolding serve handed sends uplink finish_uplink attach
  uplink-First k le fits =
      let s = fresh_state sid remote in
      let (acc, d, pend) = advance-rest k (sent k) s in
      let (done, out) =
        take_accept_first ((advance k (sent k) s).0) (acc ∙ fresh_acc) (d ∙ fresh_rd) in
      inl (
        rw
          (
            serve,
            handed,
            uplink,
            begin_taken max k (sent k) s (le→ltb k (s.next_seq) le) (test_taken max k s fits),
          )
          (refl, done, rw (out ∙ pend ∙ fresh_pend) refl))

  down_first :
      ((serve sent max get_down fresh).1 ≡ ok_200)
      × ((serve sent max get_down fresh).0.0.accepted ≡ true)
      × (handed sent max get_down fresh ≡ session_of sid remote ∷ [])
  unfolding serve handed sends downlink fresh_state
  down_first = (refl, refl, refl)

  serve-First : (c : Call) → First c
  unfolding serve handed sends uplink finish_uplink is_ok
  serve-First (post k) =
      let s = fresh_state sid remote in
      elim (Answered-cases max s k) [
        | late less ↦ none_before k less
        | full more over ↦
            inr
              (rw (serve, handed, uplink, begin_full max k (sent k) s more over) (refl, refl, refl))
        | next same ↦ uplink-First k (omega (arith, same)) (inl (sym same))
        | kept more fits ↦ uplink-First k (omega arith) (inr fits)
      ]
  serve-First get_down = inl (down_first)

  run-fresh :
      (cs : List Call)
      → run_handed sent max cs fresh
        ≡ (if any_ok ((run sent max cs fresh).1) then session_of sid remote ∷ [] else [])
  unfolding run run_handed any_ok is_ok
  run-fresh [] = refl
  run-fresh (c ∷ cs) = elim (serve-First c) [
    | inl (good, acc, out) ↦
        rw (good, out, run_done sent max cs ((serve sent max c fresh).0) acc) refl
    | inr (bad, same, out) ↦ rw (bad, out, same) (run-fresh cs)
  ]

-- Of all a session's requests, one after the other, the session is handed to the server exactly once if any
-- of them was answered with success, and else never: the first POST that succeeds does so, with no need of
-- the GET.
pub run_handed-served :
    (sent : ℕ → Bytes) (max : ℕ) (sid : SessionId) (remote : List ℕ) (calls : List Call)
    → run_handed sent max calls (fresh_state sid remote, empty_pipe)
      ≡ (if any_ok ((served sent max sid remote calls).1) then session_of sid remote ∷ [] else [])
run_handed-served sent max sid remote calls = run-fresh sent max sid remote calls
