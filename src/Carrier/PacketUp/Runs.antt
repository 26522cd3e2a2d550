-- ===== src/Carrier/PacketUp/Runs.antt =====
-- A session's requests served one after the other, in any order of their numbers.
use hold_the_donut.Prelude.{
  ℕ, zero, suc, sym, ◌∙◌, append-nil, append_assoc, ◌≤◌, ◌<◌, ◌≡◌, refl, ◌⊎◌, inl, inr, true, List,
  [], ◌∷◌, ◌++◌, lt_or_le, All, arith,
}
use hold_the_donut.Carrier.SessionId.{SessionId}
use hold_the_donut.Carrier.PacketUp.{
  Bytes, get, Pipe, SessionState, Status, ok_200, fresh_state, uplink, downlink,
}
use hold_the_donut.Carrier.PacketUp.Release.{upto, Has}
use hold_the_donut.Carrier.PacketUp.Ordered.{InOrder, uplink-InOrder}
use hold_the_donut.Carrier.PacketUp.Arrived.{uplink-Has_old, uplink-Has_new}

pub data Call : Type 0 where
  post : ℕ → Call
  get_down : Call

-- A u64 less its largest value, after which the server's count would wrap.
abbrev pub IsCall : Call → Type 0
IsCall (post k) = k < 18446744073709551615
IsCall get_down = Unit

abbrev pub empty_pipe : Pipe
empty_pipe = record { received = []; is_open = true }

module _ (sent : ℕ → Bytes) (max : ℕ) where
  -- The chunk of a number is the same in every POST of it.
  unfoldable pub serve : Call → SessionState × Pipe → (SessionState × Pipe) × Status
  unfolding uplink downlink
  serve (post k) (s, p) = let r = uplink max k (sent k) (s, p) in (r.0, r.1.0)
  serve get_down (s, p) = let r = downlink s in ((r.0, p), r.1.0)

  unfoldable pub run :
      List Call → SessionState × Pipe → (SessionState × Pipe) × List (Call × Status)
  unfolding serve
  run [] sp = (sp, [])
  run (c ∷ cs) sp = let r = serve c sp in let rest = run cs (r.0) in (rest.0, (c, r.1) ∷ rest.1)

-- That POST was answered with success.
pub data Acknowledged (k : ℕ) : List (Call × Status) → Type 0 where
  here : {r : List (Call × Status)} → Acknowledged k ((post k, ok_200) ∷ r)
  there : {a : Call × Status} {r : List (Call × Status)} → Acknowledged k r → Acknowledged k (a ∷ r)

pub fresh-InOrder :
    (sent : ℕ → Bytes) (max : ℕ) (sid : SessionId) (remote : List ℕ)
    → InOrder sent max (fresh_state sid remote) empty_pipe
unfolding fresh_state upto get
fresh-InOrder sent max sid remote = record {
  received = refl;
  is_open = refl;
  writer = refl;
  awaited = tt;
  missing = refl;
  room = omega arith;
}

upto-le :
    (sent : ℕ → Bytes) (n m : ℕ) → n ≤ m → (rest : Bytes) × (upto sent m ≡ upto sent n ++ rest)
unfolding upto
upto-le sent n zero le = ([], rw (nothing n le) refl)
  where
    nothing : (n : ℕ) → n ≤ 0 → n ≡ 0
    nothing n le = omega arith
upto-le sent n (suc m) le = elim (lt_or_le m n) [
  | inl lt ↦ ([], rw (same lt) (sym (append-nil _)))
  | inr le' ↦
      let (rest, e) = upto-le sent n m le' in
      (rest ++ sent m, rw (upto, e) (append_assoc (upto sent n) rest (sent m)))
]
  where
    same : m < n → n ≡ suc m
    same lt = omega arith

module _ (sent : ℕ → Bytes) (max : ℕ) where
  abbrev Ordered : SessionState × Pipe → Type 0
  Ordered sp = InOrder sent max (sp.0) (sp.1)

  abbrev Came : SessionState × Pipe → ℕ → Type 0
  Came sp j = Has (sp.0.next_seq) (sp.0.buffered) j

  serve-InOrder :
      (c : Call) (sp : SessionState × Pipe)
      → IsCall c
      → Ordered sp
      → Ordered ((serve sent max c sp).0)
  unfolding serve downlink
  serve-InOrder (post k) (s, p) ok i = uplink-InOrder sent max k s p i ok
  serve-InOrder get_down (s, p) ok i = record {
    received = i.received;
    is_open = i.is_open;
    writer = i.writer;
    awaited = i.awaited;
    missing = i.missing;
    room = i.room;
  }

  run-Ordered :
      (cs : List Call) (sp : SessionState × Pipe)
      → All IsCall cs
      → Ordered sp
      → Ordered ((run sent max cs sp).0)
  unfolding run
  run-Ordered [] sp ok i = i
  run-Ordered (c ∷ cs) sp (ok, oks) i =
      run-Ordered cs ((serve sent max c sp).0) oks (serve-InOrder c sp ok i)

  serve-Came :
      (c : Call) (sp : SessionState × Pipe) (j : ℕ)
      → IsCall c
      → Ordered sp
      → Came sp j
      → Came ((serve sent max c sp).0) j
  unfolding serve downlink
  serve-Came (post k) (s, p) j ok i has = uplink-Has_old sent max k j s p i ok has
  serve-Came get_down (s, p) j ok i has = has

  run-Came :
      (cs : List Call) (sp : SessionState × Pipe) (j : ℕ)
      → All IsCall cs
      → Ordered sp
      → Came sp j
      → Came ((run sent max cs sp).0) j
  unfolding run
  run-Came [] sp j ok i has = has
  run-Came (c ∷ cs) sp j (ok, oks) i has =
      run-Came cs ((serve sent max c sp).0) j oks (serve-InOrder c sp ok i)
        (serve-Came c sp j ok i has)

  serve-Came_new :
      (c : Call) (sp : SessionState × Pipe) (j : ℕ)
      → c ≡ post j
      → IsCall c
      → Ordered sp
      → (serve sent max c sp).1 ≡ ok_200
      → Came ((serve sent max c sp).0) j
  unfolding serve
  serve-Came_new (post k) (s, p) j e ok i good =
      rw (sym (post-injective e)) (uplink-Has_new sent max k s p i ok good)
    where
      post-injective : {a b : ℕ} → post a ≡ post b → a ≡ b
      post-injective e = cc
  serve-Came_new get_down sp j e ok i good = cc

  Acknowledged-Came :
      (cs : List Call) (sp : SessionState × Pipe) (j : ℕ)
      → All IsCall cs
      → Ordered sp
      → Acknowledged j ((run sent max cs sp).1)
      → Came ((run sent max cs sp).0) j
  unfolding run
  Acknowledged-Came [] sp j ok i a = elim a [ ]
  Acknowledged-Came (c ∷ cs) sp j (ok, oks) i a =
      let i' = serve-InOrder c sp ok i in
      elim (head_or_tail a) [
        | inl (same, good) ↦
            run-Came cs ((serve sent max c sp).0) j oks i' (serve-Came_new c sp j same ok i good)
        | inr later ↦ Acknowledged-Came cs ((serve sent max c sp).0) j oks i' later
      ]
    where
      head_or_tail :
          {c' : Call} {st : Status} {r : List (Call × Status)}
          → Acknowledged j ((c', st) ∷ r)
          → ((c' ≡ post j) × (st ≡ ok_200)) ⊎ Acknowledged j r
      head_or_tail here = inl (refl, refl)
      head_or_tail (there a) = inr a

-- A session's requests from the first on.
abbrev pub served :
    (ℕ → Bytes) → ℕ → SessionId → List ℕ → List Call → (SessionState × Pipe) × List (Call × Status)
served sent max sid remote calls = run sent max calls (fresh_state sid remote, empty_pipe)

-- Whatever POSTs and GETs a session gets one after the other, numbers repeated, skipped and in any order, its
-- user has read exactly the stream's chunks before the next number awaited, each once and in order; what the
-- buffer keeps are chunks of the stream, later than that, of numbers that were not released; and it keeps no
-- more than configured. The numbers are below the largest u64.
pub run-InOrder :
    (sent : ℕ → Bytes) (max : ℕ) (sid : SessionId) (remote : List ℕ) (calls : List Call)
    → All IsCall calls
    → let end = (served sent max sid remote calls).0 in InOrder sent max (end.0) (end.1)
run-InOrder sent max sid remote calls ok =
    run-Ordered sent max calls (fresh_state sid remote, empty_pipe) ok
      (fresh-InOrder sent max sid remote)

-- Let a session's POSTs and GETs be served one after the other, none taken up before the last one is answered,
-- with numbers below the largest u64. Once each chunk before the n-th has been answered with success in some
-- order, whatever else was asked and refused in between, the session's user has been given all of them, in
-- order: what it received begins with these n chunks.
pub run-upto :
    (sent : ℕ → Bytes) (max : ℕ) (sid : SessionId) (remote : List ℕ) (calls : List Call) (n : ℕ)
    → All IsCall calls
    → ((k : ℕ) → k < n → Acknowledged k ((served sent max sid remote calls).1))
    → (rest : Bytes) × ((served sent max sid remote calls).0.1.received ≡ upto sent n ++ rest)
run-upto sent max sid remote calls n ok acks =
    let i = run-InOrder sent max sid remote calls ok in
    let (rest, e) = upto-le sent n _ (reached i) in (rest, i.received ∙ e)
  where
    reached :
        InOrder sent max
          ((served sent max sid remote calls).0.0)
          ((served sent max sid remote calls).0.1)
        → n ≤ (served sent max sid remote calls).0.0.next_seq
    reached i = elim (lt_or_le ((served sent max sid remote calls).0.0.next_seq) n) [
      | inr le ↦ le
      | inl less ↦
          elim (Acknowledged-Came sent max calls (fresh_state sid remote, empty_pipe) _ ok
            (fresh-InOrder sent max sid remote) (acks _ less)) [
              | inl lt ↦ absurd (omega (arith, lt))
              | inr ne ↦ absurd (ne (i.missing))
            ]
    ]
