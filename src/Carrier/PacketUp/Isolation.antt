-- ===== src/Carrier/PacketUp/Isolation.antt =====
-- Sessions do not touch each other; bodies are read whole or not at all.
use hold_the_donut.Prelude.{
  ℕ, ◌+◌, ◌≤◌, ◌<◌, ◌≡◌, ◌≢◌, refl, ap, sym, ◌∙◌, inl, inr, false, Bool, Bool-cases, not, Option,
  some, List, [], ◌∷◌, ◌++◌, append_assoc, append-nil, length, length-append, ltb, le→ltb, lt→ltb,
  lt_or_le, if◌then◌else◌, bytes_eq, bytes_eq_refl, bytes_eq→eq, Outcome, ok, err, panic, arith,
}
use hold_the_donut.Carrier.Config.{packet_up, ServerConfig, CarrierError, upload_chunk_too_large}
use hold_the_donut.Carrier.SessionId.{SessionId, Hex}
use hold_the_donut.Carrier.Extract.{session_id, sequence}
use hold_the_donut.Carrier.PacketUp.{Bytes, Pipe, SessionState, uplink}
use hold_the_donut.Carrier.PacketUp.HandOver.{sends}
use hold_the_donut.Carrier.PacketUp.Handle.{
  Frame, part, trailers, broken, collect_loop, collect_body, Request, Sessions, Dispatcher,
  find_session, put_session, or_fresh, status, handle_uplink, handle_downlink, is_packet_up, handle,
}

find_session-put_session_same :
    (sid : SessionId) (e : SessionState × Pipe) (ss : Sessions)
    → find_session sid (put_session sid e ss) ≡ some e
unfolding find_session put_session
find_session-put_session_same sid e [] = rw (bytes_eq_refl sid) refl
find_session-put_session_same sid e ((k, d) ∷ r) = elim (Bool-cases (bytes_eq k sid)) [
  | inl t ↦ rw (t, t) refl
  | inr f ↦ rw (f, f) (find_session-put_session_same sid e r)
]

bytes_differ : (xs ys : List ℕ) → xs ≢ ys → bytes_eq xs ys ≡ false
bytes_differ xs ys ne = elim (Bool-cases (bytes_eq xs ys)) [
  | inl t ↦ absurd (ne (bytes_eq→eq xs ys t))
  | inr f ↦ f
]

find_session-put_session_other :
    (sid sid' : SessionId) (e : SessionState × Pipe) (ss : Sessions)
    → sid ≢ sid'
    → find_session sid' (put_session sid e ss) ≡ find_session sid' ss
unfolding find_session put_session
find_session-put_session_other sid sid' e [] ne = rw (bytes_differ sid sid' ne) refl
find_session-put_session_other sid sid' e ((k, d) ∷ r) ne = elim (Bool-cases (bytes_eq k sid)) [
  | inl t ↦ rw (t, bytes_differ k sid' (λ q. ne (sym (bytes_eq→eq k sid t) ∙ q))) refl
  | inr f ↦ rw f (same_test (bytes_eq k sid') d (find_session-put_session_other sid sid' e r ne))
]
  where
    same_test :
        (t : Bool) (d : SessionState × Pipe) {x y : Option (SessionState × Pipe)}
        → x ≡ y
        → (if t then some d else x) ≡ (if t then some d else y)
    same_test t d e = rw e refl

handle_uplink-other :
    (config : ServerConfig) (req : Request) (sid sid' : SessionId) (seq : ℕ) (d : Dispatcher)
    → sid ≢ sid'
    → find_session sid' ((handle_uplink config req sid seq d).0.sessions)
      ≡ find_session sid' (d.sessions)
unfolding handle_uplink
handle_uplink-other config req sid sid' seq d ne =
    by_body (collect_body (req.body) (config.max_post_bytes)) refl
  where
    by_body :
        (o : Outcome CarrierError Bytes)
        → collect_body (req.body) (config.max_post_bytes) ≡ o
        → find_session sid' ((handle_uplink config req sid seq d).0.sessions)
          ≡ find_session sid' (d.sessions)
    by_body (ok chunk) e =
        rw (handle_uplink, e) (find_session-put_session_other sid sid' _ (d.sessions) ne)
    by_body (err why) e = rw (handle_uplink, e) refl
    by_body panic e = rw (handle_uplink, e) refl

handle_downlink-other :
    (req : Request) (sid sid' : SessionId) (d : Dispatcher)
    → sid ≢ sid'
    → find_session sid' ((handle_downlink req sid d).0.sessions) ≡ find_session sid' (d.sessions)
unfolding handle_downlink
handle_downlink-other req sid sid' d ne = find_session-put_session_other sid sid' _ (d.sessions) ne

-- A request is served in its own session only: the state and the pipe of every other session are as before,
-- whether the request is one of a session, or of none, or is answered with an error.
pub handle-find_session_other :
    (hex : Hex) (config : ServerConfig) (req : Request) (d : Dispatcher) (sid' : SessionId)
    → ((tail : List ℕ) → session_id hex (req.head) config ≢ ok (sid', tail))
    → find_session sid' ((handle hex config req d).0.sessions) ≡ find_session sid' (d.sessions)
unfolding handle
handle-find_session_other hex config req d sid' ne =
    elim (Bool-cases (not (is_packet_up (config.mode)))) [
      | inl t ↦ rw (handle, t) refl
      | inr f ↦ by_id f (session_id hex (req.head) config) refl
    ]
  where
    After : Type 0
    After =
        find_session sid' ((handle hex config req d).0.sessions) ≡ find_session sid' (d.sessions)

    by_seq :
        not (is_packet_up (config.mode)) ≡ false
        → (sid : SessionId) (tail : List ℕ) → session_id hex (req.head) config ≡ ok (sid, tail)
        → sid ≢ sid'
        → req.head.is_get ≡ false
        → (o : Outcome CarrierError ℕ) → sequence (req.head) config ≡ o
        → After
    by_seq f sid tail e other g (ok seq) e' =
        rw (handle, f, e, g, e') (handle_uplink-other config req sid sid' seq d other)
    by_seq f sid tail e other g (err why) e' = rw (handle, f, e, g, e') refl
    by_seq f sid tail e other g panic e' = rw (handle, f, e, g, e') refl

    by_id :
        not (is_packet_up (config.mode)) ≡ false
        → (o : Outcome CarrierError (SessionId × List ℕ)) → session_id hex (req.head) config ≡ o
        → After
    by_id f (err why) e = rw (handle, f, e) refl
    by_id f panic e = rw (handle, f, e) refl
    by_id f (ok (sid, tail)) e =
        let other = λ (q : sid ≡ sid'). ne tail (e ∙ ap (λ s. ok (s, tail)) q) in
        elim (Bool-cases (req.head.is_get)) [
          | inl g ↦ rw (handle, f, e, g) (handle_downlink-other req sid sid' d other)
          | inr g ↦ by_seq f sid tail e other g (sequence (req.head) config) refl
        ]

handle_uplink_lem :
    (config : ServerConfig) (req : Request) (d : Dispatcher) (sid : SessionId) (chunk : List ℕ)
    (seq : ℕ)
    → collect_body (req.body) (config.max_post_bytes) ≡ ok chunk
    → let r =
        uplink
          (config.max_buffered_posts)
          seq
          chunk
          (or_fresh sid (req.remote) (find_session sid (d.sessions))) in
      handle_uplink config req sid seq d ≡ (
        record {
          sessions = put_session sid (r.0) (d.sessions);
          accepts = d.accepts ++ sends (r.1.1);
        },
        ok (status (r.1.0)),
      )
unfolding handle_uplink
handle_uplink_lem config req d sid chunk seq b = rw (handle_uplink, b) refl

-- A POST that is found to be of a session and a number, and whose body is read, is what `uplink` makes of the
-- session's entry, or of a fresh one, and its answer and its handing over are those of `uplink`.
handle-uplink :
    (hex : Hex) (config : ServerConfig) (req : Request) (d : Dispatcher) (sid : SessionId)
    (tail chunk : List ℕ) (seq : ℕ)
    → config.mode ≡ packet_up
    → req.head.is_get ≡ false
    → session_id hex (req.head) config ≡ ok (sid, tail)
    → sequence (req.head) config ≡ ok seq
    → collect_body (req.body) (config.max_post_bytes) ≡ ok chunk
    → let r =
        uplink
          (config.max_buffered_posts)
          seq
          chunk
          (or_fresh sid (req.remote) (find_session sid (d.sessions))) in
      let h = handle hex config req d in
      (find_session sid (h.0.sessions) ≡ some (r.0))
      × (h.0.accepts ≡ d.accepts ++ sends (r.1.1))
      × (h.1 ≡ ok (status (r.1.0)))
unfolding handle is_packet_up
handle-uplink hex config req d sid tail chunk seq m g e e' b =
    rw (handle, m, e, g, e', handle_uplink_lem config req d sid chunk seq b)
      (find_session-put_session_same sid _ (d.sessions), refl, refl)

-- The bytes of a body.
unfoldable pub joined : List Frame → Bytes
joined [] = []
joined (part d ∷ fs) = d ++ joined fs
joined (trailers ∷ fs) = joined fs
joined (broken ∷ fs) = joined fs

pub data Unbroken : List Frame → Type 0 where
  whole : Unbroken []
  more : {fs : List Frame} (d : Bytes) → Unbroken fs → Unbroken (part d ∷ fs)
  skipped : {fs : List Frame} → Unbroken fs → Unbroken (trailers ∷ fs)

collect_loop_lem :
    (max : ℕ) (out : Bytes) (fs : List Frame)
    → Unbroken fs
    → length out ≤ max
    → collect_loop max out fs ≡ (
        if ltb max (length (out ++ joined fs))
        then err upload_chunk_too_large
        else ok (out ++ joined fs))
unfolding collect_loop joined
collect_loop_lem max out [] whole le = rw (append-nil out, le→ltb max (length out) le) refl
collect_loop_lem max out (part d ∷ fs) (more _ u) le = elim (lt_or_le max (length out + length d)) [
  | inl over ↦
      rw
        (
          lt→ltb max (length out + length d) over,
          lt→ltb max (length (out ++ (d ++ joined fs))) (longer over),
        )
        refl
  | inr fits ↦
      rw
        (
          le→ltb max (length out + length d) fits,
          sym (append_assoc out d (joined fs)),
          collect_loop_lem max (out ++ d) fs u (omega (arith, length-append out d)),
        )
        refl
]
  where
    longer : max < length out + length d → max < length (out ++ (d ++ joined fs))
    longer over = omega (arith, length-append out (d ++ joined fs), length-append d (joined fs))
collect_loop_lem max out (trailers ∷ fs) (skipped u) le = collect_loop_lem max out fs u le
collect_loop_lem max out (broken ∷ fs) u le = elim u [ ]

-- A body that hyper reads without an error is taken whole if it is at most as long as configured, and else
-- refused.
pub collect_body-joined :
    (frames : List Frame) (max : ℕ)
    → Unbroken frames
    → collect_body frames max ≡ (
        if ltb max (length (joined frames)) then err upload_chunk_too_large else ok (joined frames))
unfolding collect_body
collect_body-joined frames max u = collect_loop_lem max [] frames u (omega arith)
