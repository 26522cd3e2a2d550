-- ===== src/Server/Mux/Chunks.antt =====
-- The mux relay does the same however the tunnel cuts the stream into chunks.
use hold_the_donut.Prelude.{
  ℕ, zero, suc, ◌<◌, ◌≡◌, refl, sym, ap, ◌∙◌, arith, none, some, List, [], ◌∷◌, ◌++◌, length,
  Outcome, Outcome-cases, inl, inr, ok, err, panic, append_assoc, append-nil, length-append,
}
use mathlib.Core.List.{flatten}
use hold_the_donut.Server.Mux.{Frame, MuxError, parse_frame}
use hold_the_donut.Server.Mux.Egress.{Net}
use hold_the_donut.Server.Mux.Incremental.{refused, waits, framed, parse_frame-view}
use hold_the_donut.Server.Mux.Relay.{
  Relay, handle_frame, Drained, started, after_frame, drain_loop, drain, relay_all,
}

module _ (net : Net) where
  -- More bytes, after draining.
  pub continue : List ℕ → Drained → Drained
  continue more d = elim d.outcome [
    | ok u ↦ drain net d.relay (d.inbuf ++ more)
    | err e ↦ record d { inbuf = d.inbuf ++ more }
    | panic ↦ record d { inbuf = d.inbuf ++ more }
  ]

  module _ (fuel : ℕ) (r : Relay) (buf : List ℕ) where
    step_refused :
        (e : MuxError)
        → parse_frame buf ≡ err e
        → drain_loop net (suc fuel) r buf ≡ record { relay = r; inbuf = buf; outcome = err e }
    unfolding drain_loop
    step_refused e h = rw (drain_loop, h) refl

    step_waits :
        parse_frame buf ≡ ok none
        → drain_loop net (suc fuel) r buf ≡ record { relay = r; inbuf = buf; outcome = ok tt }
    unfolding drain_loop
    step_waits h = rw (drain_loop, h) refl

    step_framed :
        (f : Frame) (left : List ℕ)
        → parse_frame buf ≡ ok (some (f, left))
        → drain_loop net (suc fuel) r buf
          ≡ after_frame (drain_loop net fuel) (handle_frame net f r) left
    unfolding drain_loop
    step_framed f left h = rw (drain_loop, h) refl

  -- The rest of two loops that agree.
  after_frame-cong :
      (again again' : Relay → List ℕ → Drained) (o : Relay × Outcome MuxError Unit) (left : List ℕ)
      → ((r : Relay) → again r left ≡ again' r left)
      → after_frame again o left ≡ after_frame again' o left
  unfolding after_frame
  after_frame-cong again again' (r, ok u) left h = h r
  after_frame-cong again again' (r, err e) left h = refl
  after_frame-cong again again' (r, panic) left h = refl

  after_frame-continue :
      (again again' : Relay → List ℕ → Drained) (o : Relay × Outcome MuxError Unit)
      (left more : List ℕ)
      → ((r : Relay) → again r (left ++ more) ≡ continue more (again' r left))
      → after_frame again o (left ++ more) ≡ continue more (after_frame again' o left)
  unfolding after_frame continue
  after_frame-continue again again' (r, ok u) left more h = h r
  after_frame-continue again again' (r, err e) left more h = refl
  after_frame-continue again again' (r, panic) left more h = refl

  -- Fuel beyond the length of the buffer does not count.
  drain_loop-fuel :
      (n m : ℕ) (r : Relay) (buf : List ℕ)
      → length buf < n
      → length buf < m
      → drain_loop net n r buf ≡ drain_loop net m r buf
  drain_loop-fuel zero m r buf h k = absurd (omega arith)
  drain_loop-fuel (suc n) zero r buf h k = absurd (omega arith)
  drain_loop-fuel (suc n) (suc m) r buf h k = elim (parse_frame-view buf []) [
    | refused e p q ↦ step_refused n r buf e p ∙ sym (step_refused m r buf e p)
    | waits p ↦ step_waits n r buf p ∙ sym (step_waits m r buf p)
    | framed f left p q l ↦
        step_framed n r buf f left p
        ∙ after_frame-cong (drain_loop net n) (drain_loop net m) (handle_frame net f r) left
            (λ r'. drain_loop-fuel n m r' left (omega arith) (omega arith))
        ∙ sym (step_framed m r buf f left p)
  ]

  continue-ok :
      (more : List ℕ) (r : Relay) (buf : List ℕ)
      → continue more (record { relay = r; inbuf = buf; outcome = ok tt })
        ≡ drain net r (buf ++ more)
  unfolding continue
  continue-ok more r buf = refl

  continue-err :
      (more : List ℕ) (r : Relay) (buf : List ℕ) (e : MuxError)
      → continue more (record { relay = r; inbuf = buf; outcome = err e })
        ≡ record { relay = r; inbuf = buf ++ more; outcome = err e }
  unfolding continue
  continue-err more r buf e = refl

  drain_loop-enough :
      (m : ℕ) (r : Relay) (buf : List ℕ) → length buf < m → drain_loop net m r buf ≡ drain net r buf
  unfolding drain
  drain_loop-enough m r buf h = drain_loop-fuel m (suc (length buf)) r buf h (omega arith)

  drain_loop-more :
      (n m : ℕ) (r : Relay) (buf more : List ℕ)
      → length buf < n
      → length (buf ++ more) < m
      → drain_loop net m r (buf ++ more) ≡ continue more (drain_loop net n r buf)
  drain_loop-more zero m r buf more h k = absurd (omega arith)
  drain_loop-more (suc n) zero r buf more h k = absurd (omega arith)
  drain_loop-more (suc n) (suc m) r buf more h k = elim (parse_frame-view buf more) [
    | refused e p q ↦
        step_refused m r (buf ++ more) e q
        ∙ sym (ap (continue more) (step_refused n r buf e p) ∙ continue-err more r buf e)
    | waits p ↦
        drain_loop-enough (suc m) r (buf ++ more) k
        ∙ sym (ap (continue more) (step_waits n r buf p) ∙ continue-ok more r buf)
    | framed f left p q l ↦
        step_framed m r (buf ++ more) f (left ++ more) q
        ∙ after_frame-continue (drain_loop net m) (drain_loop net n) (handle_frame net f r) left
            more
            (λ r'.
              drain_loop-more n m r' left more (omega arith)
                (omega (arith, length-append left more, length-append buf more)))
        ∙ sym (ap (continue more) (step_framed n r buf f left p))
  ]

  -- Draining a longer buffer is draining its front, and then the rest behind what the front leaves.
  drain-more :
      (r : Relay) (buf more : List ℕ) → drain net r (buf ++ more) ≡ continue more (drain net r buf)
  unfolding drain
  drain-more r buf more =
      drain_loop-more (suc (length buf)) (suc (length (buf ++ more))) r buf more (omega arith)
        (omega arith)

-- The loop stopped because no frame is complete, unless there was an error.
Settled : Net → Drained → Type 0
Settled net d = (d.outcome ≡ ok tt) → drain net d.relay d.inbuf ≡ d

-- What does not depend on where the chunks end.
record SameRun (d d' : Drained) : Type 0 where
  relay_same : d.relay ≡ d'.relay
  outcome_same : d.outcome ≡ d'.outcome

module _ (net : Net) where
  drain-Settled : (r : Relay) (buf : List ℕ) → Settled net (drain net r buf)
  unfolding Settled
  drain-Settled r buf h =
      let again : continue net [] (drain net r buf)
          ≡ drain net (drain net r buf).relay (drain net r buf).inbuf =
        unfold continue in rw (h, append-nil) refl in
      sym again ∙ sym (drain-more net r buf []) ∙ rw append-nil refl

  pub relay_all-err :
      (e : MuxError) (d : Drained) (chunks : List (List ℕ))
      → d.outcome ≡ err e
      → relay_all net d chunks ≡ d
  unfolding relay_all
  relay_all-err e d [] h = refl
  relay_all-err e d (c ∷ chunks) h = rw h refl

  pub relay_all-panic :
      (d : Drained) (chunks : List (List ℕ)) → d.outcome ≡ panic → relay_all net d chunks ≡ d
  unfolding relay_all
  relay_all-panic d [] h = refl
  relay_all-panic d (c ∷ chunks) h = rw h refl

  pub relay_all-ok :
      (d : Drained) (c : List ℕ) (chunks : List (List ℕ))
      → d.outcome ≡ ok tt
      → relay_all net d (c ∷ chunks) ≡ relay_all net (drain net d.relay (d.inbuf ++ c)) chunks
  unfolding relay_all
  relay_all-ok d c chunks h = rw h refl

  continue_err :
      (e : MuxError) (more : List ℕ) (d : Drained)
      → d.outcome ≡ err e
      → SameRun d (continue net more d)
  unfolding continue
  continue_err e more d h = rw h (record { relay_same = refl; outcome_same = refl })

  continue_panic :
      (more : List ℕ) (d : Drained) → d.outcome ≡ panic → SameRun d (continue net more d)
  unfolding continue
  continue_panic more d h = rw h (record { relay_same = refl; outcome_same = refl })

  continue_ok :
      (more : List ℕ) (d : Drained)
      → d.outcome ≡ ok tt
      → continue net more d ≡ drain net d.relay (d.inbuf ++ more)
  unfolding continue
  continue_ok more d h = rw h refl

  relay_all-nil : (d : Drained) → relay_all net d [] ≡ d
  unfolding relay_all
  relay_all-nil d = refl

  relay_all-Settled :
      (d : Drained) (chunks : List (List ℕ))
      → Settled net d
      → SameRun (relay_all net d chunks) (continue net (flatten chunks) d)
  unfolding flatten Settled
  relay_all-Settled d [] s = elim (Outcome-cases d.outcome) [
    | inl (u, h) ↦
        let e : continue net [] d ≡ d = continue_ok [] d h ∙ rw append-nil (s h) in
        rw (relay_all-nil d, e) (record { relay_same = refl; outcome_same = refl })
    | inr (inl (e, h)) ↦ rw (relay_all-err e d [] h) (continue_err e [] d h)
    | inr (inr h) ↦ rw (relay_all-panic d [] h) (continue_panic [] d h)
  ]
  relay_all-Settled d (c ∷ chunks) s = elim (Outcome-cases d.outcome) [
    | inl (u, h) ↦
        let later =
          relay_all-Settled (drain net d.relay (d.inbuf ++ c)) chunks
            (drain-Settled d.relay (d.inbuf ++ c)) in
        rw (relay_all-ok d c chunks h, continue_ok (c ++ flatten chunks) d h)
          (rw (← drain-more net d.relay (d.inbuf ++ c) (flatten chunks), append_assoc) at later)
    | inr (inl (e, h)) ↦
        rw (relay_all-err e d (c ∷ chunks) h) (continue_err e (c ++ flatten chunks) d h)
    | inr (inr h) ↦ rw (relay_all-panic d (c ∷ chunks) h) (continue_panic (c ++ flatten chunks) d h)
  ]

  started-Settled : (r : Relay) → Settled net (started r)
  unfolding Settled drain drain_loop parse_frame
  started-Settled r h = refl

  -- Two ways to cut the same bytes of the tunnel into chunks, read from the start of the relay: the same
  -- sub-sessions, datagrams and count, and the same error or none.
  pub relay_all-flatten :
      (r : Relay) (chunks chunks' : List (List ℕ))
      → flatten chunks ≡ flatten chunks'
      → ((relay_all net (started r) chunks).relay ≡ (relay_all net (started r) chunks').relay)
        × ((relay_all net (started r) chunks).outcome ≡ (relay_all net (started r) chunks').outcome)
  relay_all-flatten r chunks chunks' e =
      let s = relay_all-Settled (started r) chunks (started-Settled r) in
      let s' = relay_all-Settled (started r) chunks' (started-Settled r) in
      (
        s.relay_same ∙ ap (λ t. (continue net t (started r)).relay) e ∙ sym s'.relay_same,
        s.outcome_same ∙ ap (λ t. (continue net t (started r)).outcome) e ∙ sym s'.outcome_same,
      )
