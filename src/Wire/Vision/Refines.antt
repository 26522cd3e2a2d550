-- ===== src/Wire/Vision/Refines.antt =====
-- `VisionUnpadder` refines the byte machine of `Vision.Stream`.
use mathlib.Core.Path.{ap₂}
use hold_the_donut.Prelude.{
  ℕ, suc, ◌+◌, ◌≤◌, ◌<◌, ◌≡◌, refl, sym, ap, ◌∙◌, arith, true, false, Option, none, some, List, [],
  ◌++◌, length, take, drop, bytes_eq, length-drop, lt_or_le, inl, inr, Bool-cases,
}
use hold_the_donut.Vision.Stream.{Phase, detect, head0, raw, run}
use hold_the_donut.Vision.Runs.{settle-block, run-append, run-raw, run-detect_short, run-detect}
use hold_the_donut.Wire.Vision.{VisionUnpadder, unpad_loop, push}
use hold_the_donut.Wire.Vision.Phase.{head_of, phase, IsUnpadder, Follows, Follows-run, run-head_of}
use hold_the_donut.Wire.Vision.Rounds.{
  stops_inside, block_part-Follows, unpad_loop-Follows, header_past,
}

run-head_of_more :
    (uuid p xs : List ℕ) → length p < 5 → run uuid (head_of p) xs ≡ run uuid head0 (p ++ xs)
run-head_of_more uuid p xs h = sym (
    run-append uuid head0 p xs
    ∙ ap (λ (q : Phase × List ℕ). ((run uuid q.0 xs).0, q.1 ++ (run uuid q.0 xs).1))
        (run-head_of uuid p h))

-- The branches of `push`, and the phase that goes with each.
module _ (u : VisionUnpadder) (input : List ℕ) where
  push_direct : u.direct ≡ true → push u input ≡ (u, input)
  unfolding push
  push_direct di = ground arith

  push_running :
      u.direct ≡ false
      → u.started ≡ true
      → push u input
        ≡ unpad_loop (length (u.pending ++ input) + 2) (record u { pending = u.pending ++ input })
  unfolding push
  push_running di st = ground arith

  push_few :
      u.direct ≡ false
      → u.started ≡ false
      → length (u.pending ++ input) < 21
      → push u input ≡ (record u { pending = u.pending ++ input }, [])
  unfolding push
  push_few di st few = ground arith

  push_vision :
      u.direct ≡ false
      → u.started ≡ false
      → 21 ≤ length (u.pending ++ input)
      → bytes_eq (take 16 (u.pending ++ input)) u.uuid ≡ true
      → push u input
        ≡ unpad_loop (length (u.pending ++ input) + 2) (record u {
          pending = drop 16 (u.pending ++ input);
          started = true;
          reading_header = true;
        })
  unfolding push
  push_vision di st enough same = ground arith

  push_foreign :
      u.direct ≡ false
      → u.started ≡ false
      → 21 ≤ length (u.pending ++ input)
      → bytes_eq (take 16 (u.pending ++ input)) u.uuid ≡ false
      → push u input ≡ (record u { direct = true; pending = [] }, u.pending ++ input)
  unfolding push
  push_foreign di st enough other = ground arith

  phase_direct : u.direct ≡ true → (end : Option ℕ) × (phase u ≡ raw end)
  unfolding phase
  phase_direct di = elim (Bool-cases u.started) [
    | inl st ↦ (some u.current_command, ground arith)
    | inr st ↦ (none, ground arith)
  ]

  phase_waiting : u.direct ≡ false → u.started ≡ false → phase u ≡ detect u.pending
  unfolding phase
  phase_waiting di st = ground arith

  phase_heading :
      u.direct ≡ false → u.started ≡ true → u.reading_header ≡ true → phase u ≡ head_of u.pending
  unfolding phase
  phase_heading di st re = ground arith

module _ (u : VisionUnpadder) (input : List ℕ) (v : IsUnpadder u) where
  push_direct-Follows : u.direct ≡ true → Follows u.uuid (phase u) input (push u input)
  push_direct-Follows di =
      let (end, e) = phase_direct u input di in
      rw (push_direct u input di)
        (record { same = refl; valid = v; runs = rw e (sym (run-raw u.uuid end input)) })

  push_running-Follows :
      u.direct ≡ false → u.started ≡ true → Follows u.uuid (phase u) input (push u input)
  unfolding unpad_loop
  push_running-Follows di st = elim (Bool-cases u.reading_header) [
    | inl re ↦
        rw (push_running u input di st, phase_heading u input di st re)
          (Follows-run (run-head_of_more u.uuid u.pending input (v.heading di st re)) (
            unpad_loop-Follows (length (u.pending ++ input) + 2)
              (record u { pending = u.pending ++ input }) st di re (omega arith)))
    | inr re ↦
        let (empty, left) = v.inside di st re in
        let w : VisionUnpadder = record u { pending = u.pending ++ input } in
        let fuel : length (u.pending ++ input) + 2 ≡ suc (length (u.pending ++ input) + 1) =
          omega arith in
        let whole : u.pending ++ input ≡ input = ap (λ t. t ++ input) empty in
        let (_, here) =
          stops_inside u (record { begun = st; open_ended = di; past_header = re }) empty left in
        rw (push_running u input di st, here, fuel, unpad_loop, header_past w re)
          (Follows-run
            (ap₂ (run u.uuid)
              (sym (settle-block u.current_command u.remaining_content u.remaining_padding left))
              (sym whole))
            (block_part-Follows (unpad_loop (length (u.pending ++ input) + 1)) w
              (length (u.pending ++ input))
              (record { begun = st; open_ended = di; past_header = re }) (omega arith)
              λ x st' di' re' le'.
                unpad_loop-Follows (length (u.pending ++ input) + 1) x st' di' re' (omega arith)))
  ]

  push_waiting-Follows :
      u.direct ≡ false → u.started ≡ false → Follows u.uuid (phase u) input (push u input)
  push_waiting-Follows di st = elim (lt_or_le (length (u.pending ++ input)) 21) [
    | inl few ↦
        rw (push_few u input di st few, phase_waiting u input di st)
          (record {
            same = refl;
            valid = record { waiting = λ _ _. few; heading = λ _ s _. cc; inside = λ _ s _. cc };
            runs =
                ap (λ p. (p, []))
                  (phase_waiting (record u { pending = u.pending ++ input }) input di st)
                ∙ sym (run-detect_short u.uuid u.pending input few);
          })
    | inr enough ↦
        let decided = run-detect u.uuid u.pending input (v.waiting di st) enough in
        elim (Bool-cases (bytes_eq (take 16 (u.pending ++ input)) u.uuid)) [
          | inl same ↦
              rw (push_vision u input di st enough same, phase_waiting u input di st)
                (Follows-run (rw same at decided) (
                  unpad_loop-Follows (length (u.pending ++ input) + 2)
                    (record u {
                      pending = drop 16 (u.pending ++ input);
                      started = true;
                      reading_header = true;
                    })
                    refl di refl (omega (arith, length-drop 16 (u.pending ++ input)))))
          | inr other ↦
              rw (push_foreign u input di st enough other, phase_waiting u input di st)
                (record {
                  same = refl;
                  valid = record {
                    waiting = λ s _. cc;
                    heading = λ s _ _. cc;
                    inside = λ s _ _. cc;
                  };
                  runs = unfold phase in rw st (sym (rw other at decided));
                })
        ]
  ]

  -- Between calls, `push` keeps the unpadder well formed, and it goes and passes on exactly what the
  -- byte machine does on the same input.
  pub push-Follows : Follows u.uuid (phase u) input (push u input)
  push-Follows = elim (Bool-cases u.direct) [
    | inl di ↦ push_direct-Follows di
    | inr di ↦ elim (Bool-cases u.started) [
      | inl st ↦ push_running-Follows di st
      | inr st ↦ push_waiting-Follows di st
    ]
  ]
