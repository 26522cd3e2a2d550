-- ===== src/Io/VisionXray/Refines.antt =====
-- `Unpadder::push` refines the byte machine, on one buffer and on any sequence of buffers.
use hold_the_donut.Prelude.{
  ℕ, ◌≤◌, ◌<◌, ◌≡◌, refl, arith, true, false, List, [], ◌++◌, length, take, drop, bytes_eq, All,
  All-append, All-drop, IsByte, lt_or_le, inl, inr, Bool-cases,
}
use hold_the_donut.Vision.Stream.{Phase, detect, head0}
use hold_the_donut.Vision.Runs.{run-raw, run-detect, run-detect_short}
use hold_the_donut.Io.VisionXray.{Unpadder, process, push}
use hold_the_donut.Io.VisionXray.Stands.{
  InStream, five, Stands, waiting, foreign, inside, ended, Follows, Follows-run, Follows-done,
}
use hold_the_donut.Io.VisionXray.Loop.{process_loop-Follows}

-- The branches of `push`.
module _ (u : Unpadder) (input : List ℕ) where
  push_ended : u.finished ≡ true → push u input ≡ (u, input)
  unfolding push
  push_ended f = ground arith

  push_foreign : u.finished ≡ false → u.passthrough ≡ true → push u input ≡ (u, input)
  unfolding push
  push_foreign f p = ground arith

  push_inside :
      u.finished ≡ false → u.passthrough ≡ false → u.started ≡ true → push u input ≡ process u input
  unfolding push
  push_inside f p s = ground arith

  push_few :
      u.finished ≡ false
      → u.passthrough ≡ false
      → u.started ≡ false
      → length (u.pending ++ input) < 21
      → push u input ≡ (record u { pending = u.pending ++ input }, [])
  unfolding push
  push_few f p s few = ground arith

  push_start :
      u.finished ≡ false
      → u.passthrough ≡ false
      → u.started ≡ false
      → 21 ≤ length (u.pending ++ input)
      → bytes_eq (take 16 (u.pending ++ input)) u.user_uuid ≡ true
      → push u input
        ≡ process
            (record u { started = true; remaining_command = 5; pending = [] })
            (drop 16 (u.pending ++ input))
  unfolding push
  push_start f p s enough same = ground arith

  push_give_up :
      u.finished ≡ false
      → u.passthrough ≡ false
      → u.started ≡ false
      → 21 ≤ length (u.pending ++ input)
      → bytes_eq (take 16 (u.pending ++ input)) u.user_uuid ≡ false
      → push u input ≡ (record u { passthrough = true; pending = [] }, u.pending ++ input)
  unfolding push
  push_give_up f p s enough other = ground arith

process-Follows :
    (u : Unpadder) (ph : Phase) (input : List ℕ)
    → u.finished ≡ false
    → u.passthrough ≡ false
    → u.started ≡ true
    → InStream u ph
    → All IsByte input
    → Follows u.user_uuid ph input (process u input)
unfolding process
process-Follows u ph input f p s i bytes =
    process_loop-Follows (length input) u ph input f p s i (omega arith) bytes

waiting-Follows :
    (u : Unpadder) (input : List ℕ)
    → u.finished ≡ false
    → u.passthrough ≡ false
    → u.started ≡ false
    → length u.pending < 21
    → All IsByte (u.pending ++ input)
    → Follows u.user_uuid (detect u.pending) input (push u input)
waiting-Follows u input f p s h bytes = elim (lt_or_le (length (u.pending ++ input)) 21) [
  | inl few ↦ rw (push_few u input f p s few) (
      Follows-done (run-detect_short u.user_uuid u.pending input few) refl
        (waiting f p s few bytes refl) refl)
  | inr enough ↦
      let decided = run-detect u.user_uuid u.pending input h enough in
      elim (Bool-cases (bytes_eq (take 16 (u.pending ++ input)) u.user_uuid)) [
        | inl same ↦ rw (push_start u input f p s enough same) (
            Follows-run (rw same at decided) (
              process-Follows (record u { started = true; remaining_command = 5; pending = [] })
                head0 (drop 16 (u.pending ++ input)) f p refl (five refl refl)
                (All-drop IsByte 16 (u.pending ++ input) bytes)))
        | inr other ↦
            rw (push_give_up u input f p s enough other)
              (Follows-done (rw other at decided) refl (foreign f refl refl) refl)
      ]
]

-- On bytes, `push` goes from a state that stands at a phase to one that stands where the byte machine
-- gets from that phase, and passes on exactly what the machine does.
pub push-Follows :
    (u : Unpadder) (ph : Phase) (input : List ℕ)
    → Stands u ph
    → All IsByte input
    → Follows u.user_uuid ph input (push u input)
push-Follows u ph input (waiting f p s h held e) bytes =
    rw e (waiting-Follows u input f p s h (All-append IsByte u.pending input held bytes))
push-Follows u ph input (foreign f p e) bytes =
    rw (push_foreign u input f p, e)
      (Follows-done (run-raw u.user_uuid _ input) refl (foreign f p refl) refl)
push-Follows u ph input (inside f p s i) bytes =
    rw (push_inside u input f p s) (process-Follows u ph input f p s i bytes)
push-Follows u ph input (ended f e) bytes =
    rw (push_ended u input f, e)
      (Follows-done (run-raw u.user_uuid _ input) refl (ended f refl) refl)
