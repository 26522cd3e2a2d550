-- ===== src/Server/Fragment/Paced.antt =====
-- `write_fragmented`: the records of a ClientHello written one by one, each flushed, with a pause before the
-- next. The n-th operation on the stream succeeds, or fails after having taken some bytes, as an argument
-- says.
use hold_the_donut.Prelude.{
  ℕ, zero, suc, ◌+◌, Bool, true, false, Option, none, some, List, [], ◌∷◌, length, take, drop,
  get_or, ltb, if◌then◌else◌, Outcome, ok, err, panic,
}
use hold_the_donut.Server.Fragment.{
  FragmentParams, pick, clamp1, record_header, is_client_hello, IoError, io_error,
}

pub data Event : Type 0 where
  wrote : List ℕ → Event
  flushed : Event
  slept : ℕ → Event

abbrev pub Trace : Type 0
Trace = List Event × Outcome IoError Unit

-- `write_all`, `flush` and the pause, with what follows them.
unfoldable pub write_all : Option ℕ → List ℕ → Trace → Trace
write_all none bytes (events, r) = (wrote bytes ∷ events, r)
write_all (some n) bytes later = (wrote (take n bytes) ∷ [], err io_error)

unfoldable pub flush : Option ℕ → Trace → Trace
flush none (events, r) = (flushed ∷ events, r)
flush (some n) later = ([], err io_error)

unfoldable pub sleep : ℕ → Trace → Trace
sleep d (events, r) = if ltb 0 d then (slept d ∷ events, r) else (events, r)

-- The pause between two records, and the rest of the loop, from the next pick on.
unfoldable pub pause : ℕ × ℕ → (ℕ → ℕ) → ℕ → Bool → (ℕ → Trace) → Trace
unfolding sleep
pause interval random i true again = elim (pick interval (random i)) [
  | none ↦ ([], panic)
  | some d ↦ sleep d (again (suc i))
]
pause interval random i false again = again i

-- Its loop, at the i-th pick and the k-th operation.
unfoldable pub write_loop :
    FragmentParams → (ℕ → ℕ) → (ℕ → Option ℕ) → ℕ → ℕ → ℕ → ℕ → ℕ → List ℕ → Trace
unfolding clamp1 record_header write_all flush pause
write_loop p random io i k zero v0 v1 rest = ([], ok tt)
write_loop p random io i k (suc fuel) v0 v1 [] = ([], ok tt)
write_loop p random io i k (suc fuel) v0 v1 (x ∷ xs) =
    let again =
      λ (chunk j : ℕ). write_loop p random io j (3 + k) fuel v0 v1 (drop chunk (x ∷ xs)) in
    elim (pick (p.len) (random i)) [
      | none ↦ ([], panic)
      | some n ↦
          let chunk = clamp1 n (length (x ∷ xs)) in
          let slice = take chunk (x ∷ xs) in
          write_all (io k) (record_header v0 v1 slice) (
            write_all (io (suc k)) slice (
              flush (io (2 + k))
                (pause (p.interval_ms) random (suc i) (ltb chunk (length (x ∷ xs))) (again chunk))))
    ]

unfoldable pub write_fragmented : (ℕ → Option ℕ) → List ℕ → FragmentParams → (ℕ → ℕ) → Trace
unfolding write_all write_loop
write_fragmented io r p random =
    if is_client_hello r
    then write_loop p random io 0 0 (length (drop 5 r)) (get_or r 1 0) (get_or r 2 0) (drop 5 r)
    else write_all (io 0) r ([], ok tt)
