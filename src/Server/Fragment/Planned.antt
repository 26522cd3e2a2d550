-- ===== src/Server/Fragment/Planned.antt =====
-- What `write_fragmented` sends.
use hold_the_donut.Prelude.{
  ℕ, suc, ◌+◌, ◌≤◌, ◌≡◌, Bool, Option, some, List, [], ◌∷◌, ◌++◌, length, take, drop, get_or,
  if◌then◌else◌,
}
use hold_the_donut.Server.Fragment.{FragmentParams, record_header, is_client_hello}
use hold_the_donut.Server.Fragment.Paced.{
  Event, wrote, flushed, Trace, write_all, flush, pause, write_loop,
}
use hold_the_donut.Server.Fragment.Reassembled.{upper, largest, reassemble}
use hold_the_donut.Server.Fragment.Sent.{written, Sends, nap}

-- All that is done to send a payload: a record of the given version for each piece, of a byte at least and
-- `largest` bytes at most, its header first, then the piece, then a flush; behind a piece that is not the
-- last, and which is as long as the lower end of the range says, a pause from its own range.
pub data Plan (v0 v1 : ℕ) (p : FragmentParams) : List ℕ → List Event → Type 0 where
  no_more : Plan v0 v1 p [] []
  last :
      (slice : List ℕ)
      → 1 ≤ length slice
      → length slice ≤ largest (p.len)
      → Plan v0 v1 p slice (wrote (record_header v0 v1 slice) ∷ wrote slice ∷ flushed ∷ [])
  next :
      {rest : List ℕ} {events : List Event} (slice : List ℕ) (d : ℕ)
      → 1 ≤ length slice
      → (p.len).0 ≤ length slice
      → length slice ≤ largest (p.len)
      → 1 ≤ length rest
      → (p.interval_ms).0 ≤ d
      → d ≤ upper (p.interval_ms)
      → Plan v0 v1 p rest events
      → Plan v0 v1 p
          (slice ++ rest)
          (wrote (record_header v0 v1 slice) ∷ wrote slice ∷ flushed ∷ nap d events)

-- Some plan is what the trace follows.
abbrev Follows : FragmentParams → (ℕ → Option ℕ) → ℕ → ℕ → ℕ → List ℕ → Trace → Type 0
Follows p io k v0 v1 payload t =
    (events : List Event) × Plan v0 v1 p payload events × Sends io k events t

-- A round that cuts off so many bytes, given whether it leaves some.
abbrev round :
    FragmentParams → (ℕ → ℕ) → (ℕ → Option ℕ) → ℕ → ℕ → ℕ → ℕ → ℕ → ℕ → List ℕ → Bool → Trace
round p random io i k fuel v0 v1 chunk left more =
    write_all (io k) (record_header v0 v1 (take chunk left)) (
      write_all (io (suc k)) (take chunk left) (
        flush (io (2 + k)) (
          pause (p.interval_ms) random (suc i) more
            (λ j. write_loop p random io j (3 + k) fuel v0 v1 (drop chunk left)))))

-- What `write_fragmented` is to do with a record: to send it in pieces, or to write it as it is.
abbrev pub Wanted : FragmentParams → List ℕ → List Event → Type 0
Wanted p r events =
    if is_client_hello r
    then Plan (get_or r 1 0) (get_or r 2 0) p (drop 5 r) events
      × (reassemble (length (written events)) (get_or r 1 0) (get_or r 2 0) (written events)
          ≡ some (drop 5 r))
    else (events ≡ wrote r ∷ [])
