-- ===== src/Server/Fragment/Calls.antt =====
-- Writes and flushes of `FragmentWriter`, one after the other.
use hold_the_donut.Prelude.{
  ℕ, ◌≡◌, refl, Bool, true, false, arith, Option, none, some, List, [], ◌∷◌, ◌++◌, take,
}
use mathlib.Core.Path.{subst}
use hold_the_donut.Server.Fragment.{FragmentParams}
use hold_the_donut.Server.Fragment.Adapter.{
  Answer, Poll, ready, pending, failed, panicked, FragmentWriter, new, poll_write, poll_flush,
  poll_shutdown, drain_pending,
}
use hold_the_donut.Server.Fragment.Drained.{few, Carried, holding, emitting}
use hold_the_donut.Server.Fragment.Delivered.{
  Wrote, Flushed, Delivered, poll_write-Wrote, poll_flush-Flushed, poll_flush-Delivered,
}
use hold_the_donut.Server.Fragment.Passed.{nothing_pending}

pub data Op : Type 0 where
  write : List ℕ → Op
  flush : Op

module _ (random : ℕ → ℕ) where
  -- The bytes that the calls said they took, and the writer; nothing once a call has failed.
  unfoldable pub after_write :
      List ℕ → List ℕ → FragmentWriter × Poll ℕ → Option (List ℕ × FragmentWriter)
  after_write written buf (w, ready n) = some (written ++ take n buf, w)
  after_write written buf (w, pending) = some (written, w)
  after_write written buf (w, failed) = none
  after_write written buf (w, panicked) = none

  unfoldable after_flush : List ℕ → FragmentWriter × Poll Unit → Option (List ℕ × FragmentWriter)
  after_flush written (w, ready u) = some (written, w)
  after_flush written (w, pending) = some (written, w)
  after_flush written (w, failed) = none
  after_flush written (w, panicked) = none

  unfoldable pub call : Op → List ℕ × FragmentWriter → Option (List ℕ × FragmentWriter)
  unfolding after_write after_flush poll_write poll_flush
  call (write buf) (written, w) = after_write written buf (poll_write random w buf)
  call flush (written, w) = after_flush written (poll_flush w)

  unfoldable pub calls : List Op → List ℕ × FragmentWriter → Option (List ℕ × FragmentWriter)
  unfolding call
  calls [] s = some s
  calls (op ∷ ops) s = elim (call op s) [ none ↦ none | some s' ↦ calls ops s' ]

-- Whether a flush is among the calls, or a write of no bytes: at either, the writer may give up waiting for
-- the first record.
unfoldable pub gives_up : List Op → Bool
gives_up [] = false
gives_up (write [] ∷ ops) = true
gives_up (write (x ∷ xs) ∷ ops) = gives_up ops
gives_up (flush ∷ ops) = true

module _ (random : ℕ → ℕ) (gave_up : Bool) where
  abbrev Carries : Option (List ℕ × FragmentWriter) → Type 0
  Carries none = Unit
  Carries (some (written, w)) = Carried random gave_up written w

  after_write-Carries :
      (written buf : List ℕ) (r : FragmentWriter × Poll ℕ)
      → Wrote random gave_up written buf r
      → Carries (after_write random written buf r)
  unfolding after_write
  after_write-Carries written buf (w, ready n) (le, h) = h
  after_write-Carries written buf (w, pending) h = h
  after_write-Carries written buf (w, failed) h = tt
  after_write-Carries written buf (w, panicked) h = tt

  after_flush-Carries :
      (written : List ℕ) (r : FragmentWriter × Poll Unit)
      → Flushed random gave_up written r
      → Carries (after_flush random written r)
  unfolding after_flush
  after_flush-Carries written (w, ready u) h = h
  after_flush-Carries written (w, pending) h = h
  after_flush-Carries written (w, failed) h = tt
  after_flush-Carries written (w, panicked) h = tt

  call-Carries :
      (op : Op) (ops : List Op) (s : List ℕ × FragmentWriter)
      → (gives_up (op ∷ ops) ≡ true → gave_up ≡ true)
      → Carried random gave_up (s.0) (s.1)
      → Carries (call random op s)
  unfolding call gives_up
  call-Carries (write buf) ops (written, w) g h =
      after_write-Carries written buf _
        (poll_write-Wrote random gave_up written buf w h (λ e. g (none_written buf e)))
    where
      none_written : (buf : List ℕ) → buf ≡ [] → gives_up (write buf ∷ ops) ≡ true
      none_written [] e = refl
      none_written (x ∷ xs) e = cc
  call-Carries flush ops (written, w) g h =
      after_flush-Carries written _ (poll_flush-Flushed random gave_up written w (g refl) h)

  later : (op : Op) (ops : List Op) → gives_up ops ≡ true → gives_up (op ∷ ops) ≡ true
  unfolding gives_up
  later (write []) ops e = refl
  later (write (x ∷ xs)) ops e = e
  later flush ops e = refl

  calls-Carries :
      (ops : List Op) (s : List ℕ × FragmentWriter)
      → (gives_up ops ≡ true → gave_up ≡ true)
      → Carried random gave_up (s.0) (s.1)
      → Carries (calls random ops s)
  unfolding calls
  calls-Carries [] s g h = h
  calls-Carries (op ∷ ops) s g h =
      by_call (call random op s) (call-Carries op ops s g h)
        (λ s' h'. calls-Carries ops s' (λ e. g (later op ops e)) h')
    where
      by_call :
          (o : Option (List ℕ × FragmentWriter))
          → Carries o
          → ((s : List ℕ × FragmentWriter)
              → Carried random gave_up (s.0) (s.1)
              → Carries (calls random ops s))
          → Carries (elim o [ none ↦ none | some s' ↦ calls random ops s' ])
      by_call none h ih = tt
      by_call (some s') h ih = ih s' h

-- A writer to a stream that has got nothing yet.
abbrev pub started : List Answer → FragmentParams → List ℕ × FragmentWriter
started given p = ([], new (record { taken = []; answers = given }) p)

calls-Carried :
    (random : ℕ → ℕ) (p : FragmentParams) (given : List Answer) (ops : List Op) (written : List ℕ)
    (w : FragmentWriter)
    → calls random ops (started given p) ≡ some (written, w)
    → Carried random (gives_up ops) written w
unfolding new
calls-Carried random p given ops written w e = subst (Carries random (gives_up ops)) e (
    calls-Carries random (gives_up ops) ops (started given p) (λ g. g)
      (holding (few (omega arith)) refl refl refl refl))

-- Write and flush as one likes, in pieces of any size, to a stream that takes, puts off or refuses each write
-- as it likes. As long as no call has failed, a flush that is ready leaves with the stream all the bytes that
-- the writes said they took, in order. If they begin with a whole record of the handshake type, that record,
-- as long as its header says, is cut as `fragment_clienthello_to_vec` cuts it, and what follows it is as it
-- was; bytes that begin otherwise, or end within the record, are all as they were. Where there was a flush
-- before, or a write of no bytes, all may be as they were in any case.
pub calls-poll_flush-Delivered :
    (random : ℕ → ℕ) (p : FragmentParams) (given : List Answer) (ops : List Op) (written : List ℕ)
    (w w' : FragmentWriter)
    → calls random ops (started given p) ≡ some (written, w)
    → poll_flush w ≡ (w', ready tt)
    → Delivered random (gives_up ops) (w'.params) written (w'.inner.taken)
calls-poll_flush-Delivered random p given ops written w w' e e' =
    poll_flush-Delivered random (gives_up ops) written w w'
      (calls-Carried random p given ops written w e) e'

-- The writer breaks what a shutdown promises, to flush first: while the first record is incomplete it is held
-- back, and a shutdown then succeeds with none of the bytes that the writes took passed on to the stream, all
-- of them still in the writer.
pub calls-poll_shutdown-held :
    (random : ℕ → ℕ) (p : FragmentParams) (given : List Answer) (ops : List Op) (written : List ℕ)
    (w : FragmentWriter)
    → calls random ops (started given p) ≡ some (written, w)
    → w.is_done ≡ false
    → (poll_shutdown w ≡ (w, ready tt)) × (w.inner.taken ≡ []) × (w.acc ≡ written)
unfolding poll_shutdown
calls-poll_shutdown-held random p given ops written w e d =
    held (calls-Carried random p given ops written w e) d
  where
    held :
        Carried random (gives_up ops) written w
        → w.is_done ≡ false
        → (drain_pending w ≡ (w, ready tt)) × (w.inner.taken ≡ []) × (w.acc ≡ written)
    held (holding inc d' a o t) d = (nothing_pending w o, t, a)
    held (emitting whole d' em same) d = cc
