-- ===== src/Server/Fragment/Adapter.antt =====
-- `FragmentWriter` of fragment.rs: the adapter that cuts the first record written through it.
use hold_the_donut.Prelude.{
  ℕ, ◌+◌, min, Bool, true, false, not, ◌&&◌, ◌||◌, none, some, List, [], ◌∷◌, ◌++◌, length, take,
  drop, get_or, ltb, leb, ◌==◌, if◌then◌else◌,
}
use hold_the_donut.Server.Fragment.{FragmentParams, fragment_clienthello_to_vec, record_total}

-- What the wrapped stream answers to a write: it takes so many bytes, is not ready, or fails.
pub data Answer : Type 0 where
  accepts : ℕ → Answer
  not_ready : Answer
  fails : Answer

pub data Poll (A : Type 0) : Type 0 where
  ready : A → Poll A
  pending : Poll A
  failed : Poll A
  panicked : Poll A

-- The wrapped stream: what it has taken, and its answers to come.
pub record Inner : Type 0 where
  pub taken : List ℕ
  pub answers : List Answer

-- A write to it.
unfoldable pub inner_write : Inner → List ℕ → Inner × Poll ℕ
inner_write s buf = elim (s.answers) [
  | [] ↦ (s, pending)
  | accepts n ∷ later ↦
      (record { taken = s.taken ++ take n buf; answers = later }, ready (min n (length buf)))
  | not_ready ∷ later ↦ (record { taken = s.taken; answers = later }, pending)
  | fails ∷ later ↦ (record { taken = s.taken; answers = later }, failed)
]

pub record FragmentWriter : Type 0 where
  pub inner : Inner
  pub params : FragmentParams
  pub acc : List ℕ
  pub out : List ℕ
  pub out_pos : ℕ
  pub is_done : Bool

-- `FragmentWriter::new`
unfoldable pub new : Inner → FragmentParams → FragmentWriter
new s p = record { inner = s; params = p; acc = []; out = []; out_pos = 0; is_done = false }

-- The loop of `drain`: the position it ends at.
unfoldable pub drain_loop : List ℕ → ℕ → List ℕ → List Answer → (ℕ × Inner) × Poll Unit
drain_loop out pos taken [] = (
  (pos, record { taken = taken; answers = [] }),
  if ltb pos (length out) then pending else ready tt,
)
drain_loop out pos taken (not_ready ∷ later) =
    if ltb pos (length out)
    then ((pos, record { taken = taken; answers = later }), pending)
    else ((pos, record { taken = taken; answers = not_ready ∷ later }), ready tt)
drain_loop out pos taken (fails ∷ later) =
    if ltb pos (length out)
    then ((pos, record { taken = taken; answers = later }), failed)
    else ((pos, record { taken = taken; answers = fails ∷ later }), ready tt)
drain_loop out pos taken (accepts n ∷ later) =
    let k = min n (length (drop pos out)) in
    let again = drain_loop out (pos + k) (taken ++ take n (drop pos out)) later in
    if ltb pos (length out)
    then (if k == 0
        then ((pos, record { taken = taken ++ take n (drop pos out); answers = later }), failed)
        else again)
    else ((pos, record { taken = taken; answers = accepts n ∷ later }), ready tt)

-- `drain`: what was written is forgotten once all of it is.
unfoldable pub after_drain : FragmentWriter → (ℕ × Inner) × Poll Unit → FragmentWriter × Poll Unit
after_drain w ((pos, s), ready u) = (
  record { inner = s; params = w.params; acc = w.acc; out = []; out_pos = 0; is_done = w.is_done },
  ready u,
)
after_drain w ((pos, s), other) = (
  record {
    inner = s;
    params = w.params;
    acc = w.acc;
    out = w.out;
    out_pos = pos;
    is_done = w.is_done;
  },
  other,
)

unfoldable pub drain : FragmentWriter → FragmentWriter × Poll Unit
unfolding drain_loop after_drain
drain w = after_drain w (drain_loop (w.out) (w.out_pos) (w.inner.taken) (w.inner.answers))

-- `if !me.out.is_empty() { match me.drain(cx) … }`
unfoldable pub is_empty : List ℕ → Bool
is_empty [] = true
is_empty (x ∷ xs) = false

unfoldable pub drain_pending : FragmentWriter → FragmentWriter × Poll Unit
unfolding drain is_empty
drain_pending w = if is_empty (w.out) then (w, ready tt) else drain w

-- What becomes of the bytes held back: they are kept, or emitted, or the pick panics.
pub data Finalized : Type 0 where
  keep : Finalized
  emit : List ℕ → Finalized
  pick_panics : Finalized

unfoldable pub finalize : FragmentParams → (ℕ → ℕ) → List ℕ → Finalized
unfolding record_total fragment_clienthello_to_vec is_empty
finalize p random acc =
    if is_empty acc || not (get_or acc 0 0 == 22)
    then emit acc
    else if leb 5 (length acc) && leb (record_total acc) (length acc)
    then elim (fragment_clienthello_to_vec (take (record_total acc) acc) p random) [
      | none ↦ pick_panics
      | some out ↦ emit (out ++ drop (record_total acc) acc)
    ]
    else keep

-- The answer to a write that was taken in: an error of the stream, or success even if bytes are still held.
unfoldable pub taken_in : ℕ → FragmentWriter × Poll Unit → FragmentWriter × Poll ℕ
taken_in n (w, failed) = (w, failed)
taken_in n (w, panicked) = (w, panicked)
taken_in n (w, other) = (w, ready n)

unfoldable pub finish_write : FragmentWriter → ℕ → Finalized → FragmentWriter × Poll ℕ
unfolding taken_in drain
finish_write w n keep = (w, ready n)
finish_write w n pick_panics = (w, panicked)
finish_write w n (emit out) = taken_in n (
    drain (record {
      inner = w.inner;
      params = w.params;
      acc = [];
      out = out;
      out_pos = 0;
      is_done = true;
    }))

-- A write once nothing is pending.
unfoldable pub write_through : FragmentWriter → List ℕ → FragmentWriter × Poll ℕ
unfolding inner_write
write_through w buf =
    let r = inner_write (w.inner) buf in
    (
      record {
        inner = r.0;
        params = w.params;
        acc = w.acc;
        out = w.out;
        out_pos = w.out_pos;
        is_done = w.is_done;
      },
      r.1,
    )

unfoldable pub gather : FragmentWriter → List ℕ → FragmentWriter
gather w buf = record {
  inner = w.inner;
  params = w.params;
  acc = w.acc ++ buf;
  out = w.out;
  out_pos = w.out_pos;
  is_done = w.is_done;
}

unfoldable pub write_ready : (ℕ → ℕ) → List ℕ → FragmentWriter → FragmentWriter × Poll ℕ
unfolding write_through gather finalize finish_write
write_ready random buf w =
    if w.is_done
    then write_through w buf
    else finish_write (gather w buf) (length buf) (finalize (w.params) random (w.acc ++ buf))

unfoldable pub write_drained :
    (ℕ → ℕ) → List ℕ → FragmentWriter × Poll Unit → FragmentWriter × Poll ℕ
unfolding write_ready
write_drained random buf (w, ready u) = write_ready random buf w
write_drained random buf (w, pending) = (w, pending)
write_drained random buf (w, failed) = (w, failed)
write_drained random buf (w, panicked) = (w, panicked)

-- `poll_write`
unfoldable pub poll_write : (ℕ → ℕ) → FragmentWriter → List ℕ → FragmentWriter × Poll ℕ
unfolding drain_pending write_drained
poll_write random w buf = write_drained random buf (drain_pending w)

-- `poll_flush`, up to the flush of the wrapped stream.
unfoldable pub give_up : FragmentWriter → FragmentWriter
unfolding is_empty
give_up w =
    if not (w.is_done) && not (is_empty (w.acc))
    then record {
      inner = w.inner;
      params = w.params;
      acc = [];
      out = w.acc;
      out_pos = 0;
      is_done = true;
    }
    else w

unfoldable pub poll_flush : FragmentWriter → FragmentWriter × Poll Unit
unfolding give_up drain_pending
poll_flush w = drain_pending (give_up w)

-- `poll_shutdown`, up to the shutdown of the wrapped stream.
unfoldable pub poll_shutdown : FragmentWriter → FragmentWriter × Poll Unit
unfolding drain_pending
poll_shutdown w = drain_pending w
