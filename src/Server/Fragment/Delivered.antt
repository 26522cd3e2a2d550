-- ===== src/Server/Fragment/Delivered.antt =====
-- What a stream behind `FragmentWriter` has got of the bytes that were written.
use hold_the_donut.Prelude.{
  ℕ, ◌≤◌, ◌≡◌, refl, ap, sym, ◌∙◌, ◌⊎◌, inl, inr, Bool, true, false, not, ◌&&◌, Bool-cases, List,
  [], ◌∷◌, ◌++◌, append-nil, length, take, drop, take-length, arith,
}
use mathlib.Core.Path.{subst}
use hold_the_donut.Server.Fragment.{FragmentParams}
use hold_the_donut.Server.Fragment.Adapter.{
  Answer, accepts, not_ready, fails, Poll, ready, pending, failed, panicked, inner_write,
  FragmentWriter, is_empty, drain_pending, Finalized, keep, emit, pick_panics, finalize, taken_in,
  finish_write, write_through, gather, write_ready, write_drained, poll_write, give_up, poll_flush,
}
use hold_the_donut.Server.Fragment.Drained.{
  Incomplete, Emits, given_up, Emits-append, Carried, holding, emitting, drop_past, take-min,
}
use hold_the_donut.Server.Fragment.Gathered.{Finished, finalize-Finished}
use hold_the_donut.Server.Fragment.Passed.{
  if_true, if_false, nothing_pending, Passed, drain-Passed, empty_nil, drain_pending-Passed,
}

abbrev emitting_out : FragmentWriter → List ℕ → FragmentWriter
emitting_out w out = record {
  inner = w.inner;
  params = w.params;
  acc = [];
  out = out;
  out_pos = 0;
  is_done = true;
}

nil_right : (a b : List ℕ) → a ++ b ≡ [] → b ≡ []
nil_right [] b e = e
nil_right (x ∷ a) b e = cc

module _ (random : ℕ → ℕ) (gave_up : Bool) where
  -- What the bytes written become, in any of the ways of `Emits`.
  abbrev Whole : List ℕ → FragmentParams → List ℕ → Type 0
  Whole written p whole = Emits p random gave_up written whole

  -- What a write leads to: the bytes that it says it took are carried.
  abbrev pub Wrote : List ℕ → List ℕ → FragmentWriter × Poll ℕ → Type 0
  Wrote written buf (w, ready n) =
      (n ≤ length buf) × Carried random gave_up (written ++ take n buf) w
  Wrote written buf (w, pending) = Carried random gave_up written w
  Wrote written buf (w, failed) = Unit
  Wrote written buf (w, panicked) = Unit

  -- With nothing pending the stream has the whole.
  settled :
      (written : List ℕ) (w : FragmentWriter)
      → w.is_done ≡ true
      → Emits (w.params) random gave_up written (w.inner.taken)
      → w.out ≡ []
      → Carried random gave_up written w
  settled written w done em none_left =
      emitting (w.inner.taken) done em
        (rw (none_left, drop_past (w.out_pos) [] (omega arith), append-nil (w.inner.taken)) refl)

  inner_write-Wrote :
      (written buf : List ℕ) (w : FragmentWriter)
      → w.is_done ≡ true
      → Emits (w.params) random gave_up written (w.inner.taken)
      → w.out ≡ []
      → Wrote written buf (write_through w buf)
  unfolding write_through inner_write
  inner_write-Wrote written buf w done em none_left = by_answers (w.inner.answers) refl
    where
      by_answers :
          (given : List Answer) → w.inner.answers ≡ given → Wrote written buf (write_through w buf)
      by_answers [] e = rw (write_through, inner_write, e) (settled written w done em none_left)
      by_answers (not_ready ∷ later) e =
          rw (write_through, inner_write, e) (settled written _ done em none_left)
      by_answers (fails ∷ later) e = rw (write_through, inner_write, e) tt
      by_answers (accepts n ∷ later) e =
          rw (write_through, inner_write, e)
            (
              omega arith,
              rw (take-min n buf) (
                  settled (written ++ take n buf) _ done
                    (Emits-append (w.params) random gave_up (take n buf) em) none_left),
            )

  taken_in-Wrote :
      (written buf : List ℕ) (r : FragmentWriter × Poll Unit)
      → Passed (Whole (written ++ buf)) r
      → Wrote written buf (taken_in (length buf) r)
  unfolding taken_in
  taken_in-Wrote written buf (w, ready u) (done, em, none_left) =
      (omega arith, rw (take-length buf) (settled (written ++ buf) w done em none_left))
  taken_in-Wrote written buf (w, pending) (whole, done, em, same) =
      (omega arith, rw (take-length buf) (emitting whole done em same))
  taken_in-Wrote written buf (w, failed) h = tt
  taken_in-Wrote written buf (w, panicked) h = tt

  finish_write-Wrote :
      (written buf : List ℕ) (w : FragmentWriter) (f : Finalized)
      → w.is_done ≡ false
      → w.acc ≡ written ++ buf
      → w.out ≡ []
      → w.inner.taken ≡ []
      → Finished random gave_up (w.params) (written ++ buf) f
      → Wrote written buf (finish_write w (length buf) f)
  unfolding finish_write
  finish_write-Wrote written buf w keep d a o t h =
      (omega arith, rw (take-length buf) (holding h d a o t))
  finish_write-Wrote written buf w pick_panics d a o t h = tt
  finish_write-Wrote written buf w (emit out) d a o t h =
      taken_in-Wrote written buf _ (
        drain-Passed (Whole (written ++ buf)) out (emitting_out w out) refl h
          (ap (λ x. x ++ out) t))

  write_ready-Wrote_done :
      (written buf : List ℕ) (w : FragmentWriter)
      → w.is_done ≡ true
      → Emits (w.params) random gave_up written (w.inner.taken)
      → w.out ≡ []
      → Wrote written buf (write_ready random buf w)
  unfolding write_ready
  write_ready-Wrote_done written buf w done em none_left =
      subst (Wrote written buf) (sym (if_true _ _ done))
        (inner_write-Wrote written buf w done em none_left)

  write_ready-Wrote_held :
      (written buf : List ℕ) (w : FragmentWriter)
      → w.is_done ≡ false
      → w.acc ≡ written
      → w.out ≡ []
      → w.inner.taken ≡ []
      → (buf ≡ [] → gave_up ≡ true)
      → Wrote written buf (write_ready random buf w)
  unfolding write_ready gather
  write_ready-Wrote_held written buf w d a o t given =
      subst (Wrote written buf) (sym (if_false _ _ d)) (
        finish_write-Wrote written buf (gather w buf) (finalize (w.params) random (w.acc ++ buf)) d
          (ap (λ x. x ++ buf) a) o t
          (subst
            (λ x. Finished random gave_up (w.params) x (finalize (w.params) random (w.acc ++ buf)))
            (ap (λ x. x ++ buf) a)
            (finalize-Finished random gave_up (w.params) (w.acc ++ buf)
              (λ e. given (nil_right (w.acc) buf e)))))

  write_drained-Wrote :
      (written buf : List ℕ) (r : FragmentWriter × Poll Unit)
      → Passed (Whole written) r
      → Wrote written buf (write_drained random buf r)
  unfolding write_drained
  write_drained-Wrote written buf (w, ready u) (done, em, none_left) =
      write_ready-Wrote_done written buf w done em none_left
  write_drained-Wrote written buf (w, pending) (whole, done, em, same) = emitting whole done em same
  write_drained-Wrote written buf (w, failed) h = tt
  write_drained-Wrote written buf (w, panicked) h = tt

  pub poll_write-Wrote :
      (written buf : List ℕ) (w : FragmentWriter)
      → Carried random gave_up written w
      → (buf ≡ [] → gave_up ≡ true)
      → Wrote written buf (poll_write random w buf)
  unfolding poll_write write_drained
  poll_write-Wrote written buf w (holding inc d a o t) given =
      subst (λ r. Wrote written buf (write_drained random buf r)) (sym (nothing_pending w o))
        (write_ready-Wrote_held written buf w d a o t given)
  poll_write-Wrote written buf w (emitting whole done em same) given =
      write_drained-Wrote written buf (drain_pending w)
        (drain_pending-Passed (Whole written) whole w done em same)

  flush_done :
      (written whole : List ℕ) (w : FragmentWriter)
      → w.is_done ≡ true
      → Emits (w.params) random gave_up written whole
      → w.inner.taken ++ drop (w.out_pos) (w.out) ≡ whole
      → Passed (Whole written) (poll_flush w)
  unfolding poll_flush give_up
  flush_done written whole w done em same =
      subst (λ v. Passed (Whole written) (drain_pending v)) (sym (given done))
        (drain_pending-Passed (Whole written) whole w done em same)
    where
      given : w.is_done ≡ true → give_up w ≡ w
      given d = if_false _ _ (ap (λ t. not t && not (is_empty (w.acc))) d)

  -- A flush in between keeps the bytes carried.
  abbrev pub Flushed : List ℕ → FragmentWriter × Poll Unit → Type 0
  Flushed written (w, ready u) = Carried random gave_up written w
  Flushed written (w, pending) = Carried random gave_up written w
  Flushed written (w, failed) = Unit
  Flushed written (w, panicked) = Unit

  -- What a stream has got once all is flushed.
  abbrev pub Delivered : FragmentParams → List ℕ → List ℕ → Type 0
  Delivered p written taken =
      Emits p random gave_up written taken ⊎ (Incomplete written × (taken ≡ written))

  Passed-Flushed :
      (written : List ℕ) (r : FragmentWriter × Poll Unit)
      → Passed (Whole written) r
      → Flushed written r
  Passed-Flushed written (w, ready u) (done, em, none_left) = settled written w done em none_left
  Passed-Flushed written (w, pending) (whole, done, em, same) = emitting whole done em same
  Passed-Flushed written (w, failed) h = tt
  Passed-Flushed written (w, panicked) h = tt

  give_up_held :
      (w : FragmentWriter)
      → w.is_done ≡ false
      → is_empty (w.acc) ≡ false
      → give_up w ≡ emitting_out w (w.acc)
  unfolding give_up
  give_up_held w d e = if_true _ _ (both d e)
    where
      both : {a b : Bool} → a ≡ false → b ≡ false → (not a && not b) ≡ true
      both p q = rw (p, q) refl

  give_up_empty : (w : FragmentWriter) → is_empty (w.acc) ≡ true → give_up w ≡ w
  unfolding give_up
  give_up_empty w e = if_false _ _ (empty_out (not (w.is_done)) e)
    where
      empty_out : (a : Bool) {b : Bool} → b ≡ true → (a && not b) ≡ false
      empty_out true q = rw q refl
      empty_out false q = refl

  -- A flush of what is held back: it goes out as it is.
  flush_held :
      (written : List ℕ) (w : FragmentWriter)
      → Incomplete written
      → w.is_done ≡ false
      → w.acc ≡ written
      → w.out ≡ []
      → w.inner.taken ≡ []
      → (Passed (λ p whole. whole ≡ written) (poll_flush w))
        ⊎ ((poll_flush w ≡ (w, ready tt)) × (written ≡ []))
  unfolding poll_flush
  flush_held written w inc d a o t = elim (Bool-cases (is_empty (w.acc))) [
    | inl e ↦
        inr
          (ap drain_pending (give_up_empty w e) ∙ nothing_pending w o, sym a ∙ empty_nil (w.acc) e)
    | inr f ↦ inl (
        subst (λ v. Passed (λ p whole. whole ≡ written) (drain_pending v))
          (sym (give_up_held w d f))
          (drain_pending-Passed (λ p whole. whole ≡ written) written (emitting_out w (w.acc)) refl
            refl (ap (λ x. x ++ w.acc) t ∙ a)))
  ]

  given_up-Flushed :
      (written : List ℕ) (r : FragmentWriter × Poll Unit)
      → gave_up ≡ true
      → Passed (λ p whole. whole ≡ written) r
      → Flushed written r
  given_up-Flushed written (w, ready u) g (done, em, none_left) =
      settled written w done (rw em (given_up g)) none_left
  given_up-Flushed written (w, pending) g (whole, done, em, same) =
      emitting whole done (rw em (given_up g)) same
  given_up-Flushed written (w, failed) g h = tt
  given_up-Flushed written (w, panicked) g h = tt

  -- A flush in between, where the writer may have given up by then.
  pub poll_flush-Flushed :
      (written : List ℕ) (w : FragmentWriter)
      → gave_up ≡ true
      → Carried random gave_up written w
      → Flushed written (poll_flush w)
  poll_flush-Flushed written w g (emitting whole done em same) =
      Passed-Flushed written (poll_flush w) (flush_done written whole w done em same)
  poll_flush-Flushed written w g (holding inc d a o t) = elim (flush_held written w inc d a o t) [
    | inl passed ↦ given_up-Flushed written (poll_flush w) g passed
    | inr (still, e) ↦ subst (Flushed written) (sym still) (holding inc d a o t)
  ]

  -- The last flush, if it is ready.
  pub poll_flush-Delivered :
      (written : List ℕ) (w w' : FragmentWriter)
      → Carried random gave_up written w
      → poll_flush w ≡ (w', ready tt)
      → Delivered (w'.params) written (w'.inner.taken)
  poll_flush-Delivered written w w' (emitting whole done em same) e =
      inl ((subst (Passed (Whole written)) e (flush_done written whole w done em same)).1)
  poll_flush-Delivered written w w' (holding inc d a o t) e =
      elim (flush_held written w inc d a o t) [
        | inl passed ↦ inr (inc, (subst (Passed (λ p whole. whole ≡ written)) e passed).1)
        | inr (still, none) ↦ inr (inc, ap (λ r. r.0.inner.taken) (sym e ∙ still) ∙ t ∙ sym none)
      ]
