-- ===== src/Server/Fragment/Passed.antt =====
-- What `drain` of `FragmentWriter` leads to.
use hold_the_donut.Prelude.{
  ℕ, ◌≡◌, refl, ap, sym, ◌∙◌, inl, inr, Bool, true, false, Bool-cases, List, [], ◌∷◌, ◌++◌,
  append-nil, drop, if◌then◌else◌, arith,
}
use hold_the_donut.Server.Fragment.{FragmentParams}
use hold_the_donut.Server.Fragment.Adapter.{
  Poll, ready, pending, failed, panicked, Inner, FragmentWriter, after_drain, drain, is_empty,
  drain_pending,
}
use hold_the_donut.Server.Fragment.Drained.{drop_past, Drained, drain_loop-Drained}

pub if_true : {A : Type 0} {b : Bool} (x y : A) → b ≡ true → (if b then x else y) ≡ x
if_true x y e = rw e refl

pub if_false : {A : Type 0} {b : Bool} (x y : A) → b ≡ false → (if b then x else y) ≡ y
if_false x y e = rw e refl

pub nothing_pending : (w : FragmentWriter) → w.out ≡ [] → drain_pending w ≡ (w, ready tt)
unfolding drain_pending is_empty
nothing_pending w o = if_true _ _ (ap is_empty o)

-- After a draining: all is with the stream, or what is left is pending; `E` holds of the whole.
abbrev pub Passed : (FragmentParams → List ℕ → Type 0) → FragmentWriter × Poll Unit → Type 0
Passed E (w, ready u) = (w.is_done ≡ true) × E (w.params) (w.inner.taken) × (w.out ≡ [])
Passed E (w, pending) =
    (whole : List ℕ) × (w.is_done ≡ true)
    × E (w.params) whole
    × (w.inner.taken ++ drop (w.out_pos) (w.out) ≡ whole)
Passed E (w, failed) = Unit
Passed E (w, panicked) = Unit

after_drain-Passed :
    (E : FragmentParams → List ℕ → Type 0) (whole : List ℕ) (w : FragmentWriter)
    (r : (ℕ × Inner) × Poll Unit)
    → w.is_done ≡ true
    → E (w.params) whole
    → Drained (w.out) whole r
    → Passed E (after_drain w r)
unfolding after_drain
after_drain-Passed E whole w ((pos, s), ready u) done em same = (done, rw same em, refl)
after_drain-Passed E whole w ((pos, s), pending) done em same = (whole, done, em, same)
after_drain-Passed E whole w ((pos, s), failed) done em same = tt
after_drain-Passed E whole w ((pos, s), panicked) done em same = tt

pub drain-Passed :
    (E : FragmentParams → List ℕ → Type 0) (whole : List ℕ) (w : FragmentWriter)
    → w.is_done ≡ true
    → E (w.params) whole
    → w.inner.taken ++ drop (w.out_pos) (w.out) ≡ whole
    → Passed E (drain w)
unfolding drain
drain-Passed E whole w done em same =
    after_drain-Passed E whole w _ done em
      (rw same at (drain_loop-Drained (w.out) (w.out_pos) (w.inner.taken) (w.inner.answers)))

pub empty_nil : (xs : List ℕ) → is_empty xs ≡ true → xs ≡ []
unfolding is_empty
empty_nil [] e = refl
empty_nil (x ∷ xs) e = cc

pub drain_pending-Passed :
    (E : FragmentParams → List ℕ → Type 0) (whole : List ℕ) (w : FragmentWriter)
    → w.is_done ≡ true
    → E (w.params) whole
    → w.inner.taken ++ drop (w.out_pos) (w.out) ≡ whole
    → Passed E (drain_pending w)
unfolding drain_pending
drain_pending-Passed E whole w done em same = elim (Bool-cases (is_empty (w.out))) [
  | inl t ↦ rw t (done, rw (sym (all_taken (empty_nil (w.out) t))) em, empty_nil (w.out) t)
  | inr f ↦ rw f (drain-Passed E whole w done em same)
]
  where
    all_taken : w.out ≡ [] → whole ≡ w.inner.taken
    all_taken e =
        sym same
        ∙ ap (λ t. w.inner.taken ++ drop (w.out_pos) t) e
        ∙ ap (λ t. w.inner.taken ++ t) (drop_past (w.out_pos) [] (omega arith))
        ∙ append-nil (w.inner.taken)
