-- ===== src/Server/Fragment/Gathered.antt =====
-- What `finalize` makes of the bytes that `FragmentWriter` has gathered.
use hold_the_donut.Prelude.{
  ℕ, suc, ◌+◌, ◌*◌, ◌≤◌, ◌<◌, ◌≡◌, refl, ap, sym, ◌∙◌, inl, inr, Bool, true, false, ◌&&◌,
  Bool-cases, Option-cases, some, List, [], ◌∷◌, ◌++◌, length, take, drop, get_or, take-append-drop,
  length-take, leb, ◌==◌, ==_iff, lt_or_le, arith,
}
use mathlib.Core.Path.{subst}
use hold_the_donut.Server.Fragment.{FragmentParams, fragment_clienthello_to_vec, record_total}
use hold_the_donut.Server.Fragment.Adapter.{is_empty, Finalized, keep, emit, pick_panics, finalize}
use hold_the_donut.Server.Fragment.Drained.{
  Incomplete, few, short, Emits, given_up, other_type, cut,
}

-- Whether the bytes hold a whole record.
is_whole : List ℕ → Bool
is_whole acc = leb 5 (length acc) && leb (record_total acc) (length acc)

fits-is_whole :
    (t v0 v1 h l : ℕ) (body : List ℕ)
    → h * 256 + l ≤ length body
    → is_whole (t ∷ v0 ∷ v1 ∷ h ∷ l ∷ body) ≡ true
unfolding is_whole record_total
fits-is_whole t v0 v1 h l body le = ground arith

few-is_whole : (acc : List ℕ) → length acc < 5 → is_whole acc ≡ false
unfolding is_whole
few-is_whole acc lt = ground arith

Incomplete-held : (acc : List ℕ) → is_whole acc ≡ false → Incomplete acc
unfolding is_whole record_total
Incomplete-held [] e = few (omega arith)
Incomplete-held (a ∷ []) e = few (omega arith)
Incomplete-held (a ∷ b ∷ []) e = few (omega arith)
Incomplete-held (a ∷ b ∷ c ∷ []) e = few (omega arith)
Incomplete-held (a ∷ b ∷ c ∷ d ∷ []) e = few (omega arith)
Incomplete-held (t ∷ v0 ∷ v1 ∷ h ∷ l ∷ body) e = elim (lt_or_le (length body) (h * 256 + l)) [
  | inl lt ↦ short t v0 v1 h l body lt
  | inr le ↦ cc (sym (fits-is_whole t v0 v1 h l body le) ∙ e)
]

-- A whole record and what is behind it.
record_split :
    (t v0 v1 h l : ℕ) (body : List ℕ)
    → let acc = t ∷ v0 ∷ v1 ∷ h ∷ l ∷ body in
      (take (record_total acc) acc ≡ t ∷ v0 ∷ v1 ∷ h ∷ l ∷ take (h * 256 + l) body)
      × (drop (record_total acc) acc ≡ drop (h * 256 + l) body)
unfolding record_total
record_split t v0 v1 h l body = (rw (five (h * 256 + l)) refl, rw (five (h * 256 + l)) refl)
  where
    five : (n : ℕ) → 5 + n ≡ suc (suc (suc (suc (suc n))))
    five n = omega arith

is_whole_fits :
    (t v0 v1 h l : ℕ) (body : List ℕ)
    → is_whole (t ∷ v0 ∷ v1 ∷ h ∷ l ∷ body) ≡ true
    → h * 256 + l ≤ length body
unfolding is_whole record_total
is_whole_fits t v0 v1 h l body e = ground arith

module _ (random : ℕ → ℕ) (gave_up : Bool) where
  -- What is emitted of the bytes gathered is what they become.
  abbrev pub Finished : FragmentParams → List ℕ → Finalized → Type 0
  Finished p gathered (emit out) = Emits p random gave_up gathered out
  Finished p gathered keep = Incomplete gathered
  Finished p gathered pick_panics = Unit

  Emits-record :
      (p : FragmentParams) (acc out : List ℕ)
      → get_or acc 0 0 ≡ 22
      → is_whole acc ≡ true
      → fragment_clienthello_to_vec (take (record_total acc) acc) p random ≡ some out
      → Emits p random gave_up acc (out ++ drop (record_total acc) acc)
  Emits-record p (t ∷ v0 ∷ v1 ∷ h ∷ l ∷ body) out e whole f =
      let (whole_record, behind) = record_split t v0 v1 h l body in
      subst (λ d. Emits p random gave_up (t ∷ v0 ∷ v1 ∷ h ∷ l ∷ body) (out ++ d)) (sym behind)
        (subst (λ a. Emits p random gave_up a (out ++ drop (h * 256 + l) body)) joined
          (cut v0 v1 h l (take (h * 256 + l) body) (drop (h * 256 + l) body) out
            (omega (arith, length-take (h * 256 + l) body, is_whole_fits t v0 v1 h l body whole))
            (subst (λ r. fragment_clienthello_to_vec r p random ≡ some out)
              (whole_record ∙ ap (λ x. x ∷ v0 ∷ v1 ∷ h ∷ l ∷ take (h * 256 + l) body) e) f)))
    where
      joined :
          22 ∷ v0 ∷ v1 ∷ h ∷ l ∷ (take (h * 256 + l) body ++ drop (h * 256 + l) body)
          ≡ t ∷ v0 ∷ v1 ∷ h ∷ l ∷ body
      joined =
          ap (λ b. 22 ∷ v0 ∷ v1 ∷ h ∷ l ∷ b) (take-append-drop (h * 256 + l) body)
          ∙ ap (λ x. x ∷ v0 ∷ v1 ∷ h ∷ l ∷ body) (sym e)
  Emits-record p [] out e whole f = cc (sym (few-is_whole [] (omega arith)) ∙ whole)
  Emits-record p (a ∷ []) out e whole f = cc (sym (few-is_whole (a ∷ []) (omega arith)) ∙ whole)
  Emits-record p (a ∷ b ∷ []) out e whole f =
      cc (sym (few-is_whole (a ∷ b ∷ []) (omega arith)) ∙ whole)
  Emits-record p (a ∷ b ∷ c ∷ []) out e whole f =
      cc (sym (few-is_whole (a ∷ b ∷ c ∷ []) (omega arith)) ∙ whole)
  Emits-record p (a ∷ b ∷ c ∷ d ∷ []) out e whole f =
      cc (sym (few-is_whole (a ∷ b ∷ c ∷ d ∷ []) (omega arith)) ∙ whole)

  pub finalize-Finished :
      (p : FragmentParams) (acc : List ℕ)
      → (acc ≡ [] → gave_up ≡ true)
      → Finished p acc (finalize p random acc)
  unfolding finalize is_empty is_whole
  finalize-Finished p [] h = given_up (h refl)
  finalize-Finished p (x ∷ xs) h = elim (Bool-cases (x == 22)) [
    | inr f ↦ rw f (other_type x xs (λ e. cc (sym f ∙ (==_iff x 22).1 e)))
    | inl t ↦ elim (Bool-cases (is_whole (x ∷ xs))) [
      | inr f' ↦ rw (t, f') (Incomplete-held (x ∷ xs) f')
      | inl t' ↦
          elim (Option-cases
            (fragment_clienthello_to_vec (take (record_total (x ∷ xs)) (x ∷ xs)) p random)) [
              | inl e ↦ rw (finalize, t, t', e) tt
              | inr (out, e) ↦
                  rw (finalize, t, t', e) (Emits-record p (x ∷ xs) out ((==_iff x 22).0 t) t' e)
            ]
    ]
  ]
