-- ===== src/Vision/Runs.antt =====
-- Runs of the machine over a stretch of bytes.
use hold_the_donut.Prelude.{
  ℕ, zero, suc, ◌+◌, ◌*◌, ◌≤◌, ◌<◌, ◌≡◌, refl, ◌∙◌, arith, Option, none, some, List, [], ◌∷◌, ◌++◌,
  length, take, drop, if◌then◌else◌, bytes_eq, append_assoc, append-nil, length-append,
  take-append_le, drop-append_le, Bool-cases, inl, inr, lt→ltb, le→ltb, lt_or_le, length-drop,
  ne→==, ◌≢◌,
}
use hold_the_donut.Vision.Stream.{
  Phase, detect, head0, block, raw, settle, header, decide, step, run,
}

pub settle-block : (command c p : ℕ) → 0 < c + p → settle command c p ≡ block command c p
unfolding settle
settle-block command (suc c) p h = refl
settle-block command zero (suc p) h = refl
settle-block command zero zero h = absurd (omega arith)

pub settle_continue : settle 0 0 0 ≡ head0
unfolding settle
settle_continue = refl

pub settle_last : (command : ℕ) → command ≢ 0 → settle command 0 0 ≡ raw (some command)
unfolding settle
settle_last command h = rw (ne→== command 0 h)

module _ (uuid : List ℕ) where
  -- Two stretches are run one after the other.
  pub run-append :
      (ph : Phase) (xs ys : List ℕ)
      → run uuid ph (xs ++ ys) ≡ (
        (run uuid (run uuid ph xs).0 ys).0,
        (run uuid ph xs).1 ++ (run uuid (run uuid ph xs).0 ys).1,
      )
  unfolding run
  run-append ph [] ys = refl
  run-append ph (x ∷ xs) ys = rw (run-append (step uuid ph x).0 xs ys, append_assoc)

  pub run-raw : (end : Option ℕ) (xs : List ℕ) → run uuid (raw end) xs ≡ (raw end, xs)
  unfolding run
  run-raw end [] = refl
  run-raw end (x ∷ xs) = rw (run-raw end xs)

  pub run-header :
      (a b c d e : ℕ) (rest : List ℕ)
      → run uuid head0 (a ∷ b ∷ c ∷ d ∷ e ∷ rest)
        ≡ run uuid (settle a (b * 256 + c) (d * 256 + e)) rest
  unfolding run
  run-header a b c d e rest = refl

  -- Padding is skipped.
  pub run-padding :
      (command padding : ℕ) (xs : List ℕ)
      → padding ≤ length xs
      → run uuid (settle command zero padding) xs
        ≡ run uuid (settle command zero zero) (drop padding xs)
  unfolding run
  run-padding command zero xs h = refl
  run-padding command (suc padding) [] h = absurd (omega arith)
  run-padding command (suc padding) (x ∷ xs) h = run-padding command padding xs (omega arith)

  pub run-padding_short :
      (command padding left : ℕ) (xs : List ℕ)
      → padding ≡ length xs + suc left
      → run uuid (settle command zero padding) xs ≡ (block command zero (suc left), [])
  unfolding run
  run-padding_short command padding left [] h =
      let same : padding ≡ suc left = omega arith in rw same
  run-padding_short command zero left (x ∷ xs) h = absurd (omega arith)
  run-padding_short command (suc padding) left (x ∷ xs) h =
      run-padding_short command padding left xs (omega arith)

  -- Content is passed on.
  pub run-content :
      (command content padding : ℕ) (xs : List ℕ)
      → content ≤ length xs
      → run uuid (settle command content padding) xs ≡ (
        (run uuid (settle command zero padding) (drop content xs)).0,
        take content xs ++ (run uuid (settle command zero padding) (drop content xs)).1,
      )
  unfolding run
  run-content command zero padding xs h = refl
  run-content command (suc content) padding [] h = absurd (omega arith)
  run-content command (suc content) padding (x ∷ xs) h =
      rw (run-content command content padding xs (omega arith))

  -- A part of the content, and a part of the padding.
  pub run-content_part :
      (command n content padding : ℕ) (xs : List ℕ)
      → n ≤ length xs
      → run uuid (settle command (n + content) padding) xs ≡ (
        (run uuid (settle command content padding) (drop n xs)).0,
        take n xs ++ (run uuid (settle command content padding) (drop n xs)).1,
      )
  unfolding run
  run-content_part command zero content padding xs h =
      let same : zero + content ≡ content = omega arith in rw same
  run-content_part command (suc n) content padding [] h = absurd (omega arith)
  run-content_part command (suc n) content padding (x ∷ xs) h =
      let more : suc n + content ≡ suc (n + content) = omega arith in
      rw more (rw (run-content_part command n content padding xs (omega arith)))

  pub run-padding_part :
      (command n padding : ℕ) (xs : List ℕ)
      → n ≤ length xs
      → run uuid (settle command zero (n + padding)) xs
        ≡ run uuid (settle command zero padding) (drop n xs)
  unfolding run
  run-padding_part command zero padding xs h =
      let same : zero + padding ≡ padding = omega arith in rw same
  run-padding_part command (suc n) padding [] h = absurd (omega arith)
  run-padding_part command (suc n) padding (x ∷ xs) h =
      let more : suc n + padding ≡ suc (n + padding) = omega arith in
      rw more (run-padding_part command n padding xs (omega arith))

  pub run-content_short :
      (command content padding left : ℕ) (xs : List ℕ)
      → content ≡ length xs + suc left
      → run uuid (settle command content padding) xs ≡ (block command (suc left) padding, xs)
  unfolding run
  run-content_short command content padding left [] h =
      let same : content ≡ suc left = omega arith in rw same
  run-content_short command zero padding left (x ∷ xs) h = absurd (omega arith)
  run-content_short command (suc content) padding left (x ∷ xs) h =
      rw (run-content_short command content padding left xs (omega arith))

  -- The first 21 bytes, in whatever pieces they come.
  pub run-detect_short :
      (seen xs : List ℕ)
      → length (seen ++ xs) < 21
      → run uuid (detect seen) xs ≡ (detect (seen ++ xs), [])
  unfolding run
  run-detect_short seen [] h = rw append-nil
  run-detect_short seen (x ∷ xs) h =
      let group = append_assoc seen (x ∷ []) xs in
      let count : length (seen ++ (x ∷ [])) < 21 =
        omega (arith, length-append seen (x ∷ []), length-append seen (x ∷ xs)) in
      rw (lt→ltb _ _ count) (run-detect_short (seen ++ (x ∷ [])) xs (rw group h) ∙ rw group)

  run-decided :
      (seen xs : List ℕ)
      → length seen ≡ 21
      → (
        (run uuid (decide uuid seen).0 xs).0,
        (decide uuid seen).1 ++ (run uuid (decide uuid seen).0 xs).1,
      )
        ≡ (if bytes_eq (take 16 (seen ++ xs)) uuid
            then run uuid head0 (drop 16 (seen ++ xs))
            else (raw none, seen ++ xs))
  unfolding decide
  run-decided seen xs h =
      rw (take-append_le 16 seen xs (omega arith), drop-append_le 16 seen xs (omega arith))
        (elim (Bool-cases (bytes_eq (take 16 seen) uuid)) [
          | inr foreign ↦ rw (foreign, run-raw none xs)
          | inl vision ↦ rw vision (five (drop 16 seen) (length-drop 16 seen ∙ omega arith))
        ])
    where
      five :
          (h : List ℕ)
          → length h ≡ 5
          → ((run uuid (header h) xs).0, (run uuid (header h) xs).1) ≡ run uuid head0 (h ++ xs)
      five (a ∷ b ∷ c ∷ d ∷ e ∷ []) l = unfold run header in refl
      five [] l = absurd (omega arith)
      five (a ∷ []) l = absurd (omega arith)
      five (a ∷ b ∷ []) l = absurd (omega arith)
      five (a ∷ b ∷ c ∷ []) l = absurd (omega arith)
      five (a ∷ b ∷ c ∷ d ∷ []) l = absurd (omega arith)
      five (a ∷ b ∷ c ∷ d ∷ e ∷ f ∷ r) l = absurd (omega arith)

  pub run-detect :
      (seen xs : List ℕ)
      → length seen < 21
      → 21 ≤ length (seen ++ xs)
      → run uuid (detect seen) xs ≡ (
          if bytes_eq (take 16 (seen ++ xs)) uuid
          then run uuid head0 (drop 16 (seen ++ xs))
          else (raw none, seen ++ xs))
  unfolding run
  run-detect seen [] h k = absurd (omega (arith, length-append seen []))
  run-detect seen (x ∷ xs) h k =
      let group = append_assoc seen (x ∷ []) xs in
      elim (lt_or_le (length (seen ++ (x ∷ []))) 21) [
        | inl more ↦
            rw (lt→ltb _ _ more) (run-detect (seen ++ (x ∷ [])) xs more (rw group k) ∙ rw group)
        | inr enough ↦ rw (le→ltb _ _ enough) (
            run-decided (seen ++ (x ∷ [])) xs (omega (arith, length-append seen (x ∷ [])))
            ∙ rw group)
      ]
