-- ===== src/Wire/Vision/Phase.antt =====
-- Where a `VisionUnpadder` stands in the byte machine of `Vision.Stream`.
use hold_the_donut.Prelude.{
  ℕ, ◌+◌, ◌*◌, ◌<◌, ◌≡◌, refl, sym, ◌∙◌, arith, true, false, not, none, some, List, [], ◌∷◌, length,
  if◌then◌else◌,
}
use hold_the_donut.Vision.Stream.{Phase, detect, head0, head1, head2, head3, head4, block, raw, run}
use hold_the_donut.Vision.Runs.{}
use hold_the_donut.Wire.Vision.{VisionUnpadder}

-- The bytes of a header that is not whole.
unfoldable pub head_of : List ℕ → Phase
head_of [] = head0
head_of (a ∷ []) = head1 a
head_of (a ∷ b ∷ []) = head2 a b
head_of (a ∷ b ∷ c ∷ []) = head3 a (b * 256 + c)
head_of (a ∷ b ∷ c ∷ d ∷ _) = head4 a (b * 256 + c) d

-- Where the machine stands, by the state of the unpadder between two calls of `push`.
unfoldable pub phase : VisionUnpadder → Phase
unfolding head_of
phase u =
    if u.direct
    then (if u.started then raw (some u.current_command) else raw none)
    else if not u.started
    then detect u.pending
    else if u.reading_header
    then head_of u.pending
    else block u.current_command u.remaining_content u.remaining_padding

-- What holds between two calls.
pub record IsUnpadder (u : VisionUnpadder) : Type 0 where
  pub waiting : u.direct ≡ false → u.started ≡ false → length u.pending < 21
  pub heading : u.direct ≡ false → u.started ≡ true → u.reading_header ≡ true → length u.pending < 5
  pub inside :
      u.direct ≡ false
      → u.started ≡ true
      → u.reading_header ≡ false
      → (u.pending ≡ []) × (0 < u.remaining_content + u.remaining_padding)

-- A result `r` that stands where the machine does after `xs` from `ph`.
pub record Follows (uuid : List ℕ) (ph : Phase) (xs : List ℕ) (r : VisionUnpadder × List ℕ)
    : Type 0 where
  pub same : r.0.uuid ≡ uuid
  pub valid : IsUnpadder r.0
  pub runs : (phase r.0, r.1) ≡ run uuid ph xs

pub Follows-run :
    {uuid : List ℕ} {ph ph' : Phase} {xs xs' : List ℕ} {r : VisionUnpadder × List ℕ}
    → run uuid ph xs ≡ run uuid ph' xs'
    → Follows uuid ph' xs' r
    → Follows uuid ph xs r
Follows-run e f = record { same = f.same; valid = f.valid; runs = f.runs ∙ sym e }

pub run-head_of : (uuid xs : List ℕ) → length xs < 5 → run uuid head0 xs ≡ (head_of xs, [])
unfolding run head_of
run-head_of uuid [] h = refl
run-head_of uuid (a ∷ []) h = refl
run-head_of uuid (a ∷ b ∷ []) h = refl
run-head_of uuid (a ∷ b ∷ c ∷ []) h = refl
run-head_of uuid (a ∷ b ∷ c ∷ d ∷ []) h = refl
run-head_of uuid (a ∷ b ∷ c ∷ d ∷ e ∷ xs) h = absurd (omega arith)
