-- ===== src/Wire/Vision/Rounds.antt =====
-- `VisionUnpadder` goes through its blocks as the byte machine does.
use mathlib.Core.Path.{ap₂}
use hold_the_donut.Prelude.{
  ℕ, zero, suc, ◌+◌, ◌*◌, ◌-◌, ◌≤◌, ◌<◌, ◌≡◌, refl, sym, ap, ◌∙◌, arith, true, false, none, some,
  List, [], ◌∷◌, ◌++◌, min, length, take, drop, ◌==◌, append-nil, length-drop, drop-length,
  take-length, lt→ltb, le→ltb, lt_or_le, inl, inr, Bool-cases,
}
use hold_the_donut.Vision.Stream.{Phase, head0, block, settle, run}
use hold_the_donut.Vision.Runs.{
  run-raw, run-header, run-padding, run-padding_short, run-content, run-content_short,
}
use hold_the_donut.Wire.Vision.{
  VisionUnpadder, take_header, header_part, content_part, content_out, padding_part, end_part,
  after_content, block_part, unpad_loop,
}
use hold_the_donut.Wire.Vision.Phase.{phase, IsUnpadder, Follows, Follows-run, run-head_of}

-- The end of a block, given that the rest of the loop follows the machine from its next header.
end_part-Follows :
    (again : VisionUnpadder → VisionUnpadder × List ℕ) (u : VisionUnpadder)
    → u.started ≡ true
    → (u.current_command ≡ 0
        → Follows u.uuid head0 u.pending (again (record u { reading_header = true })))
    → Follows u.uuid (settle u.current_command 0 0) u.pending (end_part again u)
unfolding end_part settle
end_part-Follows again u st go = elim (Bool-cases (u.current_command == 0)) [
  | inl continue ↦ rw continue (go (ground arith))
  | inr last ↦ rw last (record {
    same = refl;
    valid = record { waiting = λ h _. cc; heading = λ h _ _. cc; inside = λ h _ _. cc };
    runs = rw (run-raw u.uuid (some u.current_command) u.pending) (unfold phase in rw st);
  })
]

min_left : (a b : ℕ) → a ≤ b → min a b ≡ a
min_left a b h = omega arith

min_right : (a b : ℕ) → b ≤ a → min a b ≡ b
min_right a b h = omega arith

padding_part_whole :
    (u : VisionUnpadder)
    → u.remaining_padding ≤ length u.pending
    → padding_part u
      ≡ record u { remaining_padding = 0; pending = drop u.remaining_padding u.pending }
unfolding padding_part
padding_part_whole u h =
    let none_left : u.remaining_padding - u.remaining_padding ≡ 0 = omega arith in
    rw (min_left _ _ h) (rw none_left)

padding_part_short :
    (u : VisionUnpadder)
    → length u.pending ≤ u.remaining_padding
    → padding_part u
      ≡ record u { remaining_padding = u.remaining_padding - length u.pending; pending = [] }
unfolding padding_part
padding_part_short u h = rw (min_right _ _ h) (rw (drop-length u.pending))

content_part_whole :
    (u : VisionUnpadder)
    → u.remaining_content ≤ length u.pending
    → (content_part u
        ≡ record u { remaining_content = 0; pending = drop u.remaining_content u.pending })
      × (content_out u ≡ take u.remaining_content u.pending)
unfolding content_part content_out
content_part_whole u h =
    let none_left : u.remaining_content - u.remaining_content ≡ 0 = omega arith in
    (rw (min_left _ _ h) (rw none_left), rw (min_left _ _ h))

content_part_short :
    (u : VisionUnpadder)
    → length u.pending ≤ u.remaining_content
    → (content_part u
        ≡ record u { remaining_content = u.remaining_content - length u.pending; pending = [] })
      × (content_out u ≡ u.pending)
unfolding content_part content_out
content_part_short u h = (
  rw (min_right _ _ h) (rw (drop-length u.pending)),
  rw (min_right _ _ h) (take-length u.pending),
)

-- An unpadder inside a block, or at its end, follows the machine to the end of the buffer.
pub record InBlock (u : VisionUnpadder) : Type 0 where
  pub begun : u.started ≡ true
  pub open_ended : u.direct ≡ false
  pub past_header : u.reading_header ≡ false

pub stops_inside :
    (u : VisionUnpadder)
    → InBlock u
    → u.pending ≡ []
    → 0 < u.remaining_content + u.remaining_padding
    → IsUnpadder u × (phase u ≡ block u.current_command u.remaining_content u.remaining_padding)
unfolding phase
stops_inside u i e h = (
  record {
    waiting = λ _ s. cc (i.begun);
    heading = λ _ _ s. cc (i.past_header);
    inside = λ _ _ _. (e, h);
  },
  rw (i.open_ended, i.begun, i.past_header),
)

-- The continuation of a round: the rest of the loop follows the machine from a header.
abbrev Continues : (VisionUnpadder → VisionUnpadder × List ℕ) → ℕ → Type 0
Continues again n =
    (w : VisionUnpadder)
    → w.started ≡ true
    → w.direct ≡ false
    → w.reading_header ≡ true
    → length w.pending ≤ n
    → Follows w.uuid head0 w.pending (again w)

after_content-Follows :
    (again : VisionUnpadder → VisionUnpadder × List ℕ) (u : VisionUnpadder) (n : ℕ)
    → InBlock u
    → u.remaining_content ≡ 0
    → length u.pending ≤ n
    → Continues again n
    → Follows u.uuid
        (settle u.current_command 0 u.remaining_padding)
        u.pending
        (after_content again u)
unfolding after_content
after_content-Follows again u n i e le go = elim (lt_or_le (length u.pending) u.remaining_padding) [
  | inl short ↦
      let v : VisionUnpadder = record u {
        remaining_padding = u.remaining_padding - length u.pending;
        pending = [];
      } in
      let (valid, here) =
        stops_inside v
          (record { begun = i.begun; open_ended = i.open_ended; past_header = i.past_header }) refl
          (omega arith) in
      let left : u.remaining_padding - length u.pending
          ≡ suc (u.remaining_padding - length u.pending - 1) =
        omega arith in
      rw
        (
          le→ltb 0 u.remaining_content (omega arith),
          padding_part_short u (omega arith),
          lt→ltb 0 (u.remaining_padding - length u.pending) (omega arith),
        )
        (record {
          same = refl;
          valid = valid;
          runs =
              ap (λ p. (p, [])) (here ∙ ap₂ (block u.current_command) e left)
              ∙ sym (
                  run-padding_short u.uuid u.current_command u.remaining_padding
                    (u.remaining_padding - length u.pending - 1) u.pending (omega arith));
        })
  | inr whole ↦
      let v : VisionUnpadder = record u {
        remaining_padding = 0;
        pending = drop u.remaining_padding u.pending;
      } in
      rw (le→ltb 0 u.remaining_content (omega arith), padding_part_whole u whole)
        (Follows-run (run-padding u.uuid u.current_command u.remaining_padding u.pending whole) (
          end_part-Follows again v i.begun λ _.
            go (record v { reading_header = true }) i.begun i.open_ended refl
              (omega (arith, length-drop u.remaining_padding u.pending))))
]

pub block_part-Follows :
    (again : VisionUnpadder → VisionUnpadder × List ℕ) (u : VisionUnpadder) (n : ℕ)
    → InBlock u
    → length u.pending ≤ n
    → Continues again n
    → Follows u.uuid
        (settle u.current_command u.remaining_content u.remaining_padding)
        u.pending
        (block_part again u)
unfolding block_part
block_part-Follows again u n i le go = elim (lt_or_le (length u.pending) u.remaining_content) [
  | inl short ↦
      let (part, out) = content_part_short u (omega arith) in
      let v : VisionUnpadder = record u {
        remaining_content = u.remaining_content - length u.pending;
        pending = [];
      } in
      let (valid, here) =
        stops_inside v
          (record { begun = i.begun; open_ended = i.open_ended; past_header = i.past_header }) refl
          (omega arith) in
      let left : u.remaining_content - length u.pending
          ≡ suc (u.remaining_content - length u.pending - 1) =
        omega arith in
      rw (part, out)
        (unfold after_content in
          rw (lt→ltb 0 (u.remaining_content - length u.pending) (omega arith), append-nil)
            (record {
              same = refl;
              valid = valid;
              runs =
                  ap (λ p. (p, u.pending))
                    (here ∙ ap (λ c. block u.current_command c u.remaining_padding) left)
                  ∙ sym (
                      run-content_short u.uuid u.current_command u.remaining_content
                        u.remaining_padding (u.remaining_content - length u.pending - 1) u.pending
                        (omega arith));
            }))
  | inr whole ↦
      let (part, out) = content_part_whole u whole in
      let v : VisionUnpadder = record u {
        remaining_content = 0;
        pending = drop u.remaining_content u.pending;
      } in
      let f =
        after_content-Follows again v n
          (record { begun = i.begun; open_ended = i.open_ended; past_header = i.past_header }) refl
          (omega (arith, length-drop u.remaining_content u.pending)) go in
      rw (part, out)
        (record {
          same = f.same;
          valid = f.valid;
          runs =
              ap (λ (p : Phase × List ℕ). (p.0, take u.remaining_content u.pending ++ p.1)) f.runs
              ∙ sym (
                  run-content u.uuid u.current_command u.remaining_content u.remaining_padding
                    u.pending whole);
        })
]

header_reading :
    (u : VisionUnpadder) → u.reading_header ≡ true → header_part u ≡ take_header u u.pending
unfolding header_part
header_reading u h = ground arith

pub header_past : (u : VisionUnpadder) → u.reading_header ≡ false → header_part u ≡ some u
unfolding header_part
header_past u h = ground arith

-- A header is there as soon as five bytes are.
data HeaderView (u : VisionUnpadder) (p : List ℕ) : Type 0 where
  partial : length p < 5 → take_header u p ≡ none → HeaderView u p
  whole :
      (a b c d e : ℕ) (rest : List ℕ)
      → p ≡ a ∷ b ∷ c ∷ d ∷ e ∷ rest
      → take_header u p
        ≡ some (record u {
          current_command = a;
          remaining_content = b * 256 + c;
          remaining_padding = d * 256 + e;
          reading_header = false;
          pending = rest;
        })
      → HeaderView u p

header_view : (u : VisionUnpadder) (p : List ℕ) → HeaderView u p
unfolding take_header
header_view u [] = partial (omega arith) refl
header_view u (a ∷ []) = partial (omega arith) refl
header_view u (a ∷ b ∷ []) = partial (omega arith) refl
header_view u (a ∷ b ∷ c ∷ []) = partial (omega arith) refl
header_view u (a ∷ b ∷ c ∷ d ∷ []) = partial (omega arith) refl
header_view u (a ∷ b ∷ c ∷ d ∷ e ∷ rest) = whole a b c d e rest refl refl

pub unpad_loop-Follows :
    (fuel : ℕ) (u : VisionUnpadder)
    → u.started ≡ true
    → u.direct ≡ false
    → u.reading_header ≡ true
    → length u.pending < fuel
    → Follows u.uuid head0 u.pending (unpad_loop fuel u)
unfolding unpad_loop
unpad_loop-Follows zero u st di re le = absurd (omega arith)
unpad_loop-Follows (suc fuel) u st di re le = elim (header_view u u.pending) [
  | partial few nothing ↦
      rw (header_reading u re ∙ nothing, unpad_loop)
        (record {
          same = refl;
          valid = record { waiting = λ _ s. cc; heading = λ _ _ _. few; inside = λ _ _ s. cc };
          runs = unfold phase in rw (di, st, re) (sym (run-head_of u.uuid u.pending few));
        })
  | whole a b c d e rest split found ↦
      rw (header_reading u re ∙ found, unpad_loop)
        (Follows-run (ap (run u.uuid head0) split ∙ run-header u.uuid a b c d e rest) (
          block_part-Follows (unpad_loop fuel)
            (record u {
              current_command = a;
              remaining_content = b * 256 + c;
              remaining_padding = d * 256 + e;
              reading_header = false;
              pending = rest;
            })
            (length rest) (record { begun = st; open_ended = di; past_header = refl }) (omega arith)
            λ w st' di' re' le'.
              unpad_loop-Follows fuel w st' di' re' (omega (arith, ap length split))))
]
