-- ===== src/Io/VisionXray/Rounds.antt =====
-- The end of a round of `Unpadder::process` follows the byte machine.
use mathlib.Core.Path.{ap₂}
use hold_the_donut.Prelude.{
  ℕ, ◌+◌, ◌≤◌, ◌<◌, ◌≡◌, ◌≢◌, ◌⊎◌, refl, ap, ◌∙◌, arith, true, false, some, List, length, ◌==◌,
  if◌then◌else◌, All, IsByte, lt_or_le, inl, inr, Bool-cases, ==_iff,
}
use hold_the_donut.Prelude.I32.{minus_one, is_positive, is_positive-small}
use hold_the_donut.Vision.Stream.{head0, settle, run}
use hold_the_donut.Vision.Runs.{settle-block, settle_continue, settle_last, run-raw}
use hold_the_donut.Io.VisionXray.{Unpadder, round_end}
use hold_the_donut.Io.VisionXray.Stands.{
  five, in_block, ended, Follows, Follows-run, Follows-done, Continues,
}

pub record Running (u : Unpadder) : Type 0 where
  pub unfinished : u.finished ≡ false
  pub padded : u.passthrough ≡ false
  pub begun : u.started ≡ true

-- A round that leaves a header unfinished, or a block.
pub round_end-goes_on :
    (again : Unpadder → List ℕ → Unpadder × List ℕ) (u : Unpadder) (b : List ℕ)
    → (is_positive u.remaining_command ≡ true)
      ⊎ ((is_positive u.remaining_content ≡ true) ⊎ (is_positive u.remaining_padding ≡ true))
    → round_end again u b ≡ again u b
unfolding round_end
round_end-goes_on again u b (inl h) = ground arith
round_end-goes_on again u b (inr (inl h)) = ground arith
round_end-goes_on again u b (inr (inr h)) = ground arith

module _ (again : Unpadder → List ℕ → Unpadder × List ℕ) (u : Unpadder) (b : List ℕ) where
  round_end-next :
      u.remaining_command ≡ 0
      → u.remaining_content ≡ 0
      → u.remaining_padding ≡ 0
      → u.current_command ≡ 0
      → round_end again u b ≡ again (record u { remaining_command = 5 }) b
  unfolding round_end
  round_end-next c0 e p k = ground arith

  round_end-last :
      u.remaining_command ≡ 0
      → u.remaining_content ≡ 0
      → u.remaining_padding ≡ 0
      → u.current_command ≢ 0
      → round_end again u b ≡ (
        record u {
          remaining_command = minus_one;
          remaining_content = minus_one;
          remaining_padding = minus_one;
          finished = true;
          direct = if u.current_command == 2 then true else u.direct;
        },
        b,
      )
  unfolding round_end
  round_end-last c0 e p k = ground arith

-- The end of a block: nothing is left of it, or something is.
pub round_end-Follows :
    (again : Unpadder → List ℕ → Unpadder × List ℕ) (n : ℕ) (u : Unpadder) (b : List ℕ)
    → Running u
    → u.remaining_command ≡ 0
    → u.remaining_content < 65536
    → u.remaining_padding < 65536
    → Continues again n
    → length b ≤ n
    → All IsByte b
    → Follows u.user_uuid
        (settle u.current_command u.remaining_content u.remaining_padding)
        b
        (round_end again u b)
round_end-Follows again n u b r c0 hc hp go le bytes =
    elim (lt_or_le 0 (u.remaining_content + u.remaining_padding)) [
      | inl left ↦
          rw
            (
              round_end-goes_on again u b (positive left),
              settle-block u.current_command u.remaining_content u.remaining_padding left,
            )
            (go u _ b r.unfinished r.padded r.begun (in_block c0 hc hp left refl) le bytes)
      | inr over ↦
          let c : u.remaining_content ≡ 0 = omega arith in
          let p : u.remaining_padding ≡ 0 = omega arith in
          let same : settle u.current_command u.remaining_content u.remaining_padding
              ≡ settle u.current_command 0 0 =
            ap₂ (settle u.current_command) c p in
          elim (Bool-cases (u.current_command == 0)) [
            | inl next ↦
                let k : u.current_command ≡ 0 = (==_iff _ _).0 next in
                rw (round_end-next again u b c0 c p k) (
                  Follows-run
                    (ap (λ ph. run u.user_uuid ph b)
                      (same ∙ ap (λ m. settle m 0 0) k ∙ settle_continue))
                    (go (record u { remaining_command = 5 }) head0 b r.unfinished r.padded r.begun
                      (five refl refl) le bytes))
            | inr last ↦
                let k : u.current_command ≢ 0 = ground arith in
                rw (round_end-last again u b c0 c p k) (
                  Follows-done
                    (ap (λ ph. run u.user_uuid ph b) (same ∙ settle_last u.current_command k)
                      ∙ run-raw u.user_uuid (some u.current_command) b)
                    refl (ended refl refl) refl)
          ]
    ]
  where
    positive :
        0 < u.remaining_content + u.remaining_padding
        → (is_positive u.remaining_command ≡ true)
          ⊎ ((is_positive u.remaining_content ≡ true) ⊎ (is_positive u.remaining_padding ≡ true))
    positive left = elim (lt_or_le 0 u.remaining_content) [
      | inl h ↦ inr (inl (is_positive-small u.remaining_content h hc))
      | inr h ↦ inr (inr (is_positive-small u.remaining_padding (omega arith) hp))
    ]
