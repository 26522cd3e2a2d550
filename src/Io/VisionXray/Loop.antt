-- ===== src/Io/VisionXray/Loop.antt =====
-- `Unpadder::process` follows the byte machine on a whole buffer.
use hold_the_donut.Prelude.{
  ℕ, zero, suc, ◌+◌, ◌-◌, ◌≤◌, ◌<◌, ◌≡◌, refl, sym, ap, ◌∙◌, arith, false, List, [], ◌∷◌, length,
  take, drop, min, All, All-drop, IsByte, lt_or_le, inl, inr, length-drop,
}
use hold_the_donut.Prelude.I32.{
  is_positive, as_usize, sub_i32-small, as_usize-small, is_positive-small,
}
use hold_the_donut.Vision.Stream.{Phase, block, settle, run}
use hold_the_donut.Vision.Runs.{settle-block, run-content_part, run-padding_part}
use hold_the_donut.Io.VisionXray.{Unpadder, content_count, padding_count, round, process_loop}
use hold_the_donut.Io.VisionXray.Stands.{
  InStream, five, four, three, two, one, in_block, inside, Follows, Follows-run, Follows-prefix,
  Continues,
}
use hold_the_donut.Io.VisionXray.Rounds.{Running, round_end-Follows}
use hold_the_donut.Io.VisionXray.Header.{round_content, round_padding, header_round-Follows}

-- A round takes at least one byte, and no more than the buffer and the block have.
record Count (left : ℕ) (b : List ℕ) (n : ℕ) : Type 0 where
  some_taken : 1 ≤ n
  within : n ≤ left
  there : n ≤ length b

count-eq : (w : ℕ) (b : List ℕ) → w < 65536 → min (as_usize w) (length b) ≡ min w (length b)
count-eq w b h = ap (λ t. min t (length b)) (as_usize-small w h)

count : (w x : ℕ) (b : List ℕ) → 0 < w → Count w (x ∷ b) (min w (length (x ∷ b)))
count w x b h = record { some_taken = omega arith; within = omega arith; there = omega arith }

not_positive : (w : ℕ) → w ≡ 0 → is_positive w ≡ false
not_positive w e = ground arith

module _ (again : Unpadder → List ℕ → Unpadder × List ℕ) (u : Unpadder) (x : ℕ) (b : List ℕ)
    (r : Running u) (px : IsByte x) (bytes : All IsByte b) (go : Continues again (length b))
    (c : u.remaining_command ≡ 0) (h : u.remaining_content < 65536)
    (k : u.remaining_padding < 65536) where
  content_round-Follows :
      0 < u.remaining_content
      → Follows u.user_uuid
          (settle u.current_command u.remaining_content u.remaining_padding)
          (x ∷ b)
          (round again u x b)
  content_round-Follows pos =
      let n = min u.remaining_content (length (x ∷ b)) in
      let m = count u.remaining_content x b pos in
      let left : n + (u.remaining_content - n) ≡ u.remaining_content = omega (arith, m.within) in
      let v : Unpadder = record u { remaining_content = u.remaining_content - n } in
      rw
        (
          round_content again u x b n c (is_positive-small _ pos h)
              (unfold content_count in count-eq u.remaining_content (x ∷ b) h),
          sub_i32-small u.remaining_content n m.within h,
        )
        (Follows-prefix (take n (x ∷ b))
          (ap (λ t. run u.user_uuid (settle u.current_command t u.remaining_padding) (x ∷ b))
              (sym left)
            ∙ run-content_part u.user_uuid u.current_command n (u.remaining_content - n)
                u.remaining_padding (x ∷ b) m.there)
          (round_end-Follows again (length b) v (drop n (x ∷ b))
            (record { unfinished = r.unfinished; padded = r.padded; begun = r.begun }) c
            (omega arith) k go (omega (arith, length-drop n (x ∷ b), m.some_taken))
            (All-drop IsByte n (x ∷ b) (px, bytes))))

  padding_round-Follows :
      u.remaining_content ≡ 0
      → 0 < u.remaining_padding
      → Follows u.user_uuid
          (settle u.current_command 0 u.remaining_padding)
          (x ∷ b)
          (round again u x b)
  padding_round-Follows e pos =
      let n = min u.remaining_padding (length (x ∷ b)) in
      let m = count u.remaining_padding x b pos in
      let left : n + (u.remaining_padding - n) ≡ u.remaining_padding = omega (arith, m.within) in
      let v : Unpadder = record u { remaining_padding = u.remaining_padding - n } in
      rw
        (
          round_padding again u x b n c (not_positive _ e)
              (unfold padding_count in count-eq u.remaining_padding (x ∷ b) k),
          sub_i32-small u.remaining_padding n m.within k,
        )
        (Follows-run
          (ap (λ t. run u.user_uuid (settle u.current_command 0 t) (x ∷ b)) (sym left)
            ∙ run-padding_part u.user_uuid u.current_command n (u.remaining_padding - n) (x ∷ b)
                m.there
            ∙ ap
                (λ t.
                  run u.user_uuid (settle u.current_command t (u.remaining_padding - n))
                    (drop n (x ∷ b)))
                (sym e))
          (round_end-Follows again (length b) v (drop n (x ∷ b))
            (record { unfinished = r.unfinished; padded = r.padded; begun = r.begun }) c h
            (omega arith) go (omega (arith, length-drop n (x ∷ b), m.some_taken))
            (All-drop IsByte n (x ∷ b) (px, bytes))))

  block_round-Follows :
      0 < u.remaining_content + u.remaining_padding
      → Follows u.user_uuid
          (block u.current_command u.remaining_content u.remaining_padding)
          (x ∷ b)
          (round again u x b)
  block_round-Follows pos =
      rw (← settle-block u.current_command u.remaining_content u.remaining_padding pos)
        (elim (lt_or_le 0 u.remaining_content) [
          | inl some_content ↦ content_round-Follows some_content
          | inr none_left ↦
              let e : u.remaining_content ≡ 0 = omega arith in
              Follows-run
                (ap (λ t. run u.user_uuid (settle u.current_command t u.remaining_padding) (x ∷ b))
                  e)
                (padding_round-Follows e (omega arith))
        ])

round-Follows :
    (again : Unpadder → List ℕ → Unpadder × List ℕ) (u : Unpadder) (x : ℕ) (b : List ℕ) (ph : Phase)
    → Running u
    → InStream u ph
    → IsByte x
    → All IsByte b
    → Continues again (length b)
    → Follows u.user_uuid ph (x ∷ b) (round again u x b)
round-Follows again u x b ph r (in_block c h k l e) px bytes go =
    Follows-run (ap (λ p. run u.user_uuid p (x ∷ b)) e)
      (block_round-Follows again u x b r px bytes go c h k l)
round-Follows again u x b ph r (five c e) px bytes go =
    header_round-Follows again u x b r px bytes go ph (five c e) (omega arith)
round-Follows again u x b ph r (four c e) px bytes go =
    header_round-Follows again u x b r px bytes go ph (four c e) (omega arith)
round-Follows again u x b ph r (three hi c h w e) px bytes go =
    header_round-Follows again u x b r px bytes go ph (three hi c h w e) (omega arith)
round-Follows again u x b ph r (two c h e) px bytes go =
    header_round-Follows again u x b r px bytes go ph (two c h e) (omega arith)
round-Follows again u x b ph r (one hi c h k w e) px bytes go =
    header_round-Follows again u x b r px bytes go ph (one hi c h k w e) (omega arith)

pub process_loop-Follows : (fuel : ℕ) → Continues (process_loop fuel) fuel
unfolding process_loop run
process_loop-Follows zero w ph [] f p s i le bytes = record {
  same = refl;
  stands = inside f p s i;
  out = refl;
}
process_loop-Follows zero w ph (x ∷ b) f p s i le bytes = absurd (omega arith)
process_loop-Follows (suc fuel) w ph [] f p s i le bytes = record {
  same = refl;
  stands = inside f p s i;
  out = refl;
}
process_loop-Follows (suc fuel) w ph (x ∷ b) f p s i le (px, bytes) =
    round-Follows (process_loop fuel) w x b ph (record { unfinished = f; padded = p; begun = s }) i
      px bytes
      λ w' ph' b' f' p' s' i' le' bytes'.
        process_loop-Follows fuel w' ph' b' f' p' s' i' (omega arith) bytes'
