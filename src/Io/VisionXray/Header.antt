-- ===== src/Io/VisionXray/Header.antt =====
-- A round of `Unpadder::process` inside a block header follows the byte machine.
use Prim.Native.Nat.{bit_or}
use hold_the_donut.Prelude.{
  ℕ, ◌+◌, ◌*◌, ◌<◌, ◌≡◌, ◌≢◌, refl, sym, ap, ◌∙◌, arith, true, false, List, ◌∷◌, ◌++◌, length, take,
  drop, All, IsByte, inl,
}
use hold_the_donut.Prelude.Bits.{shifted_bit_or}
use hold_the_donut.Prelude.I32.{is_positive, sub_i32}
use hold_the_donut.Vision.Stream.{Phase, head1, head2, head3, head4, settle, run}
use hold_the_donut.Vision.Runs.{}
use hold_the_donut.Io.VisionXray.{
  Unpadder, set_command, round_end, content_count, padding_count, round,
}
use hold_the_donut.Io.VisionXray.Stands.{
  InStream, five, four, three, two, one, in_block, Follows, Follows-run, Continues,
}
use hold_the_donut.Io.VisionXray.Rounds.{Running, round_end-goes_on, round_end-Follows}

-- One round for each state of the header.
module _ (again : Unpadder → List ℕ → Unpadder × List ℕ) (u : Unpadder) (x : ℕ) (b : List ℕ) where
  round_five :
      u.remaining_command ≡ 5
      → round again u x b
        ≡ round_end again (record u { current_command = x; remaining_command = 4 }) b
  unfolding round set_command sub_i32
  round_five h = ground arith

  round_four :
      u.remaining_command ≡ 4
      → round again u x b
        ≡ round_end again (record u { remaining_content = x * 256; remaining_command = 3 }) b
  unfolding round set_command sub_i32
  round_four h = ground arith

  round_three :
      u.remaining_command ≡ 3
      → round again u x b
        ≡ round_end again
            (record u { remaining_content = bit_or u.remaining_content x; remaining_command = 2 })
            b
  unfolding round set_command sub_i32
  round_three h = ground arith

  round_two :
      u.remaining_command ≡ 2
      → round again u x b
        ≡ round_end again (record u { remaining_padding = x * 256; remaining_command = 1 }) b
  unfolding round set_command sub_i32
  round_two h = ground arith

  round_one :
      u.remaining_command ≡ 1
      → round again u x b
        ≡ round_end again
            (record u { remaining_padding = bit_or u.remaining_padding x; remaining_command = 0 })
            b
  unfolding round set_command sub_i32
  round_one h = ground arith

  pub round_content :
      (n : ℕ)
      → u.remaining_command ≡ 0
      → is_positive u.remaining_content ≡ true
      → content_count u (x ∷ b) ≡ n
      → let r =
          round_end again
            (record u { remaining_content = sub_i32 u.remaining_content n })
            (drop n (x ∷ b)) in
        round again u x b ≡ (r.0, take n (x ∷ b) ++ r.1)
  unfolding round
  round_content n h p e = ground arith

  pub round_padding :
      (n : ℕ)
      → u.remaining_command ≡ 0
      → is_positive u.remaining_content ≡ false
      → padding_count u (x ∷ b) ≡ n
      → round again u x b
        ≡ round_end again
            (record u { remaining_padding = sub_i32 u.remaining_padding n })
            (drop n (x ∷ b))
  unfolding round
  round_padding n h p e = ground arith

-- The value of two bytes, the second joined to the first by `|`.
joined : (w hi x : ℕ) → w ≡ hi * 256 → x < 256 → bit_or w x ≡ hi * 256 + x
joined w hi x e h = ap (λ t. bit_or t x) e ∙ shifted_bit_or 8 x hi h

module _ (again : Unpadder → List ℕ → Unpadder × List ℕ) (u : Unpadder) (x : ℕ) (b : List ℕ)
    (r : Running u) (px : IsByte x) (bytes : All IsByte b) (go : Continues again (length b)) where
  pub header_round-Follows :
      (ph : Phase)
      → InStream u ph
      → u.remaining_command ≢ 0
      → Follows u.user_uuid ph (x ∷ b) (round again u x b)
  unfolding run
  header_round-Follows ph (five c e) n =
      let v : Unpadder = record u { current_command = x; remaining_command = 4 } in
      rw (round_five again u x b c, round_end-goes_on again v b (inl refl))
        (Follows-run (ap (λ p. run u.user_uuid p (x ∷ b)) e)
          (go v (head1 x) b r.unfinished r.padded r.begun (four refl refl) (omega arith) bytes))
  header_round-Follows ph (four c e) n =
      let v : Unpadder = record u { remaining_content = x * 256; remaining_command = 3 } in
      rw (round_four again u x b c, round_end-goes_on again v b (inl refl))
        (Follows-run (ap (λ p. run u.user_uuid p (x ∷ b)) e) (
          go v (head2 u.current_command x) b r.unfinished r.padded r.begun
            (three x refl px refl refl) (omega arith) bytes))
  header_round-Follows ph (three hi c h w e) n =
      let v : Unpadder = record u {
        remaining_content = bit_or u.remaining_content x;
        remaining_command = 2;
      } in
      let value = joined u.remaining_content hi x w px in
      rw (round_three again u x b c, round_end-goes_on again v b (inl refl))
        (Follows-run
          (ap (λ p. run u.user_uuid p (x ∷ b)) e
            ∙ ap (λ t. run u.user_uuid (head3 u.current_command t) b) (sym value))
          (go v (head3 u.current_command (bit_or u.remaining_content x)) b r.unfinished r.padded
            r.begun (two refl (omega (arith, value)) refl) (omega arith) bytes))
  header_round-Follows ph (two c h e) n =
      let v : Unpadder = record u { remaining_padding = x * 256; remaining_command = 1 } in
      rw (round_two again u x b c, round_end-goes_on again v b (inl refl))
        (Follows-run (ap (λ p. run u.user_uuid p (x ∷ b)) e) (
          go v (head4 u.current_command u.remaining_content x) b r.unfinished r.padded r.begun
            (one x refl h px refl refl) (omega arith) bytes))
  header_round-Follows ph (one hi c h k w e) n =
      let v : Unpadder = record u {
        remaining_padding = bit_or u.remaining_padding x;
        remaining_command = 0;
      } in
      let value = joined u.remaining_padding hi x w px in
      rw (round_one again u x b c) (
        Follows-run
          (ap (λ p. run u.user_uuid p (x ∷ b)) e
            ∙ ap (λ t. run u.user_uuid (settle u.current_command u.remaining_content t) b)
                (sym value))
          (round_end-Follows again (length b) v b
            (record { unfinished = r.unfinished; padded = r.padded; begun = r.begun }) refl h
            (omega (arith, value)) go (omega arith) bytes))
  header_round-Follows ph (in_block c h k l e) n = absurd (n c)
