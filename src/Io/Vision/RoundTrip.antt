-- ===== src/Io/Vision/RoundTrip.antt =====
-- What one end encodes the other one decodes.
use hold_the_donut.Prelude.{
  ℕ, zero, suc, ◌+◌, ◌*◌, ◌/◌, ◌%◌, ◌≤◌, ◌<◌, ◌≡◌, refl, ap, sym, ◌∙◌, inl, inr, false, Bool-cases,
  List, [], ◌∷◌, ◌++◌, append-nil, append_assoc, length, drop, replicate, length-append,
  length-replicate, take-append, drop-append, lt_or_le, lt→ltb, le→ltb, le→leb, lt→leb, ◌==◌,
  if◌then◌else◌, All, arith,
}
use hold_the_donut.Io.Vision.{
  VisionConfig, kind_more, kind_end, Draws, InRange, pad_len, write_frame, copy, encode_end,
  encode_loop, at_least_one, encode_copy, finished, emit, after_header, decode_loop, decode_copy,
}

-- A frame at the front is decoded, and what follows it is copied or decoded in turn.
decode_frame :
    (fuel kind pad : ℕ) (payload rest : List ℕ)
    → length payload < 65536
    → pad < 65536
    → decode_loop (suc fuel) (write_frame kind payload pad ++ rest)
      ≡ emit payload (if kind == kind_end then (rest, finished) else decode_loop fuel rest)
unfolding decode_loop after_header write_frame
decode_frame fuel kind pad payload rest small smallp =
    rw
      (
        word (length payload) small,
        word pad smallp,
        append_assoc payload (replicate pad 0) rest,
        take-append payload (replicate pad 0 ++ rest),
        drop-append payload (replicate pad 0 ++ rest),
        skipped,
        le→ltb (length (payload ++ (replicate pad 0 ++ rest))) (length payload)
            (omega (arith, length-append payload (replicate pad 0 ++ rest))),
        le→ltb (length (replicate pad 0 ++ rest)) pad
            (omega (arith, length-append (replicate pad 0) rest, length-replicate {A = ℕ} pad 0)),
      )
      refl
  where
    word : (n : ℕ) → n < 65536 → n / 256 % 256 * 256 + n % 256 ≡ n
    word n h = omega arith

    skipped : drop pad (replicate pad 0 ++ rest) ≡ rest
    skipped =
        ap (λ k. drop k (replicate pad 0 ++ rest)) (sym (length-replicate {A = ℕ} pad 0))
        ∙ drop-append (replicate pad 0) rest

length-write_frame :
    (kind pad : ℕ) (payload rest : List ℕ)
    → length (write_frame kind payload pad ++ rest) ≡ 5 + (length payload + (pad + length rest))
unfolding write_frame
length-write_frame kind pad payload rest = omega (
  arith,
  length-append (payload ++ replicate pad 0) rest,
  length-append payload (replicate pad 0),
  length-replicate {A = ℕ} pad 0,
)

-- A chunk is at most what a frame's header can say; the code reads 16,384 bytes at a time.
abbrev pub Fits : List ℕ → Type 0
Fits c = length c < 65536

end_frame :
    (fuel pad : ℕ)
    → pad < 65536
    → length (write_frame kind_end [] pad) ≤ fuel
    → decode_loop fuel (write_frame kind_end [] pad) ≡ ([], finished)
unfolding emit
end_frame zero pad small le = absurd (omega (arith, length-write_frame kind_end pad [] [], same))
  where
    same : length (write_frame kind_end [] pad ++ []) ≡ length (write_frame kind_end [] pad)
    same = ap length (append-nil (write_frame kind_end [] pad))
end_frame (suc fuel) pad small le =
    ap (decode_loop (suc fuel)) (sym (append-nil (write_frame kind_end [] pad)))
    ∙ decode_frame fuel kind_end pad [] [] (omega arith) small

last_frame :
    (fuel : ℕ) (payload : List ℕ) (pad : ℕ) (rest : List ℕ)
    → length payload < 65536
    → pad < 65536
    → length (write_frame kind_end payload pad ++ rest) ≤ fuel
    → decode_loop fuel (write_frame kind_end payload pad ++ rest) ≡ (payload ++ rest, finished)
unfolding emit
last_frame zero payload pad rest fit smallp le =
    absurd (omega (arith, length-write_frame kind_end pad payload rest))
last_frame (suc fuel) payload pad rest fit smallp le =
    decode_frame fuel kind_end pad payload rest fit smallp

next_frame :
    (fuel : ℕ) (payload : List ℕ) (pad : ℕ) (rest out : List ℕ)
    → length payload < 65536
    → pad < 65536
    → length (write_frame kind_more payload pad ++ rest) ≤ fuel
    → ((f : ℕ) → length rest ≤ f → decode_loop f rest ≡ (out, finished))
    → decode_loop fuel (write_frame kind_more payload pad ++ rest) ≡ (payload ++ out, finished)
unfolding emit
next_frame zero payload pad rest out fit smallp le again =
    absurd (omega (arith, length-write_frame kind_more pad payload rest))
next_frame (suc fuel) payload pad rest out fit smallp le again =
    decode_frame fuel kind_more pad payload rest fit smallp
    ∙ ap (emit payload) (again fuel (omega (arith, length-write_frame kind_more pad payload rest)))

pad_len_lt :
    (draws : Draws) (cfg : VisionConfig) (i : ℕ)
    → InRange draws
    → cfg.max_pad < 65536
    → pad_len draws i cfg < 65536
unfolding pad_len
pad_len_lt draws cfg i range small = elim (Bool-cases (cfg.max_pad == 0)) [
  | inl t ↦ rw t (omega arith)
  | inr f ↦ rw f (omega (arith, range i (cfg.max_pad)))
]

module _ (draws : Draws) (cfg : VisionConfig) (range : InRange draws)
    (small : cfg.max_pad < 65536) where
  encode_end-finished :
      (pad_frames frames fuel : ℕ)
      → frames < pad_frames
      → length (encode_end draws cfg pad_frames frames) ≤ fuel
      → decode_loop fuel (encode_end draws cfg pad_frames frames) ≡ ([], finished)
  unfolding encode_end
  encode_end-finished pad_frames frames fuel lt le = rw (lt→ltb frames pad_frames lt) (
      end_frame fuel (pad_len draws frames cfg) (pad_len_lt draws cfg frames range small)
        (rw (lt→ltb frames pad_frames lt) at le))

  encode_loop-copy :
      (pad_frames frames fuel : ℕ) (reads : List (List ℕ))
      → frames < pad_frames
      → All Fits reads
      → length (encode_loop draws cfg pad_frames frames reads) ≤ fuel
      → decode_loop fuel (encode_loop draws cfg pad_frames frames reads) ≡ (copy reads, finished)
  unfolding encode_loop copy
  encode_loop-copy pad_frames frames fuel [] lt fits le =
      encode_end-finished pad_frames frames fuel lt le
  encode_loop-copy pad_frames frames fuel ([] ∷ reads) lt fits le =
      encode_end-finished pad_frames frames fuel lt le
  encode_loop-copy pad_frames frames fuel ((x ∷ xs) ∷ reads) lt (fit, fits) le =
      let pad = pad_len draws frames cfg in
      let smallp = pad_len_lt draws cfg frames range small in
      elim (lt_or_le (suc frames) pad_frames) [
        | inr last ↦ rw (le→leb pad_frames (suc frames) last) (
            last_frame fuel (x ∷ xs) pad (copy reads) fit smallp
              (rw (le→leb pad_frames (suc frames) last) at le))
        | inl going ↦ rw (lt→leb pad_frames (suc frames) going) (
            next_frame fuel (x ∷ xs) pad (encode_loop draws cfg pad_frames (suc frames) reads)
              (copy reads) fit smallp (rw (lt→leb pad_frames (suc frames) going) at le)
              (λ (f : ℕ) (h : length (encode_loop draws cfg pad_frames (suc frames) reads) ≤ f).
                encode_loop-copy pad_frames (suc frames) f reads going fits h))
      ]

-- Whatever the paddings drawn, and however the bytes of a direction come in, framed first and raw after, the
-- other end ends without an error and writes exactly these bytes, in order. The chunks that are read are
-- shorter than 65,536 bytes, and so are the paddings configured.
pub decode_copy-encode_copy :
    (draws : Draws) (cfg : VisionConfig) (reads : List (List ℕ))
    → InRange draws
    → cfg.max_pad < 65536
    → All Fits reads
    → decode_copy (encode_copy draws cfg reads) ≡ (copy reads, finished)
unfolding decode_copy encode_copy at_least_one
decode_copy-encode_copy draws cfg reads range small fits = elim (Bool-cases (cfg.pad_frames == 0)) [
  | inl t ↦
      rw t (encode_loop-copy draws cfg range small 1 0 _ reads (omega arith) fits (omega arith))
  | inr f ↦ rw f (
      encode_loop-copy draws cfg range small (cfg.pad_frames) 0 _ reads (positive f) fits
        (omega arith))
]
  where
    positive : {n : ℕ} → (n == 0) ≡ false → 0 < n
    positive f = ground arith
