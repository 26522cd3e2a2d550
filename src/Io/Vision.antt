-- ===== src/Io/Vision.antt =====
-- crates/donut-io/src/vision.rs: the first chunks of each direction are framed and padded, the rest is copied.
pub mod RoundTrip
use hold_the_donut.Prelude.{
  ℕ, zero, suc, ◌+◌, ◌*◌, ◌≤◌, ◌<◌, Bool, true, false, List, [], ◌∷◌, ◌++◌, length, take, drop,
  replicate, ltb, leb, ◌==◌, if◌then◌else◌, be16,
}

pub record VisionConfig : Type 0 where
  pub pad_frames : ℕ
  pub max_pad : ℕ

-- `VisionConfig::default`
abbrev pub default_vision : VisionConfig
default_vision = record { pad_frames = 4; max_pad = 900 }

abbrev pub kind_more : ℕ
kind_more = 0

abbrev pub kind_end : ℕ
kind_end = 1

-- `gen_range(0..=max)`: a number of each draw, given the number of the draw.
abbrev pub Draws : Type 0
Draws = ℕ → ℕ → ℕ

abbrev pub InRange : Draws → Type 0
InRange draws = (i max : ℕ) → draws i max ≤ max

-- `pad_len`
unfoldable pub pad_len : Draws → ℕ → VisionConfig → ℕ
pad_len draws i cfg = if cfg.max_pad == 0 then 0 else draws i (cfg.max_pad)

-- `write_frame`
unfoldable pub write_frame : ℕ → List ℕ → ℕ → List ℕ
write_frame kind payload pad =
    kind ∷ (be16 (length payload) ++ (be16 pad ++ (payload ++ replicate pad 0)))

-- What is left to read, copied.
unfoldable pub copy : List (List ℕ) → List ℕ
copy [] = []
copy ([] ∷ reads) = []
copy ((x ∷ xs) ∷ reads) = (x ∷ xs) ++ copy reads

-- The loop of `encode_copy`, over what the reads give; an empty read, or none, is the end.
unfoldable pub encode_end : Draws → VisionConfig → ℕ → ℕ → List ℕ
unfolding write_frame pad_len
encode_end draws cfg pad_frames frames =
    if ltb frames pad_frames then write_frame kind_end [] (pad_len draws frames cfg) else []

unfoldable pub encode_loop : Draws → VisionConfig → ℕ → ℕ → List (List ℕ) → List ℕ
unfolding encode_end write_frame pad_len copy
encode_loop draws cfg pad_frames frames [] = encode_end draws cfg pad_frames frames
encode_loop draws cfg pad_frames frames ([] ∷ reads) = encode_end draws cfg pad_frames frames
encode_loop draws cfg pad_frames frames ((x ∷ xs) ∷ reads) =
    let pad = pad_len draws frames cfg in
    let again = encode_loop draws cfg pad_frames (suc frames) reads in
    if leb pad_frames (suc frames)
    then write_frame kind_end (x ∷ xs) pad ++ copy reads
    else write_frame kind_more (x ∷ xs) pad ++ again

-- `cfg.pad_frames.max(1)`
unfoldable pub at_least_one : ℕ → ℕ
at_least_one n = if n == 0 then 1 else n

unfoldable pub encode_copy : Draws → VisionConfig → List (List ℕ) → List ℕ
unfolding encode_loop at_least_one
encode_copy draws cfg reads = encode_loop draws cfg (at_least_one (cfg.pad_frames)) 0 reads

-- How `decode_copy` ends, and all that it has written.
pub data DecodeEnd : Type 0 where
  finished : DecodeEnd
  unexpected_eof : DecodeEnd

unfoldable pub emit : List ℕ → List ℕ × DecodeEnd → List ℕ × DecodeEnd
emit payload (out, e) = (payload ++ out, e)

-- A frame whose header was read: its payload is written, its padding skipped. A stream that ends within either
-- is an error.
unfoldable pub after_header :
    ℕ → ℕ → ℕ → List ℕ → (List ℕ → List ℕ × DecodeEnd) → List ℕ × DecodeEnd
unfolding emit
after_header kind data_len padding rest again =
    if ltb (length rest) data_len
    then ([], unexpected_eof)
    else if ltb (length (drop data_len rest)) padding
    then (take data_len rest, unexpected_eof)
    else emit (take data_len rest) (
        if kind == kind_end
        then (drop padding (drop data_len rest), finished)
        else again (drop padding (drop data_len rest)))

-- The loop of `decode_copy`, over the bytes of the stream; each frame takes five of them at least.
unfoldable pub decode_loop : ℕ → List ℕ → List ℕ × DecodeEnd
unfolding after_header
decode_loop zero bytes = ([], finished)
decode_loop (suc fuel) (k ∷ a ∷ b ∷ c ∷ d ∷ rest) =
    after_header k (a * 256 + b) (c * 256 + d) rest (decode_loop fuel)
decode_loop (suc fuel) bytes = ([], finished)

unfoldable pub decode_copy : List ℕ → List ℕ × DecodeEnd
unfolding decode_loop
decode_copy bytes = decode_loop (length bytes) bytes
