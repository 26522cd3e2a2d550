-- ===== src/Server/Mux/Incremental.antt =====
-- `parse_frame` of mux.rs on a buffer that grows: it never panics, takes a frame off the front, and what
-- it decides stands whatever bytes come later.
use hold_the_donut.Prelude.{
  ℕ, ◌+◌, ◌*◌, ◌≤◌, ◌<◌, ◌≡◌, ◌≢◌, refl, ◌∙◌, arith, Option, none, some, List, [], ◌∷◌, ◌++◌,
  length, take, drop, leb, le→ltb, lt_or_le, lt→ltb, inl, inr, ◌&&◌, ◌||◌, Bool, true, false,
  Bool-cases, ◌==◌, Option-cases, Outcome, ok, err, panic, take-append_le, drop-append_le,
  length-append, length-take, length-drop,
}
use Prim.Native.Nat.{bit_and}
use hold_the_donut.Server.Mux.{
  Addr, Frame, MuxError, read_addr, read_target, read_data, says_udp, frame_target, frame_of,
  parse_meta, parse_frame, bad_meta_length, option_data, status_new, status_keep,
}

-- The branches of `read_data`, and of `parse_frame`.
module _ (option : ℕ) where
  no_data :
      (buf : List ℕ)
      → (bit_and option option_data == 0) ≡ true
      → read_data option buf ≡ some (none, buf)
  unfolding read_data
  no_data buf h = rw h refl

  data_short :
      (a b : ℕ) (more : List ℕ)
      → (bit_and option option_data == 0) ≡ false
      → length more < a * 256 + b
      → read_data option (a ∷ b ∷ more) ≡ none
  unfolding read_data
  data_short a b more h k = rw (h, lt→ltb _ _ k) refl

  data_full :
      (a b : ℕ) (more : List ℕ)
      → (bit_and option option_data == 0) ≡ false
      → a * 256 + b ≤ length more
      → read_data option (a ∷ b ∷ more)
        ≡ some (some (take (a * 256 + b) more), drop (a * 256 + b) more)
  unfolding read_data
  data_full a b more h k = rw (h, le→ltb _ _ k) refl

  -- Data are missing, or they are a prefix and stay the same when bytes are added.
  pub data DataView (buf more : List ℕ) : Type 0 where
    missing : read_data option buf ≡ none → DataView buf more
    complete :
        (o : Option (List ℕ)) (left : List ℕ)
        → read_data option buf ≡ some (o, left)
        → read_data option (buf ++ more) ≡ some (o, left ++ more)
        → length left ≤ length buf
        → DataView buf more

  empty_short : (bit_and option option_data == 0) ≡ false → read_data option [] ≡ none
  unfolding read_data
  empty_short h = rw h refl

  one_short : (a : ℕ) → (bit_and option option_data == 0) ≡ false → read_data option (a ∷ []) ≡ none
  unfolding read_data
  one_short a h = rw h refl

  view_more : (buf more : List ℕ) → (bit_and option option_data == 0) ≡ false → DataView buf more
  view_more [] more h = missing (empty_short h)
  view_more (a ∷ []) more h = missing (one_short a h)
  view_more (a ∷ b ∷ buf) more h = elim (lt_or_le (length buf) (a * 256 + b)) [
    | inl short ↦ missing (data_short a b buf h short)
    | inr full ↦
        complete (some (take (a * 256 + b) buf)) (drop (a * 256 + b) buf) (data_full a b buf h full)
          (data_full a b (buf ++ more) h (omega (arith, length-append buf more))
            ∙ rw
                (
                  take-append_le (a * 256 + b) buf more full,
                  drop-append_le (a * 256 + b) buf more full,
                )
                refl)
          (omega (arith, length-drop (a * 256 + b) buf))
  ]

  pub view : (buf more : List ℕ) → DataView buf more
  view buf more = elim (Bool-cases (bit_and option option_data == 0)) [
    | inl h ↦ complete none buf (no_data buf h) (no_data (buf ++ more) h) (omega arith)
    | inr h ↦ view_more buf more h
  ]

read_target-ne-panic : (more : List ℕ) → read_target more ≢ panic
unfolding read_target
read_target-ne-panic [] h = cc
read_target-ne-panic (net ∷ more) h = elim (Option-cases (read_addr more)) [
  | inl e ↦ cc (rw (read_target, e) at h)
  | inr (r, e) ↦ cc (rw (read_target, e) at h)
]

frame_target-ne-panic : (status : ℕ) (more : List ℕ) → frame_target status more ≢ panic
unfolding frame_target
frame_target-ne-panic status more h =
    elim (Bool-cases (status == status_new || (status == status_keep && says_udp more))) [
      | inl e ↦ absurd (read_target-ne-panic more (rw e at h))
      | inr e ↦ cc (rw e at h)
    ]

-- What `parse_meta` decides.
data MetaView (m rest more : List ℕ) : Type 0 where
  meta_refused :
      (e : MuxError)
      → parse_meta m rest ≡ err e
      → parse_meta m (rest ++ more) ≡ err e
      → MetaView m rest more
  meta_waits : parse_meta m rest ≡ ok none → MetaView m rest more
  meta_framed :
      (f : Frame) (left : List ℕ)
      → parse_meta m rest ≡ ok (some (f, left))
      → parse_meta m (rest ++ more) ≡ ok (some (f, left ++ more))
      → length left ≤ length rest
      → MetaView m rest more

module _ (s1 s0 status option : ℕ) (m rest more : List ℕ) where
  meta_by_data :
      (target : Option Addr)
      → frame_target status m ≡ ok target
      → DataView option rest more
      → MetaView (s1 ∷ s0 ∷ status ∷ option ∷ m) rest more
  unfolding parse_meta frame_of
  meta_by_data target e (missing d) = meta_waits (rw (e, d) refl)
  meta_by_data target e (complete o left d d' k) =
      meta_framed (record { sid = s1 * 256 + s0; status = status; target = target; data_of = o })
        left (rw (e, d) refl) (rw (e, d') refl) k

  meta_by_target :
      (t : Outcome MuxError (Option Addr))
      → frame_target status m ≡ t
      → MetaView (s1 ∷ s0 ∷ status ∷ option ∷ m) rest more
  unfolding parse_meta
  meta_by_target (err x) e = meta_refused x (rw e refl) (rw e refl)
  meta_by_target panic e = absurd (frame_target-ne-panic status m e)
  meta_by_target (ok target) e = meta_by_data target e (view option rest more)

meta_view : (m rest more : List ℕ) → 4 ≤ length m → MetaView m rest more
meta_view [] rest more h = absurd (omega arith)
meta_view (a ∷ []) rest more h = absurd (omega arith)
meta_view (a ∷ b ∷ []) rest more h = absurd (omega arith)
meta_view (a ∷ b ∷ c ∷ []) rest more h = absurd (omega arith)
meta_view (s1 ∷ s0 ∷ status ∷ option ∷ m) rest more h =
    meta_by_target s1 s0 status option m rest more (frame_target status m) refl

-- What `parse_frame` decides on a buffer, with bytes that come later.
pub data FrameView (buf more : List ℕ) : Type 0 where
  refused :
      (e : MuxError)
      → parse_frame buf ≡ err e
      → parse_frame (buf ++ more) ≡ err e
      → FrameView buf more
  waits : parse_frame buf ≡ ok none → FrameView buf more
  framed :
      (f : Frame) (left : List ℕ)
      → parse_frame buf ≡ ok (some (f, left))
      → parse_frame (buf ++ more) ≡ ok (some (f, left ++ more))
      → length left < length buf
      → FrameView buf more

-- The branches of `parse_frame`.
module _ (a b : ℕ) (buf : List ℕ) where
  abbrev in_range : Bool
  in_range = leb 4 (a * 256 + b) && leb (a * 256 + b) 512

  out_of_range : in_range ≡ false → parse_frame (a ∷ b ∷ buf) ≡ err (bad_meta_length (a * 256 + b))
  unfolding parse_frame
  out_of_range h = rw h refl

  meta_short : in_range ≡ true → length buf < a * 256 + b → parse_frame (a ∷ b ∷ buf) ≡ ok none
  unfolding parse_frame
  meta_short h k = rw (h, lt→ltb _ _ k) refl

  meta_full :
      in_range ≡ true
      → a * 256 + b ≤ length buf
      → parse_frame (a ∷ b ∷ buf) ≡ parse_meta (take (a * 256 + b) buf) (drop (a * 256 + b) buf)
  unfolding parse_frame
  meta_full h k = rw (h, le→ltb _ _ k) refl

in_range-le : (n : ℕ) → (leb 4 n && leb n 512) ≡ true → 4 ≤ n
in_range-le n h = ground arith

few : (a : ℕ) → (parse_frame [] ≡ ok none) × (parse_frame (a ∷ []) ≡ ok none)
unfolding parse_frame
few a = (refl, refl)

module _ (a b : ℕ) (buf more : List ℕ) where
  full_later :
      in_range a b buf ≡ true
      → a * 256 + b ≤ length buf
      → parse_frame ((a ∷ b ∷ buf) ++ more)
        ≡ parse_meta (take (a * 256 + b) buf) (drop (a * 256 + b) buf ++ more)
  full_later h k =
      meta_full a b (buf ++ more) h (omega (arith, length-append buf more))
      ∙ rw (take-append_le (a * 256 + b) buf more k, drop-append_le (a * 256 + b) buf more k) refl

  frame_full :
      in_range a b buf ≡ true
      → a * 256 + b ≤ length buf
      → MetaView (take (a * 256 + b) buf) (drop (a * 256 + b) buf) more
      → FrameView (a ∷ b ∷ buf) more
  frame_full h k (meta_refused e p q) = refused e (meta_full a b buf h k ∙ p) (full_later h k ∙ q)
  frame_full h k (meta_waits p) = waits (meta_full a b buf h k ∙ p)
  frame_full h k (meta_framed f left p q l) =
      framed f left (meta_full a b buf h k ∙ p) (full_later h k ∙ q)
        (omega (arith, length-drop (a * 256 + b) buf))

-- On any buffer `parse_frame` does not panic; it waits, or it refuses or gives a frame, and then it does
-- the same, with the later bytes left, on the buffer with any bytes added; and a frame takes at least
-- one byte.
pub parse_frame-view : (buf more : List ℕ) → FrameView buf more
parse_frame-view [] more = waits (few 0).0
parse_frame-view (a ∷ []) more = waits (few a).1
parse_frame-view (a ∷ b ∷ buf) more = elim (Bool-cases (in_range a b buf)) [
  | inr bad ↦
      refused (bad_meta_length (a * 256 + b)) (out_of_range a b buf bad)
        (out_of_range a b (buf ++ more) bad)
  | inl h ↦ elim (lt_or_le (length buf) (a * 256 + b)) [
    | inl short ↦ waits (meta_short a b buf h short)
    | inr full ↦ frame_full a b buf more h full (
        meta_view (take (a * 256 + b) buf) (drop (a * 256 + b) buf) more
          (omega (arith, length-take (a * 256 + b) buf, in_range-le (a * 256 + b) h)))
  ]
]
