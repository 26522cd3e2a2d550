-- ===== src/Server/Mux/Padded.antt =====
-- `mux_relay` inside Vision: `devision` on the uplink and `revision` on the downlink.
use hold_the_donut.Prelude.{
  ℕ, zero, suc, ◌≤◌, ◌<◌, ◌≡◌, refl, sym, ap, ◌∙◌, arith, false, Option, none, some, List, [], ◌∷◌,
  ◌++◌, length, take, drop, leb, ◌==◌, if◌then◌else◌, All, IsByte, ok, err, panic, append_assoc,
  length-append, length-take, length-drop, take-append-drop, inl, inr, lt_or_le, le→leb, ne→==,
  lt→leb,
}
use mathlib.Core.List.{flatten}
use hold_the_donut.Vision.Stream.{Phase, detect, head0, raw, run}
use hold_the_donut.Vision.Runs.{settle_last, settle_continue, run-raw}
use hold_the_donut.Vision.Frames.{run-uuid}
use hold_the_donut.Io.VisionXray.{default_seed, xtls_padding, Unpadder, new_unpadder, push}
use hold_the_donut.Io.VisionXray.Streams.{feed, feed-new, run-xtls_padding}
use hold_the_donut.Server.Mux.Egress.{Net}
use hold_the_donut.Server.Mux.Relay.{Drained, drain}

abbrev command_padding_continue : ℕ
command_padding_continue = 0

abbrev command_padding_end : ℕ
command_padding_end = 1

-- `devision`
unfoldable pub devision : Option Unpadder → List ℕ → Option Unpadder × List ℕ
unfolding push
devision none bytes = (none, bytes)
devision (some u) bytes = let r = push u bytes in (some r.0, r.1)

-- The uplink of `mux_relay`: what was read past the request first, then the chunks of the tunnel. An
-- error ends it.
unfoldable pub uplink : Net → Option Unpadder → Drained → List (List ℕ) → Drained
uplink net unp d [] = d
uplink net unp d (c ∷ chunks) =
    let again = λ (unp' : Option Unpadder) (d' : Drained). uplink net unp' d' chunks in
    let r = devision unp c in
    elim d.outcome [ ok u ↦ again r.0 (drain net d.relay (d.inbuf ++ r.1)) | err e ↦ d | panic ↦ d ]

-- `BUF_SIZE - 21`
abbrev max_block : ℕ
max_block = 8171

-- The loop of `revision` over `frame.chunks(MAX)`, on fuel; `rolls` are the random numbers of the calls.
unfoldable pub revision_loop : (ℕ → ℕ → ℕ) → ℕ → Option (List ℕ) → List ℕ → List ℕ
revision_loop rolls zero uuid_once frame = []
revision_loop rolls (suc fuel) uuid_once frame =
    let rest = revision_loop rolls fuel in
    if leb (length frame) max_block
    then (xtls_padding (rolls fuel) frame command_padding_end uuid_once false default_seed).0
    else let block =
        xtls_padding (rolls fuel) (take max_block frame) command_padding_continue uuid_once false
          default_seed in
      block.0 ++ rest block.1 (drop max_block frame)

-- `revision`
unfoldable pub revision : (ℕ → ℕ → ℕ) → List ℕ → List ℕ → List ℕ
revision rolls uuid frame =
    if length frame == 0
    then (xtls_padding (rolls 0) [] command_padding_end (some uuid) false default_seed).0
    else revision_loop rolls (length frame) (some uuid) frame

-- The first block opens with the user id, and the rest of it does not depend on that.
xtls_padding-first :
    (roll : ℕ → ℕ) (content : List ℕ) (command : ℕ) (uuid : List ℕ)
    → xtls_padding roll content command (some uuid) false default_seed
      ≡ (uuid ++ (xtls_padding roll content command none false default_seed).0, none)
unfolding xtls_padding
xtls_padding-first roll content command uuid = refl

length-xtls_padding :
    (roll : ℕ → ℕ) (content : List ℕ) (command : ℕ)
    → 5 ≤ length (xtls_padding roll content command none false default_seed).0
unfolding xtls_padding
length-xtls_padding roll content command = omega arith

module _ (rolls : ℕ → ℕ → ℕ) (fuel : ℕ) (frame : List ℕ) where
  last_block :
      (once : Option (List ℕ))
      → length frame ≤ max_block
      → revision_loop rolls (suc fuel) once frame
        ≡ (xtls_padding (rolls fuel) frame command_padding_end once false default_seed).0
  unfolding revision_loop
  last_block once h = rw (revision_loop, le→leb _ _ h) refl

  more_blocks :
      (once : Option (List ℕ))
      → max_block < length frame
      → revision_loop rolls (suc fuel) once frame
        ≡ (xtls_padding
            (rolls fuel)
            (take max_block frame)
            command_padding_continue
            once
            false
            default_seed).0
          ++ revision_loop rolls fuel none (drop max_block frame)
  unfolding revision_loop xtls_padding
  more_blocks once h = rw (revision_loop, lt→leb _ _ h) refl

-- Behind the user id the blocks are those without it.
revision_loop-first :
    (rolls : ℕ → ℕ → ℕ) (fuel : ℕ) (frame uuid : List ℕ)
    → revision_loop rolls (suc fuel) (some uuid) frame
      ≡ uuid ++ revision_loop rolls (suc fuel) none frame
revision_loop-first rolls fuel frame uuid = elim (lt_or_le max_block (length frame)) [
  | inr h ↦
      rw (last_block rolls fuel frame (some uuid) h, last_block rolls fuel frame none h)
        (ap (λ (q : List ℕ × Option (List ℕ)). q.0)
          (xtls_padding-first (rolls fuel) frame command_padding_end uuid))
  | inl h ↦
      rw (more_blocks rolls fuel frame (some uuid) h, more_blocks rolls fuel frame none h)
        (ap
            (λ (q : List ℕ × Option (List ℕ)).
              q.0 ++ revision_loop rolls fuel none (drop max_block frame))
            (xtls_padding-first (rolls fuel) (take max_block frame) command_padding_continue uuid)
          ∙ append_assoc uuid _ _)
]

run-last_block :
    (rolls : ℕ → ℕ → ℕ) (fuel : ℕ) (frame tail uuid : List ℕ)
    → length frame ≤ max_block
    → run uuid head0 (revision_loop rolls (suc fuel) none frame ++ tail)
      ≡ (raw (some command_padding_end), frame ++ tail)
run-last_block rolls fuel frame tail uuid h = rw (last_block rolls fuel frame none h) (
    run-xtls_padding uuid (rolls fuel) frame command_padding_end false default_seed tail
      (omega arith)
    ∙ rw
        (
          settle_last command_padding_end (omega arith),
          run-raw uuid (some command_padding_end) tail,
        )
        refl)

run-revision_loop :
    (rolls : ℕ → ℕ → ℕ) (fuel : ℕ) (frame tail uuid : List ℕ)
    → length frame ≤ suc fuel
    → run uuid head0 (revision_loop rolls (suc fuel) none frame ++ tail)
      ≡ (raw (some command_padding_end), frame ++ tail)
run-revision_loop rolls zero frame tail uuid k =
    run-last_block rolls zero frame tail uuid (omega arith)
run-revision_loop rolls (suc fuel) frame tail uuid k =
    let later = run-revision_loop rolls fuel (drop max_block frame) tail uuid in
    elim (lt_or_le max_block (length frame)) [
      | inr h ↦ run-last_block rolls (suc fuel) frame tail uuid h
      | inl h ↦
          rw (more_blocks rolls (suc fuel) frame none h, append_assoc)
            (run-xtls_padding uuid (rolls (suc fuel)) (take max_block frame)
                command_padding_continue false default_seed
                (revision_loop rolls (suc fuel) none (drop max_block frame) ++ tail)
                (omega (arith, length-take max_block frame))
              ∙ rw (settle_continue, later (omega (arith, length-drop max_block frame)))
                  (ap (λ t. (raw (some command_padding_end), t))
                    (sym (append_assoc (take max_block frame) (drop max_block frame) tail)
                      ∙ ap (λ t. t ++ tail) (take-append-drop max_block frame))))
    ]

revision-empty :
    (rolls : ℕ → ℕ → ℕ) (uuid : List ℕ)
    → revision rolls uuid [] ≡ uuid ++ revision_loop rolls 1 none []
unfolding revision revision_loop xtls_padding
revision-empty rolls uuid = refl

revision-some :
    (rolls : ℕ → ℕ → ℕ) (uuid frame : List ℕ) (x : ℕ)
    → revision rolls uuid (x ∷ frame)
      ≡ uuid ++ revision_loop rolls (suc (length frame)) none (x ∷ frame)
unfolding revision
revision-some rolls uuid frame x =
    rw (ne→== (suc (length frame)) 0 (omega arith))
      (revision_loop-first rolls (length frame) (x ∷ frame) uuid)

length-revision_loop :
    (rolls : ℕ → ℕ → ℕ) (fuel : ℕ) (frame : List ℕ)
    → 5 ≤ length (revision_loop rolls (suc fuel) none frame)
length-revision_loop rolls fuel frame = elim (lt_or_le max_block (length frame)) [
  | inr h ↦
      rw (last_block rolls fuel frame none h)
        (length-xtls_padding (rolls fuel) frame command_padding_end)
  | inl h ↦
      rw (more_blocks rolls fuel frame none h, length-append)
        (omega
          (arith, length-xtls_padding (rolls fuel) (take max_block frame) command_padding_continue))
]

run-revision :
    (rolls : ℕ → ℕ → ℕ) (uuid frame tail : List ℕ)
    → length uuid ≡ 16
    → run uuid (detect []) (revision rolls uuid frame ++ tail)
      ≡ (raw (some command_padding_end), frame ++ tail)
run-revision rolls uuid [] tail h =
    rw (revision-empty rolls uuid, append_assoc)
      (run-uuid uuid _ h (
          omega (
            arith,
            length-revision_loop rolls 0 [],
            length-append (revision_loop rolls 1 none []) tail,
          ))
        ∙ run-revision_loop rolls 0 [] tail uuid (omega arith))
run-revision rolls uuid (x ∷ frame) tail h =
    rw (revision-some rolls uuid frame x, append_assoc)
      (run-uuid uuid _ h (
          omega (
            arith,
            length-revision_loop rolls (length frame) (x ∷ frame),
            length-append (revision_loop rolls (suc (length frame)) none (x ∷ frame)) tail,
          ))
        ∙ run-revision_loop rolls (length frame) (x ∷ frame) tail uuid (omega arith))

-- For a user id of 16 bytes and any random numbers, an unpadder at the other end that is fed the padded
-- first frame, whatever its length, and then anything, in any chunks, passes on exactly the frame and
-- what follows.
pub feed-revision :
    (rolls : ℕ → ℕ → ℕ) (uuid frame tail : List ℕ) (chunks : List (List ℕ))
    → length uuid ≡ 16
    → All (All IsByte) chunks
    → flatten chunks ≡ revision rolls uuid frame ++ tail
    → (feed (new_unpadder uuid) chunks).1 ≡ frame ++ tail
feed-revision rolls uuid frame tail chunks h bytes e =
    (feed-new uuid chunks bytes).out
    ∙ ap (λ t. (run uuid (detect []) t).1) e
    ∙ ap (λ (q : Phase × List ℕ). q.1) (run-revision rolls uuid frame tail h)
