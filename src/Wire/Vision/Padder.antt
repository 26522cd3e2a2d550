-- ===== src/Wire/Vision/Padder.antt =====
-- A whole Vision stream: what a `VisionPadder` sends, and what a `VisionUnpadder` recovers of it,
-- in whatever pieces it arrives.
use hold_the_donut.Prelude.{
  ℕ, ◌%◌, ◌≤◌, ◌≡◌, ◌≢◌, refl, sym, ap, ◌∙◌, arith, true, false, List, [], ◌∷◌, ◌++◌, length, All,
  replicate, length-replicate, if◌then◌else◌, append_assoc, Bool-cases, inl, inr, some, Option,
}
use mathlib.Core.List.{flatten}
use hold_the_donut.Vision.Stream.{Phase, detect, head0, raw, settle, run}
use hold_the_donut.Vision.Runs.{settle_last, settle_continue, run-append, run-raw}
use hold_the_donut.Vision.Frames.{body, run-body, run-uuid}
use hold_the_donut.Wire.Vision.{
  VisionPadder, new_padder, frame, cmd_padding_continue, VisionUnpadder, new_unpadder, push,
}
use hold_the_donut.Wire.Vision.Phase.{head_of, phase, IsUnpadder, Follows}
use hold_the_donut.Wire.Vision.Refines.{push-Follows}

-- One call of `push` after the other; the output of all of them.
unfoldable pub push_all : VisionUnpadder → List (List ℕ) → VisionUnpadder × List ℕ
unfolding push
push_all u [] = (u, [])
push_all u (c ∷ chunks) =
    let now = push u c in let later = push_all now.0 chunks in (later.0, now.1 ++ later.1)

pub new_runs :
    (uuid : List ℕ) (chunks : List (List ℕ))
    → run (new_unpadder uuid).uuid (phase (new_unpadder uuid)) (flatten chunks)
      ≡ run uuid (detect []) (flatten chunks)
unfolding new_unpadder phase
new_runs uuid chunks = refl

-- Only an unpadder that passes everything on stands at `raw`.
head_of-ne-raw : (p : List ℕ) (end : Option ℕ) → head_of p ≢ raw end
unfolding head_of
head_of-ne-raw [] end h = cc
head_of-ne-raw (a ∷ []) end h = cc
head_of-ne-raw (a ∷ b ∷ []) end h = cc
head_of-ne-raw (a ∷ b ∷ c ∷ []) end h = cc
head_of-ne-raw (a ∷ b ∷ c ∷ d ∷ p) end h = cc

raw-direct : (u : VisionUnpadder) (end : Option ℕ) → phase u ≡ raw end → u.direct ≡ true
unfolding phase
raw-direct u end h = elim (Bool-cases u.direct) [
  | inl di ↦ di
  | inr di ↦ elim (Bool-cases u.started) [
    | inr st ↦ cc (rw (di, st) at h)
    | inl st ↦ elim (Bool-cases u.reading_header) [
      | inl re ↦ absurd (head_of-ne-raw u.pending end (rw (di, st, re) at h))
      | inr re ↦ cc (rw (di, st, re) at h)
    ]
  ]
]

pub push_all-Follows :
    (u : VisionUnpadder) (chunks : List (List ℕ))
    → IsUnpadder u
    → Follows u.uuid (phase u) (flatten chunks) (push_all u chunks)
unfolding push_all run flatten
push_all-Follows u [] v = record { same = refl; valid = v; runs = refl }
push_all-Follows u (c ∷ chunks) v =
    let now = push-Follows u c v in
    let later = push_all-Follows (push u c).0 chunks now.valid in
    record {
      same = later.same ∙ now.same;
      valid = later.valid;
      runs =
          ap (λ (q : Phase × List ℕ). (q.0, (push u c).1 ++ q.1))
            (later.runs ∙ ap (λ w. run w (phase (push u c).0) (flatten chunks)) now.same)
          ∙ ap
              (λ (q : Phase × List ℕ).
                ((run u.uuid q.0 (flatten chunks)).0, q.1 ++ (run u.uuid q.0 (flatten chunks)).1))
              now.runs
          ∙ sym (run-append u.uuid (phase u) c (flatten chunks));
    }

-- Two ways to cut the same bytes into chunks give the same output, from any state that the unpadder
-- can be in between two calls.
pub push_all-chunks :
    (u : VisionUnpadder) (chunks chunks' : List (List ℕ))
    → IsUnpadder u
    → flatten chunks ≡ flatten chunks'
    → (push_all u chunks).1 ≡ (push_all u chunks').1
push_all-chunks u chunks chunks' v e =
    let f = push_all-Follows u chunks v in
    let g = push_all-Follows u chunks' v in
    ap (λ (q : Phase × List ℕ). q.1) (f.runs ∙ ap (run u.uuid (phase u)) e ∙ sym g.runs)

-- What a sender asks for: contents, each with a number of padding bytes.
pub record Item : Type 0 where
  pub content : List ℕ
  pub padding_len : ℕ

abbrev pub Fits : Item → Type 0
Fits i = (length i.content ≤ 65535) × (i.padding_len ≤ 65535)

abbrev pub contents : List Item → List ℕ
contents [] = []
contents (i ∷ items) = i.content ++ contents items

-- Frames that continue, and a last one of another command.
unfoldable pub send : VisionPadder → List Item → Item → ℕ → List ℕ
send p [] last command = (frame p command last.content last.padding_len).1
send p (i ∷ items) last command =
    let now = frame p cmd_padding_continue i.content i.padding_len in
    now.1 ++ send now.0 items last command

abbrev opened : List ℕ → VisionPadder
opened uuid = record { uuid = uuid; first = false }

-- A frame of either kind is the user id, if it is the first, and a body.
frame-body :
    (p : VisionPadder) (command : ℕ) (i : Item)
    → Fits i
    → frame p command i.content i.padding_len ≡ (
      opened p.uuid,
      (if p.first then p.uuid else []) ++ body command i.content (replicate i.padding_len 0),
    )
unfolding frame
frame-body p command i (hc, hp) =
    let short : length i.content % 65536 ≡ length i.content = omega arith in
    rw (short, length-replicate {A = ℕ} i.padding_len 0)

send-last :
    (p : VisionPadder) (last : Item) (command : ℕ)
    → Fits last
    → send p [] last command
      ≡ (if p.first then p.uuid else []) ++ body command last.content (replicate last.padding_len 0)
unfolding send
send-last p last command fl = ap (λ (r : VisionPadder × List ℕ). r.1) (frame-body p command last fl)

send-more :
    (p : VisionPadder) (i : Item) (items : List Item) (last : Item) (command : ℕ)
    → Fits i
    → send p (i ∷ items) last command
      ≡ ((if p.first then p.uuid else []) ++ body 0 i.content (replicate i.padding_len 0))
        ++ send (opened p.uuid) items last command
unfolding send
send-more p i items last command fi =
    ap (λ (r : VisionPadder × List ℕ). r.1 ++ send r.0 items last command) (frame-body p 0 i fi)

run-frame :
    (uuid : List ℕ) (command : ℕ) (i : Item) (rest : List ℕ)
    → Fits i
    → run uuid head0 (body command i.content (replicate i.padding_len 0) ++ rest) ≡ (
      (run uuid (settle command 0 0) rest).0,
      i.content ++ (run uuid (settle command 0 0) rest).1,
    )
run-frame uuid command i rest (hc, hp) =
    run-body uuid command i.content (replicate i.padding_len 0) rest hc
      (omega (arith, length-replicate {A = ℕ} i.padding_len 0))

-- Behind its opening the stream is a run of bodies.
send-opened :
    (uuid : List ℕ) (items : List Item) (last : Item) (command : ℕ) (tail : List ℕ)
    → All Fits items
    → Fits last
    → command ≢ 0
    → run uuid head0 (send (opened uuid) items last command ++ tail)
      ≡ (raw (some command), contents items ++ (last.content ++ tail))
send-opened uuid [] last command tail fits fl c = rw (send-last (opened uuid) last command fl) (
    run-frame uuid command last tail fl
    ∙ rw (settle_last command c, run-raw uuid (some command) tail))
send-opened uuid (i ∷ items) last command tail (fi, fits) fl c =
    rw (send-more (opened uuid) i items last command fi, append_assoc)
      (run-frame uuid 0 i (send (opened uuid) items last command ++ tail) fi
        ∙ rw (settle_continue, send-opened uuid items last command tail fits fl c, append_assoc))

-- A whole stream, from the first frame on.
send-new_padder :
    (uuid : List ℕ) (items : List Item) (last : Item) (command : ℕ) (tail : List ℕ)
    → length uuid ≡ 16
    → All Fits items
    → Fits last
    → command ≢ 0
    → run uuid (detect []) (send (new_padder uuid) items last command ++ tail)
      ≡ (raw (some command), contents items ++ (last.content ++ tail))
unfolding new_padder
send-new_padder uuid [] last command tail h fits fl c =
    rw (send-last (record { uuid = uuid; first = true }) last command fl, append_assoc)
      (run-uuid uuid _ h (omega arith)
        ∙ run-frame uuid command last tail fl
        ∙ rw (settle_last command c, run-raw uuid (some command) tail))
send-new_padder uuid (i ∷ items) last command tail h (fi, fits) fl c =
    rw (send-more (record { uuid = uuid; first = true }) i items last command fi) (
      rw
        (
          append_assoc (uuid ++ body 0 i.content (replicate i.padding_len 0))
              (send (opened uuid) items last command) tail,
          append_assoc uuid (body 0 i.content (replicate i.padding_len 0))
              (send (opened uuid) items last command ++ tail),
          append_assoc i.content (contents items) (last.content ++ tail),
        )
        (run-uuid uuid _ h (omega arith)
          ∙ run-frame uuid 0 i (send (opened uuid) items last command ++ tail) fi
          ∙ rw (settle_continue, send-opened uuid items last command tail fits fl c)))

pub IsUnpadder-new : (uuid : List ℕ) → IsUnpadder (new_unpadder uuid)
unfolding new_unpadder
IsUnpadder-new uuid = record {
  waiting = λ _ _. omega arith;
  heading = λ _ s _. cc;
  inside = λ _ s _. cc;
}

-- For a user id of 16 bytes, contents and paddings that fit their length fields and a last command
-- that is not Continue, the unpadder recovers from the padded stream, however it is cut into
-- chunks, exactly the contents in order, then whatever follows the last frame, and ends direct.
pub push_all-send :
    (uuid : List ℕ) (items : List Item) (last : Item) (command : ℕ) (tail : List ℕ)
    (chunks : List (List ℕ))
    → length uuid ≡ 16
    → All Fits items
    → Fits last
    → command ≢ 0
    → flatten chunks ≡ send (new_padder uuid) items last command ++ tail
    → ((push_all (new_unpadder uuid) chunks).1 ≡ contents items ++ (last.content ++ tail))
      × ((push_all (new_unpadder uuid) chunks).0.direct ≡ true)
push_all-send uuid items last command tail chunks h fits fl c e =
    let f = push_all-Follows (new_unpadder uuid) chunks (IsUnpadder-new uuid) in
    let whole =
      f.runs
      ∙ new_runs uuid chunks
      ∙ ap (run uuid (detect [])) e
      ∙ send-new_padder uuid items last command tail h fits fl c in
    (
      ap (λ (q : Phase × List ℕ). q.1) whole,
      raw-direct _ (some command) (ap (λ (q : Phase × List ℕ). q.0) whole),
    )
