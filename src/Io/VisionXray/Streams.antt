-- ===== src/Io/VisionXray/Streams.antt =====
-- `Unpadder` on whole streams: any cut into buffers, what `xtls_padding` builds, and the unpadder of
-- donut-wire on the same bytes.
use hold_the_donut.Prelude.{
  ℕ, ◌-◌, ◌≤◌, ◌≡◌, refl, sym, ap, ◌∙◌, arith, Bool, Option, none, some, List, [], ◌∷◌, ◌++◌,
  length, All, replicate, length-replicate, IsByte,
}
use mathlib.Core.List.{flatten}
use hold_the_donut.Vision.Stream.{Phase, detect, head0, settle, run}
use hold_the_donut.Vision.Runs.{run-append}
use hold_the_donut.Vision.Frames.{body, run-body}
use hold_the_donut.Io.VisionXray.{
  buf_size, Seed, padding_length, xtls_padding, Unpadder, new_unpadder, push,
}
use hold_the_donut.Io.VisionXray.Stands.{Stands, waiting, Follows}
use hold_the_donut.Io.VisionXray.Refines.{push-Follows}
use hold_the_donut.Wire.Vision as wire
use hold_the_donut.Wire.Vision.Padder.{push_all, push_all-Follows, IsUnpadder-new, new_runs}

-- One call of `push` after the other; the output of all of them.
unfoldable pub feed : Unpadder → List (List ℕ) → Unpadder × List ℕ
unfolding push
feed u [] = (u, [])
feed u (c ∷ chunks) =
    let now = push u c in let later = feed now.0 chunks in (later.0, now.1 ++ later.1)

feed-Follows :
    (u : Unpadder) (ph : Phase) (chunks : List (List ℕ))
    → Stands u ph
    → All (All IsByte) chunks
    → Follows u.user_uuid ph (flatten chunks) (feed u chunks)
unfolding feed run flatten
feed-Follows u ph [] s bytes = record { same = refl; stands = s; out = refl }
feed-Follows u ph (c ∷ chunks) s (b, bytes) =
    let now = push-Follows u ph c s b in
    let later = feed-Follows (push u c).0 (run u.user_uuid ph c).0 chunks now.stands bytes in
    let here = later.out ∙ ap (λ w. (run w (run u.user_uuid ph c).0 (flatten chunks)).1) now.same in
    record {
      same = later.same ∙ now.same;
      stands = rw (run-append u.user_uuid ph c (flatten chunks)) (rw now.same at later.stands);
      out =
          ap (λ t. (push u c).1 ++ t) here
          ∙ ap (λ t. t ++ (run u.user_uuid (run u.user_uuid ph c).0 (flatten chunks)).1) now.out
          ∙ sym (ap (λ (q : Phase × List ℕ). q.1) (run-append u.user_uuid ph c (flatten chunks)));
    }

Stands-new : (uuid : List ℕ) → Stands (new_unpadder uuid) (detect [])
unfolding new_unpadder
Stands-new uuid = waiting refl refl refl (omega arith) tt refl

-- From a new unpadder: what comes out is what the machine gives.
pub feed-new :
    (uuid : List ℕ) (chunks : List (List ℕ))
    → All (All IsByte) chunks
    → Follows uuid (detect []) (flatten chunks) (feed (new_unpadder uuid) chunks)
feed-new uuid chunks bytes =
    (unfold new_unpadder in
      feed-Follows (new_unpadder uuid) (detect []) chunks (Stands-new uuid) bytes)

-- On the same bytes from the start of a stream, in the same or in different chunks, the unpadder of
-- donut-io and that of donut-wire pass on the same output.
pub feed-push_all :
    (uuid : List ℕ) (chunks chunks' : List (List ℕ))
    → All (All IsByte) chunks
    → flatten chunks ≡ flatten chunks'
    → (feed (new_unpadder uuid) chunks).1 ≡ (push_all (wire.new_unpadder uuid) chunks').1
feed-push_all uuid chunks chunks' bytes e =
    let f = feed-new uuid chunks bytes in
    let g = push_all-Follows (wire.new_unpadder uuid) chunks' (IsUnpadder-new uuid) in
    f.out
    ∙ ap (λ t. (run uuid (detect []) t).1) e
    ∙ sym (ap (λ (q : Phase × List ℕ). q.1) (g.runs ∙ new_runs uuid chunks'))

-- Whatever is rolled, the padding is no longer than what the content leaves of the buffer of 8192 bytes
-- less 21, the bytes of a user id and a header.
padding_length-le :
    (roll : ℕ → ℕ) (content_len : ℕ) (long_padding : Bool) (seed : Seed)
    → padding_length roll content_len long_padding seed ≤ buf_size - 21 - content_len
unfolding padding_length
padding_length-le roll content_len long_padding seed = ground arith

-- What `xtls_padding` builds, behind the user id.
xtls_padding-body :
    (roll : ℕ → ℕ) (content : List ℕ) (command : ℕ) (uuid_once : Option (List ℕ))
    (long_padding : Bool) (seed : Seed)
    → xtls_padding roll content command uuid_once long_padding seed ≡ (
      (elim uuid_once [ none ↦ [] | some uuid ↦ uuid ])
          ++ body command content
              (replicate (padding_length roll (length content) long_padding seed) 0),
      none,
    )
unfolding xtls_padding
xtls_padding-body roll content command uuid_once long_padding seed =
    rw (length-replicate {A = ℕ} (padding_length roll (length content) long_padding seed) 0) refl

-- A block without a user id, read from the start of its header.
pub run-xtls_padding :
    (uuid : List ℕ) (roll : ℕ → ℕ) (content : List ℕ) (command : ℕ) (long_padding : Bool)
    (seed : Seed) (rest : List ℕ)
    → length content ≤ 65535
    → run uuid head0 ((xtls_padding roll content command none long_padding seed).0 ++ rest)
      ≡ ((run uuid (settle command 0 0) rest).0, content ++ (run uuid (settle command 0 0) rest).1)
run-xtls_padding uuid roll content command long_padding seed rest h =
    let n = padding_length roll (length content) long_padding seed in
    ap (λ (q : List ℕ × Option (List ℕ)). run uuid head0 (q.0 ++ rest))
      (xtls_padding-body roll content command none long_padding seed)
    ∙ run-body uuid command content (replicate n 0) rest h (
        omega (
          arith,
          length-replicate {A = ℕ} n 0,
          padding_length-le roll (length content) long_padding seed,
        ))
