-- ===== src/Io/VisionXray/Stands.antt =====
-- Where an `Unpadder` of vision_xray.rs stands in the byte machine of `Vision.Stream`.
use hold_the_donut.Prelude.{
  ℕ, ◌+◌, ◌*◌, ◌≤◌, ◌<◌, ◌≡◌, sym, ap, ◌∙◌, true, false, none, some, List, ◌++◌, length, All,
  IsByte,
}
use mathlib.Core.Path.{subst}
use hold_the_donut.Vision.Stream.{Phase, detect, head0, head1, head2, head3, head4, block, raw, run}
use hold_the_donut.Io.VisionXray.{Unpadder}

-- Inside a padded stream, by the bytes of the header that are still to come.
pub data InStream (u : Unpadder) (ph : Phase) : Type 0 where
  five : u.remaining_command ≡ 5 → ph ≡ head0 → InStream u ph
  four : u.remaining_command ≡ 4 → ph ≡ head1 u.current_command → InStream u ph
  three :
      (hi : ℕ)
      → u.remaining_command ≡ 3
      → hi < 256
      → u.remaining_content ≡ hi * 256
      → ph ≡ head2 u.current_command hi
      → InStream u ph
  two :
      u.remaining_command ≡ 2
      → u.remaining_content < 65536
      → ph ≡ head3 u.current_command u.remaining_content
      → InStream u ph
  one :
      (hi : ℕ)
      → u.remaining_command ≡ 1
      → u.remaining_content < 65536
      → hi < 256
      → u.remaining_padding ≡ hi * 256
      → ph ≡ head4 u.current_command u.remaining_content hi
      → InStream u ph
  in_block :
      u.remaining_command ≡ 0
      → u.remaining_content < 65536
      → u.remaining_padding < 65536
      → 0 < u.remaining_content + u.remaining_padding
      → ph ≡ block u.current_command u.remaining_content u.remaining_padding
      → InStream u ph

-- Between two calls of `push`.
pub data Stands (u : Unpadder) (ph : Phase) : Type 0 where
  waiting :
      u.finished ≡ false
      → u.passthrough ≡ false
      → u.started ≡ false
      → length u.pending < 21
      → All IsByte u.pending
      → ph ≡ detect u.pending
      → Stands u ph
  foreign : u.finished ≡ false → u.passthrough ≡ true → ph ≡ raw none → Stands u ph
  inside :
      u.finished ≡ false → u.passthrough ≡ false → u.started ≡ true → InStream u ph → Stands u ph
  ended : u.finished ≡ true → ph ≡ raw (some u.current_command) → Stands u ph

-- A result `r` that stands where the machine does after `xs` from `ph`.
pub record Follows (uuid : List ℕ) (ph : Phase) (xs : List ℕ) (r : Unpadder × List ℕ) : Type 0 where
  pub same : r.0.user_uuid ≡ uuid
  pub stands : Stands r.0 (run uuid ph xs).0
  pub out : r.1 ≡ (run uuid ph xs).1

pub Follows-run :
    {uuid : List ℕ} {ph ph' : Phase} {xs xs' : List ℕ} {r : Unpadder × List ℕ}
    → run uuid ph xs ≡ run uuid ph' xs'
    → Follows uuid ph' xs' r
    → Follows uuid ph xs r
Follows-run {r} e f = record {
  same = f.same;
  stands = subst (λ (q : Phase × List ℕ). Stands r.0 q.0) (sym e) f.stands;
  out = f.out ∙ ap (λ (q : Phase × List ℕ). q.1) (sym e);
}

pub Follows-done :
    {uuid : List ℕ} {ph ph' : Phase} {xs out : List ℕ} {r : Unpadder × List ℕ}
    → run uuid ph xs ≡ (ph', out)
    → r.0.user_uuid ≡ uuid
    → Stands r.0 ph'
    → r.1 ≡ out
    → Follows uuid ph xs r
Follows-done {r} e same stands out = record {
  same = same;
  stands = subst (λ (q : Phase × List ℕ). Stands r.0 q.0) (sym e) stands;
  out = out ∙ ap (λ (q : Phase × List ℕ). q.1) (sym e);
}

-- What comes out first stands before the rest.
pub Follows-prefix :
    {uuid : List ℕ} {ph ph' : Phase} {xs xs' : List ℕ} {r : Unpadder × List ℕ} (front : List ℕ)
    → run uuid ph xs ≡ ((run uuid ph' xs').0, front ++ (run uuid ph' xs').1)
    → Follows uuid ph' xs' r
    → Follows uuid ph xs (r.0, front ++ r.1)
Follows-prefix {r} front e f = record {
  same = f.same;
  stands = subst (λ (q : Phase × List ℕ). Stands r.0 q.0) (sym e) f.stands;
  out = ap (λ t. front ++ t) f.out ∙ ap (λ (q : Phase × List ℕ). q.1) (sym e);
}

-- The rest of the loop follows the machine on any buffer of bytes up to a length.
abbrev pub Continues : (Unpadder → List ℕ → Unpadder × List ℕ) → ℕ → Type 0
Continues again n =
    (w : Unpadder) (ph : Phase) (b : List ℕ)
    → w.finished ≡ false
    → w.passthrough ≡ false
    → w.started ≡ true
    → InStream w ph
    → length b ≤ n
    → All IsByte b
    → Follows w.user_uuid ph b (again w b)
