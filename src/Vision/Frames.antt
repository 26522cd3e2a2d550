-- ===== src/Vision/Frames.antt =====
-- What the receiver makes of padded frames.
use hold_the_donut.Prelude.{
  ℕ, ◌+◌, ◌*◌, ◌≤◌, ◌≡◌, ◌∙◌, arith, List, [], ◌∷◌, ◌++◌, length, be16, ◌/◌, ◌%◌, bytes_eq_refl,
  append_assoc, length-append, take-append, drop-append,
}
use hold_the_donut.Vision.Stream.{detect, head0, settle, run}
use hold_the_donut.Vision.Runs.{run-header, run-padding, run-content, run-detect}

-- A frame without the user id before it: command, two lengths, content, padding.
abbrev pub body : ℕ → List ℕ → List ℕ → List ℕ
body command content pad =
    command ∷ (be16 (length content) ++ (be16 (length pad) ++ (content ++ pad)))

pub be16_value : (n : ℕ) → n ≤ 65535 → n / 256 % 256 * 256 + n % 256 ≡ n
be16_value n h = omega arith

-- A frame gives its content, and then the machine is behind the block.
pub run-body :
    (uuid : List ℕ) (command : ℕ) (content pad rest : List ℕ)
    → length content ≤ 65535
    → length pad ≤ 65535
    → run uuid head0 (body command content pad ++ rest)
      ≡ ((run uuid (settle command 0 0) rest).0, content ++ (run uuid (settle command 0 0) rest).1)
run-body uuid command content pad rest hc hp =
    let fits : length content ≤ length (content ++ (pad ++ rest)) =
      omega (arith, length-append content (pad ++ rest)) in
    let fits' : length pad ≤ length (pad ++ rest) = omega (arith, length-append pad rest) in
    run-header uuid command _ _ _ _ ((content ++ pad) ++ rest)
    ∙ rw (be16_value (length content) hc, be16_value (length pad) hp, append_assoc)
        (run-content uuid command (length content) (length pad) (content ++ (pad ++ rest)) fits
          ∙ rw (take-append content (pad ++ rest), drop-append content (pad ++ rest))
              (rw
                (run-padding uuid command (length pad) (pad ++ rest) fits', drop-append pad rest)))

-- The user id of 16 bytes opens the stream.
pub run-uuid :
    (uuid bytes : List ℕ)
    → length uuid ≡ 16
    → 5 ≤ length bytes
    → run uuid (detect []) (uuid ++ bytes) ≡ run uuid head0 bytes
run-uuid uuid bytes h k =
    run-detect uuid [] (uuid ++ bytes) (omega arith) (omega (arith, length-append uuid bytes))
    ∙ rw (← h) (rw (take-append uuid bytes, drop-append uuid bytes, bytes_eq_refl))
