-- ===== src/Vision/Stream.antt =====
-- The receiver of a Vision stream as a machine that reads one byte at a time. It says what the two
-- unpadders of the source promise, and nothing of how they buffer.
use hold_the_donut.Prelude.{
  ℕ, zero, suc, ◌+◌, ◌*◌, Option, none, some, List, [], ◌∷◌, ◌++◌, length, take, drop, ltb, ◌==◌,
  if◌then◌else◌, bytes_eq,
}

pub data Phase : Type 0 where
  -- The bytes so far, of the 21 that decide whether this is a Vision stream.
  detect : List ℕ → Phase
  -- A block header of five bytes, by what is read of it.
  head0 : Phase
  head1 : (command : ℕ) → Phase
  head2 : (command hi : ℕ) → Phase
  head3 : (command content : ℕ) → Phase
  head4 : (command content hi : ℕ) → Phase
  -- What is left of a block.
  block : (command content padding : ℕ) → Phase
  -- Everything is passed on: behind a last block, with its command, or in a foreign stream.
  raw : Option ℕ → Phase

-- A block of which nothing is left is over.
unfoldable pub settle : ℕ → ℕ → ℕ → Phase
settle command (suc content) padding = block command (suc content) padding
settle command zero (suc padding) = block command zero (suc padding)
settle command zero zero = if command == 0 then head0 else raw (some command)

-- The block behind a header.
unfoldable pub header : List ℕ → Phase
unfolding settle
header (a ∷ b ∷ c ∷ d ∷ e ∷ rest) = settle a (b * 256 + c) (d * 256 + e)
header _ = head0

-- The 21 bytes that decide.
unfoldable pub decide : List ℕ → List ℕ → Phase × List ℕ
unfolding header
decide uuid seen =
    if bytes_eq (take 16 seen) uuid then (header (drop 16 seen), []) else (raw none, seen)

-- One byte: the next phase, and what is passed on.
unfoldable pub step : List ℕ → Phase → ℕ → Phase × List ℕ
unfolding settle decide
step uuid (detect seen) b =
    let seen' = seen ++ (b ∷ []) in
    if ltb (length seen') 21 then (detect seen', []) else decide uuid seen'
step uuid head0 b = (head1 b, [])
step uuid (head1 command) b = (head2 command b, [])
step uuid (head2 command hi) b = (head3 command (hi * 256 + b), [])
step uuid (head3 command content) b = (head4 command content b, [])
step uuid (head4 command content hi) b = (settle command content (hi * 256 + b), [])
step uuid (block command (suc content) padding) b = (settle command content padding, b ∷ [])
step uuid (block command zero (suc padding)) b = (settle command zero padding, [])
step uuid (block command zero zero) b = (raw (some command), b ∷ [])
step uuid (raw end) b = (raw end, b ∷ [])

unfoldable pub run : List ℕ → Phase → List ℕ → Phase × List ℕ
unfolding step
run uuid ph [] = (ph, [])
run uuid ph (b ∷ bs) =
    let now = step uuid ph b in let later = run uuid now.0 bs in (later.0, now.1 ++ later.1)
