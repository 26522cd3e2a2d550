-- ===== src/Io/VisionXray.antt =====
-- The padding codec of crates/donut-io/src/vision_xray.rs.
pub mod Stands
pub mod Rounds
pub mod Header
pub mod Loop
pub mod Refines
pub mod Streams
pub mod Records
pub mod Filter
use hold_the_donut.Prelude.{
  ℕ, zero, suc, ◌+◌, ◌*◌, ◌-◌, ◌/◌, ◌%◌, Bool, true, false, not, ◌&&◌, Option, none, some, List, [],
  ◌∷◌, ◌++◌, min, length, take, drop, ltb, ◌==◌, if◌then◌else◌, bytes_eq, be16, replicate,
}
use Prim.Native.Nat.{bit_or}
use hold_the_donut.Prelude.I32.{minus_one, is_positive, sub_i32, as_usize}

abbrev pub buf_size : ℕ
buf_size = 8192

-- The four numbers of a padding seed.
pub record Seed : Type 0 where
  long_below : ℕ
  long_roll : ℕ
  long_base : ℕ
  short_roll : ℕ

abbrev pub default_seed : Seed
default_seed = record { long_below = 900; long_roll = 500; long_base = 900; short_roll = 256 }

-- The length that `xtls_padding` chooses. `roll n` stands for `rng.gen_range(0..n)`. The source
-- computes in i64 and then replaces a negative length by 0; `-` on ℕ gives that 0 at once.
unfoldable pub padding_length : (ℕ → ℕ) → ℕ → Bool → Seed → ℕ
padding_length roll content_len long_padding seed =
    let wanted =
      if ltb content_len seed.long_below && long_padding
      then roll seed.long_roll + seed.long_base - content_len
      else roll seed.short_roll in
    let cap = buf_size - 21 - content_len in if ltb cap wanted then cap else wanted

-- `xtls_padding`: the block, and what is left of `uuid_once`.
unfoldable pub xtls_padding :
    (ℕ → ℕ) → List ℕ → ℕ → Option (List ℕ) → Bool → Seed → List ℕ × Option (List ℕ)
unfolding padding_length
xtls_padding roll content command uuid_once long_padding seed =
    let padding_len = padding_length roll (length content) long_padding seed in
    (
      (elim uuid_once [ none ↦ [] | some uuid ↦ uuid ])
          ++ (command
              ∷ (be16 (length content)
                  ++ (be16 padding_len ++ (content ++ replicate padding_len 0)))),
      none,
    )

-- The fields of type i32 hold bit patterns.
pub record Unpadder : Type 0 where
  pub user_uuid : List ℕ
  pub started : Bool
  pub passthrough : Bool
  pub pending : List ℕ
  pub remaining_command : ℕ
  pub remaining_content : ℕ
  pub remaining_padding : ℕ
  pub current_command : ℕ
  pub finished : Bool
  pub direct : Bool

-- `Unpadder::new`
unfoldable pub new_unpadder : List ℕ → Unpadder
new_unpadder user_uuid = record {
  user_uuid = user_uuid;
  started = false;
  passthrough = false;
  pending = [];
  remaining_command = minus_one;
  remaining_content = minus_one;
  remaining_padding = minus_one;
  current_command = 0;
  finished = false;
  direct = false;
}

-- The `match self.remaining_command`.
unfoldable pub set_command : Unpadder → ℕ → Unpadder
set_command u b =
    if u.remaining_command == 5
    then record u { current_command = b }
    else if u.remaining_command == 4
    then record u { remaining_content = b * 256 }
    else if u.remaining_command == 3
    then record u { remaining_content = bit_or u.remaining_content b }
    else if u.remaining_command == 2
    then record u { remaining_padding = b * 256 }
    else if u.remaining_command == 1
    then record u { remaining_padding = bit_or u.remaining_padding b }
    else u

-- The end of a round of `process`; `again` is the rest of the loop, and the result holds what is
-- appended to `out`.
unfoldable pub round_end :
    (Unpadder → List ℕ → Unpadder × List ℕ) → Unpadder → List ℕ → Unpadder × List ℕ
round_end again u b =
    if not (is_positive u.remaining_command)
      && (not (is_positive u.remaining_content) && not (is_positive u.remaining_padding))
    then (if u.current_command == 0 then again (record u { remaining_command = 5 }) b else (
      record u {
        remaining_command = minus_one;
        remaining_content = minus_one;
        remaining_padding = minus_one;
        finished = true;
        direct = if u.current_command == 2 then true else u.direct;
      },
      b,
    ))
    else again u b

-- The bytes that a round copies or skips.
unfoldable pub content_count : Unpadder → List ℕ → ℕ
content_count u b = min (as_usize u.remaining_content) (length b)

unfoldable pub padding_count : Unpadder → List ℕ → ℕ
padding_count u b = min (as_usize u.remaining_padding) (length b)

-- A round on a buffer that is not empty.
unfoldable pub round :
    (Unpadder → List ℕ → Unpadder × List ℕ) → Unpadder → ℕ → List ℕ → Unpadder × List ℕ
round again u x b =
    let n = content_count u (x ∷ b) in
    let copied =
      round_end again (record u { remaining_content = sub_i32 u.remaining_content n })
        (drop n (x ∷ b)) in
    let m = padding_count u (x ∷ b) in
    if is_positive u.remaining_command
    then round_end again
        (let v = set_command u x in record v { remaining_command = sub_i32 v.remaining_command 1 })
        b
    else if is_positive u.remaining_content
    then (copied.0, take n (x ∷ b) ++ copied.1)
    else round_end again (record u { remaining_padding = sub_i32 u.remaining_padding m })
        (drop m (x ∷ b))

-- `while !b.is_empty()`, on fuel: each round takes a byte at least.
unfoldable pub process_loop : ℕ → Unpadder → List ℕ → Unpadder × List ℕ
process_loop zero u b = (u, [])
process_loop (suc fuel) u [] = (u, [])
process_loop (suc fuel) u (x ∷ b) = let again = process_loop fuel in round again u x b

-- `Unpadder::process`
unfoldable pub process : Unpadder → List ℕ → Unpadder × List ℕ
process u input = process_loop (length input) u input

-- `Unpadder::push`
unfoldable pub push : Unpadder → List ℕ → Unpadder × List ℕ
push u input =
    if u.finished
    then (u, input)
    else if u.passthrough
    then (u, input)
    else if u.started
    then process u input
    else let pending = u.pending ++ input in
      if ltb (length pending) 21
      then (record u { pending = pending }, [])
      else if not (bytes_eq (take 16 pending) u.user_uuid)
      then (record u { passthrough = true; pending = [] }, pending)
      else process (record u { started = true; remaining_command = 5; pending = [] })
          (drop 16 pending)
