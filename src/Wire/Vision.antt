-- ===== src/Wire/Vision.antt =====
-- crates/donut-wire/src/vision.rs: the Vision padding codec. `self.pending` here is what is left of
-- the source's buffer from its index `i` on; the source drains up to `i` at the end.
pub mod Phase
pub mod Rounds
pub mod Refines
pub mod Padder
use hold_the_donut.Prelude.{
  ℕ, zero, suc, ◌+◌, ◌*◌, ◌-◌, ◌/◌, ◌%◌, Bool, true, false, Option, none, some, List, [], ◌∷◌, ◌++◌,
  min, length, take, drop, ltb, ◌==◌, if◌then◌else◌, bytes_eq, be16, replicate,
}

abbrev pub cmd_padding_continue : ℕ
cmd_padding_continue = 0x00

abbrev cmd_padding_end : ℕ
cmd_padding_end = 0x01

abbrev cmd_padding_direct : ℕ
cmd_padding_direct = 0x02

abbrev max_content : ℕ
max_content = 65535

pub record VisionPadder : Type 0 where
  pub uuid : List ℕ
  pub first : Bool

-- `VisionPadder::new`
unfoldable pub new_padder : List ℕ → VisionPadder
new_padder uuid = record { uuid = uuid; first = true }

-- `VisionPadder::frame`: `content.len() as u16` wraps, and `padding_len` is a u16.
unfoldable pub frame : VisionPadder → ℕ → List ℕ → ℕ → VisionPadder × List ℕ
frame p command content padding_len = (
  record p { first = false },
  (if p.first then p.uuid else [])
      ++ (command
          ∷ (be16 (length content % 65536)
              ++ (be16 padding_len ++ (content ++ replicate padding_len 0)))),
)

pub record VisionUnpadder : Type 0 where
  pub uuid : List ℕ
  pub started : Bool
  pub direct : Bool
  pub reading_header : Bool
  pub remaining_content : ℕ
  pub remaining_padding : ℕ
  pub current_command : ℕ
  pub pending : List ℕ

-- `VisionUnpadder::new`
unfoldable pub new_unpadder : List ℕ → VisionUnpadder
new_unpadder uuid = record {
  uuid = uuid;
  started = false;
  direct = false;
  reading_header = false;
  remaining_content = 0;
  remaining_padding = 0;
  current_command = cmd_padding_continue;
  pending = [];
}

-- Five bytes of header, if they are there.
unfoldable pub take_header : VisionUnpadder → List ℕ → Option VisionUnpadder
take_header u (a ∷ b ∷ c ∷ d ∷ e ∷ rest) = some (record u {
  current_command = a;
  remaining_content = b * 256 + c;
  remaining_padding = d * 256 + e;
  reading_header = false;
  pending = rest;
})
take_header u _ = none

-- The part of a round under `if self.reading_header`; `none` is its `break`.
unfoldable pub header_part : VisionUnpadder → Option VisionUnpadder
unfolding take_header
header_part u = if u.reading_header then take_header u u.pending else some u

unfoldable pub content_part : VisionUnpadder → VisionUnpadder
content_part u =
    let n = min u.remaining_content (length u.pending) in
    record u { remaining_content = u.remaining_content - n; pending = drop n u.pending }

-- What `content_part` appends to `out`.
unfoldable pub content_out : VisionUnpadder → List ℕ
content_out u = take (min u.remaining_content (length u.pending)) u.pending

unfoldable pub padding_part : VisionUnpadder → VisionUnpadder
padding_part u =
    let n = min u.remaining_padding (length u.pending) in
    record u { remaining_padding = u.remaining_padding - n; pending = drop n u.pending }

-- The end of a round, behind a block that is fully consumed; `again` is the rest of the loop.
unfoldable pub end_part :
    (VisionUnpadder → VisionUnpadder × List ℕ) → VisionUnpadder → VisionUnpadder × List ℕ
end_part again u =
    if u.current_command == cmd_padding_continue
    then again (record u { reading_header = true })
    else (record u { direct = true; pending = [] }, u.pending)

unfoldable pub after_content :
    (VisionUnpadder → VisionUnpadder × List ℕ) → VisionUnpadder → VisionUnpadder × List ℕ
after_content again u =
    if ltb 0 u.remaining_content
    then (u, [])
    else let v = padding_part u in if ltb 0 v.remaining_padding then (v, []) else end_part again v

-- A round behind its header.
unfoldable pub block_part :
    (VisionUnpadder → VisionUnpadder × List ℕ) → VisionUnpadder → VisionUnpadder × List ℕ
block_part again u =
    let rest = after_content again (content_part u) in (rest.0, content_out u ++ rest.1)

-- The loop, on fuel: every round but the first takes a header of five bytes.
unfoldable pub unpad_loop : ℕ → VisionUnpadder → VisionUnpadder × List ℕ
unpad_loop zero u = (u, [])
unpad_loop (suc fuel) u =
    let again = unpad_loop fuel in
    elim (header_part u) [ none ↦ (u, []) | some v ↦ block_part again v ]

-- `VisionUnpadder::push`: the new state, and the bytes appended to `out`.
unfoldable pub push : VisionUnpadder → List ℕ → VisionUnpadder × List ℕ
push u input =
    if u.direct
    then (u, input)
    else let pending = u.pending ++ input in
      if u.started
      then unpad_loop (length pending + 2) (record u { pending = pending })
      else if ltb (length pending) 21
      then (record u { pending = pending }, [])
      else if bytes_eq (take 16 pending) u.uuid
      then unpad_loop (length pending + 2)
          (record u { pending = drop 16 pending; started = true; reading_header = true })
      else (record u { direct = true; pending = [] }, pending)
