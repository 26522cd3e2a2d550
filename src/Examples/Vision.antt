-- ===== src/Examples/Vision.antt =====
-- Concrete runs of the two Vision codecs.
use mathlib.Core.List.{flatten}
use hold_the_donut.Prelude.{ℕ, ◌≡◌, refl, arith, true, List, [], ◌∷◌, ◌++◌, All, IsByte}
use hold_the_donut.Wire.Vision.{new_padder, frame, new_unpadder, push}
use hold_the_donut.Wire.Vision.Phase.{phase, Follows}
use hold_the_donut.Wire.Vision.Refines.{push-Follows}
use hold_the_donut.Wire.Vision.Padder.{
  push_all, push_all-chunks, Item, contents, send, push_all-send, IsUnpadder-new,
}
use hold_the_donut.Io.VisionXray as io
use hold_the_donut.Io.VisionXray.Streams.{feed, feed-push_all}
use hold_the_donut.Examples.Data.{alice}

abbrev hello : Item
hello = record { content = 104 ∷ 105 ∷ []; padding_len = 2 }

abbrev bye : Item
bye = record { content = 98 ∷ []; padding_len = 1 }

-- Two frames and a byte behind them, cut inside the user id, a header and a padding.
abbrev pub pieces : List (List ℕ)
pieces =
    (1 ∷ 2 ∷ 3 ∷ 4 ∷ 5 ∷ 6 ∷ 7 ∷ [])
    ∷ (8 ∷ 9 ∷ 10 ∷ 11 ∷ 12 ∷ 13 ∷ 14 ∷ 15 ∷ 16 ∷ 0 ∷ 0 ∷ [])
    ∷ (2 ∷ 0 ∷ 2 ∷ 104 ∷ 105 ∷ 0 ∷ [])
    ∷ (0 ∷ 2 ∷ 0 ∷ 1 ∷ 0 ∷ 1 ∷ 98 ∷ 0 ∷ 33 ∷ [])
    ∷ []

abbrev whole : List (List ℕ)
whole = flatten pieces ∷ []

pieces_sent : flatten pieces ≡ send (new_padder alice) (hello ∷ []) bye 2 ++ (33 ∷ [])
unfolding flatten send new_padder frame
pieces_sent = refl

pieces-whole : flatten pieces ≡ flatten whole
unfolding flatten
pieces-whole = refl

pieces_bytes : All (All IsByte) pieces
pieces_bytes = (ground arith, (ground arith, (ground arith, (ground arith, tt))))

push_all-send_example :
    ((push_all (new_unpadder alice) pieces).1 ≡ contents (hello ∷ []) ++ (bye.content ++ (33 ∷ [])))
    × ((push_all (new_unpadder alice) pieces).0.direct ≡ true)
push_all-send_example =
    push_all-send alice (hello ∷ []) bye 2 (33 ∷ []) pieces refl ((omega arith, omega arith), tt)
      (omega arith, omega arith) (omega arith) pieces_sent

push_all-chunks_example :
    (push_all (new_unpadder alice) pieces).1 ≡ (push_all (new_unpadder alice) whole).1
push_all-chunks_example =
    push_all-chunks (new_unpadder alice) pieces whole (IsUnpadder-new alice) pieces-whole

push-Follows_example :
    Follows
      (new_unpadder alice).uuid
      (phase (new_unpadder alice))
      (1 ∷ 2 ∷ [])
      (push (new_unpadder alice) (1 ∷ 2 ∷ []))
push-Follows_example = push-Follows (new_unpadder alice) (1 ∷ 2 ∷ []) (IsUnpadder-new alice)

feed-push_all_example :
    (feed (io.new_unpadder alice) pieces).1 ≡ (push_all (new_unpadder alice) whole).1
feed-push_all_example = feed-push_all alice pieces whole pieces_bytes pieces-whole
