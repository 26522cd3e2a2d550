-- ===== src/Examples/Text.antt =====
-- UTF-8 at concrete inputs.
use hold_the_donut.Prelude.{◌≡◌, refl, true, false, [], ◌∷◌}
use hold_the_donut.Prelude.Utf8.{is_utf8, utf8_lossy}

utf8_accepts : is_utf8 (0xd0 ∷ 0xbf ∷ 0x2e ∷ 0xe2 ∷ 0x82 ∷ 0xac ∷ []) ≡ true
unfolding is_utf8
utf8_accepts = refl

utf8_rejects_surrogate : is_utf8 (0xed ∷ 0xa0 ∷ 0x80 ∷ []) ≡ false
unfolding is_utf8
utf8_rejects_surrogate = refl

utf8_rejects_overlong : is_utf8 (0xc0 ∷ 0x80 ∷ []) ≡ false
unfolding is_utf8
utf8_rejects_overlong = refl

utf8_lossy_keeps : utf8_lossy (0x61 ∷ 0xe2 ∷ 0x82 ∷ 0xac ∷ []) ≡ 0x61 ∷ 0xe2 ∷ 0x82 ∷ 0xac ∷ []
unfolding utf8_lossy
utf8_lossy_keeps = refl

-- A truncated character in the middle, and one at the end.
utf8_lossy_replaces :
    utf8_lossy (0xe2 ∷ 0x82 ∷ 0x61 ∷ 0xff ∷ 0xc3 ∷ [])
    ≡ 0xef ∷ 0xbf ∷ 0xbd ∷ 0x61 ∷ 0xef ∷ 0xbf ∷ 0xbd ∷ 0xef ∷ 0xbf ∷ 0xbd ∷ []
unfolding utf8_lossy
utf8_lossy_replaces = refl
