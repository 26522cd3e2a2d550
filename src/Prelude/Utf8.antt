-- ===== src/Prelude/Utf8.antt =====
-- Which byte strings Rust's `str::from_utf8` accepts: well-formed UTF-8 (Unicode, table 3-7).
use Prim.Native.Nat.{ℕ, zero, suc, ◌<◌}
use mathlib.Core.Path.{◌≡◌, refl}
use mathlib.Core.Bool.{Bool, true, false, ◌&&◌}
use mathlib.Core.List.{List, [], ◌∷◌, ◌++◌}
use hold_the_donut.Prelude.Tests.{leb, ltb, ◌==◌, if◌then◌else◌, lt→ltb}
use hold_the_donut.Prelude.Lists.{All}

-- What must come next: `left` more continuation bytes, the first of them between `lo` and `hi`.
pub record Expect : Type 0 where
  pub left : ℕ
  pub lo : ℕ
  pub hi : ℕ

abbrev boundary : Expect
boundary = record { left = 0; lo = 0x80; hi = 0xbf }

-- A lead byte; `bad` where no character begins with it.
lead : {A : Type 0} → ℕ → (Expect → A) → A → A
lead b k bad =
    if ltb b 0x80
    then k boundary
    else if ltb b 0xc2
    then bad
    else if ltb b 0xe0
    then k (record { left = 1; lo = 0x80; hi = 0xbf })
    else if b == 0xe0
    then k (record { left = 2; lo = 0xa0; hi = 0xbf })
    else if b == 0xed
    then k (record { left = 2; lo = 0x80; hi = 0x9f })
    else if ltb b 0xf0
    then k (record { left = 2; lo = 0x80; hi = 0xbf })
    else if b == 0xf0
    then k (record { left = 3; lo = 0x90; hi = 0xbf })
    else if ltb b 0xf4
    then k (record { left = 3; lo = 0x80; hi = 0xbf })
    else if b == 0xf4
    then k (record { left = 3; lo = 0x80; hi = 0x8f })
    else bad

utf8_from : List ℕ → Expect → Bool
unfolding lead
utf8_from [] e = e.left == 0
utf8_from (b ∷ bs) e =
    let rest = utf8_from bs in
    elim e.left [
      | zero ↦ lead b rest false
      | suc n ↦ leb e.lo b && leb b e.hi && rest (record { left = n; lo = 0x80; hi = 0xbf })
    ]

unfoldable pub is_utf8 : List ℕ → Bool
unfolding utf8_from
is_utf8 bs = utf8_from bs boundary

-- Plain ASCII is well formed.
ascii_utf8 : (bs : List ℕ) → All (λ b. b < 128) bs → utf8_from bs boundary ≡ true
unfolding utf8_from
ascii_utf8 [] h = refl
ascii_utf8 (b ∷ bs) (p, h) = rw (lt→ltb b 0x80 p) (ascii_utf8 bs h)

pub is_utf8-ascii : (bs : List ℕ) → All (λ b. b < 128) bs → is_utf8 bs ≡ true
unfolding is_utf8
is_utf8-ascii bs h = ascii_utf8 bs h

-- U+FFFD
abbrev replacement : List ℕ
replacement = 0xef ∷ 0xbf ∷ 0xbd ∷ []

-- `held` are the bytes of a character that is not complete.
lossy_from : List ℕ → Expect → List ℕ → List ℕ
unfolding lead
lossy_from [] e held = if e.left == 0 then [] else replacement
lossy_from (b ∷ bs) e held =
    let rest = lossy_from bs in
    let start =
      if ltb b 0x80
      then b ∷ rest boundary []
      else lead b (λ e'. rest e' (b ∷ [])) (replacement ++ rest boundary []) in
    elim e.left [
      | zero ↦ start
      | suc n ↦
          if leb e.lo b && leb b e.hi
          then if n == 0
            then held ++ (b ∷ rest boundary [])
            else rest (record { left = n; lo = 0x80; hi = 0xbf }) (held ++ (b ∷ []))
          else replacement ++ start
    ]

-- `String::from_utf8_lossy`: U+FFFD for each maximal part of a character that is not well formed.
unfoldable pub utf8_lossy : List ℕ → List ℕ
unfolding lossy_from
utf8_lossy bs = lossy_from bs boundary []
