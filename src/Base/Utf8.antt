-- ===== src/Base/Utf8.antt =====
-- `std::str::from_utf8`: which bytes are the text of some characters.
use Prim.Native.Nat.{ℕ, zero, suc}
use mathlib.Core.Bool.{Bool, true, false, ◌&&◌}
use mathlib.Core.Option.{Option, none, some}
use mathlib.Core.List.{List, [], ◌∷◌}
use rsnova.Base.Tests.{leb, ltb, ◌==◌, if◌then◌else◌}

abbrev between : ℕ → ℕ → ℕ → Bool
between lo hi b = leb lo b && leb b hi

-- How many bytes follow the first one of a character, and the range of the next.
unfoldable pub lead : ℕ → Option (ℕ × ℕ × ℕ)
lead b =
    if ltb b 0x80
    then some (0, 0x80, 0xBF)
    else if between 0xC2 0xDF b
    then some (1, 0x80, 0xBF)
    else if b == 0xE0
    then some (2, 0xA0, 0xBF)
    else if b == 0xED
    then some (2, 0x80, 0x9F)
    else if between 0xE1 0xEF b
    then some (2, 0x80, 0xBF)
    else if b == 0xF0
    then some (3, 0x90, 0xBF)
    else if between 0xF1 0xF3 b
    then some (3, 0x80, 0xBF)
    else if b == 0xF4
    then some (3, 0x80, 0x8F)
    else none

unfoldable pub valid_from : ℕ → ℕ → ℕ → List ℕ → Bool
unfolding lead
valid_from zero lo hi [] = true
valid_from (suc n) lo hi [] = false
valid_from zero lo hi (b ∷ bs) = elim (lead b) [
  | none ↦ false
  | some (n, l, h) ↦ valid_from n l h bs
]
valid_from (suc n) lo hi (b ∷ bs) =
    let later = valid_from n 0x80 0xBF bs in if between lo hi b then later else false

unfoldable pub is_utf8 : List ℕ → Bool
unfolding valid_from
is_utf8 bs = valid_from 0 0 0 bs
