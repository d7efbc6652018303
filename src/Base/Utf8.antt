-- ===== src/Base/Utf8.antt =====
-- `String::from_utf8`: which byte strings are UTF-8, by the standard's table of well-formed
-- sequences.
use Prim.Native.Nat.{ℕ, ◌<◌}
use mathlib.Core.Path.{◌≡◌, refl}
use mathlib.Core.Bool.{Bool, true, false, ◌&&◌}
use mathlib.Core.List.{List, [], ◌∷◌}
use mathlib.Core.Option.{Option, none, some}
use native.Mathlib.Omega.{arith}
use seedstone.Base.Tests.{ltb, leb, ◌==◌, if◌then◌else◌}
use seedstone.Base.Lists.{Bytes, All}

-- The ranges of the bytes that a sequence still owes.
abbrev Owed : Type 0
Owed = List (ℕ × ℕ)

abbrev tail_byte : ℕ × ℕ
tail_byte = (0x80, 0xbf)

unfoldable pub lead : ℕ → Option (List (ℕ × ℕ))
lead b =
    if ltb b 0x80
    then some []
    else if ltb b 0xc2
    then none
    else if ltb b 0xe0
    then some (tail_byte ∷ [])
    else if b == 0xe0
    then some ((0xa0, 0xbf) ∷ tail_byte ∷ [])
    else if b == 0xed
    then some ((0x80, 0x9f) ∷ tail_byte ∷ [])
    else if ltb b 0xf0
    then some (tail_byte ∷ tail_byte ∷ [])
    else if b == 0xf0
    then some ((0x90, 0xbf) ∷ tail_byte ∷ tail_byte ∷ [])
    else if ltb b 0xf4
    then some (tail_byte ∷ tail_byte ∷ tail_byte ∷ [])
    else if b == 0xf4
    then some ((0x80, 0x8f) ∷ tail_byte ∷ tail_byte ∷ [])
    else none

unfoldable pub utf8_from : List (ℕ × ℕ) → Bytes → Bool
unfolding lead
utf8_from [] [] = true
utf8_from (range ∷ owed) [] = false
utf8_from [] (b ∷ rest) = elim (lead b) [ none ↦ false | some owed ↦ utf8_from owed rest ]
utf8_from ((low, high) ∷ owed) (b ∷ rest) = leb low b && leb b high && utf8_from owed rest

unfoldable pub is_utf8 : Bytes → Bool
unfolding utf8_from
is_utf8 text = utf8_from [] text

-- ASCII is UTF-8.
pub is_utf8-ascii : (text : Bytes) → All (λ c. c < 0x80) text → is_utf8 text ≡ true
unfolding is_utf8
is_utf8-ascii [] h = refl
is_utf8-ascii (c ∷ rest) h = ground (arith, is_utf8-ascii rest)
