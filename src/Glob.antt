-- ===== src/Glob.antt =====
-- crates/seedstone-core/src/glob.rs: glob matching over bytes. A position in the pattern or the
-- subject is what is left of it from there.
pub mod Language
pub mod Correct
pub mod Loop
pub mod Ending
use seedstone.Base.{
  ℕ, zero, suc, ◌+◌, ◌*◌, ◌==◌, leb, min, max, Bool, true, false, not, ◌&&◌, ◌||◌, Bytes, Option,
  none, some, List, [], ◌∷◌, length, drop, if◌then◌else◌,
}

-- `!=` on Booleans
abbrev pub differ : Bool → Bool → Bool
differ true b = not b
differ false b = b

-- `(lo..=hi).contains(&byte)` with the ends in either order
abbrev pub in_range : ℕ → ℕ → ℕ → Bool
in_range member end byte = leb (min member end) byte && leb byte (max member end)

-- The loop of `class` from offset `i`, on the pattern from there: whether a member was the byte,
-- and the offset past the class.
unfoldable pub members : ℕ → Bool → ℕ → Bytes → Bool × ℕ
members byte hit i [] = (hit, i)
members byte hit i (c ∷ []) = if c == b']' then (hit, i + 1) else (hit || (c == byte), i + 1)
members byte hit i (c ∷ d ∷ []) =
    let single = members byte (hit || (c == byte)) (i + 1) (d ∷ []) in
    if c == b']' then (hit, i + 1) else if c == b'\\' then (hit || (d == byte), i + 2) else single
members byte hit i (c ∷ d ∷ e ∷ rest) =
    let escaped = members byte (hit || (d == byte)) (i + 2) (e ∷ rest) in
    let ranged = members byte (hit || in_range c e byte) (i + 3) rest in
    let single = members byte (hit || (c == byte)) (i + 1) (d ∷ e ∷ rest) in
    if c == b']'
    then (hit, i + 1)
    else if c == b'\\'
    then escaped
    else if d == b'-'
    then ranged
    else single

abbrev pub negate_hit : Bool → Bool × ℕ → Bool × ℕ
negate_hit negated (hit, width) = (differ hit negated, width)

-- On what follows the opening bracket.
unfoldable pub class : Bytes → ℕ → Bool × ℕ
unfolding members
class [] byte = (false, 1)
class (c ∷ rest) byte =
    if c == b'^'
    then negate_hit true (members byte false 2 rest)
    else negate_hit false (members byte false 1 (c ∷ rest))

-- An escaped byte, or a literal one.
abbrev pub literal : ℕ → Bytes → ℕ → Bool × Bytes
literal c [] byte = (c == byte, [])
literal c (d ∷ p) byte = if c == b'\\' then (d == byte, p) else (c == byte, d ∷ p)

-- Whether the element at the head of a pattern takes the byte, and the pattern after it, for an
-- element that is no star.
unfoldable pub element : Bytes → ℕ → Bool × Bytes
unfolding class
element [] byte = (false, [])
element (c ∷ p) byte =
    if c == b'?'
    then (true, p)
    else if c == b'['
    then (let (hit, width) = class p byte in (hit, drop width (c ∷ p)))
    else literal c p byte

abbrev pub after_star : Bytes → Option Bytes
after_star [] = none
after_star (c ∷ p) = if c == b'*' then some p else none

-- The state of the loop: what is left of the pattern and of the subject, and at the last star the
-- pattern after it and the subject where it began.
pub record Attempt : Type 0 where
  pub pending : Bytes
  pub subject : Bytes
  pub star : Option Bytes
  pub resume : Bytes

abbrev pub backtrack : Attempt → Option Attempt
backtrack a = elim a.star [
  | none ↦ none
  | some after ↦
      some (record a { pending = after; subject = drop 1 a.resume; resume = drop 1 a.resume })
]

-- One round on a subject that is not spent: `none` is a definitive mismatch.
unfoldable pub advance : Attempt → ℕ → Bytes → Option Attempt
unfolding element
advance a c s = elim (after_star a.pending) [
  | some p ↦ some (record a { pending = p; star = some p; resume = a.subject })
  | none ↦
      if (element a.pending c).0
      then some (record a { pending = (element a.pending c).1; subject = s })
      else backtrack a
]

abbrev pub only_stars : Bytes → Bool
only_stars [] = true
only_stars (c ∷ p) = (c == b'*') && only_stars p

-- On fuel: `none` is no fuel left.
unfoldable pub match_loop : ℕ → Attempt → Option Bool
unfolding advance
match_loop zero a = none
match_loop (suc fuel) a = elim a.subject [
  | [] ↦ some (only_stars a.pending)
  | c ∷ s ↦ elim (advance a c s) [ none ↦ some false | some next ↦ match_loop fuel next ]
]

abbrev pub first_attempt : Bytes → Bytes → Attempt
first_attempt glob subject = record {
  pending = glob;
  subject = subject;
  star = none;
  resume = subject;
}

abbrev pub rounds : Bytes → Bytes → ℕ
rounds glob subject = suc (length subject * suc (length glob) + length glob)

unfoldable pub matches : Bytes → Bytes → Option Bool
unfolding match_loop
matches glob subject = match_loop (rounds glob subject) (first_attempt glob subject)
