-- ===== src/Glob/Ending.antt =====
-- The loop of `matches` in glob.rs ends: a round shortens what is left of the pattern, or moves the
-- last star's position on in the subject.
use seedstone.Base.{
  ℕ, zero, suc, ◌+◌, ◌-◌, ◌*◌, ◌==◌, ◌≤◌, ◌<◌, ◌≡◌, ◌≢◌, ◌↔◌, inl, inr, refl, sym, ap, subst, arith,
  Bool, true, false, Bytes, Option, none, some, [], ◌∷◌, ◌||◌, length, drop, Bool-cases,
  Option-cases, length-drop,
}
use seedstone.Glob.{
  Attempt, members, class, literal, in_range, element, after_star, backtrack, only_stars,
  match_loop, matches, rounds,
}
use seedstone.Glob.Language.{Matches, after_star-head}
use seedstone.Glob.Correct.{Decides}
use seedstone.Glob.Loop.{
  advance-star, advance-hit, advance-miss, loop_on, at, loop-Decides, element-inside,
}

members-least : (x : ℕ) (h : Bool) (i : ℕ) (p : Bytes) → i ≤ (members x h i p).1
unfolding members
members-least x h i [] = omega arith
members-least x h i (c ∷ []) = ground arith
members-least x h i (c ∷ d ∷ []) = ground (arith, members-least x (h || (c == x)) (i + 1) (d ∷ []))
members-least x h i (c ∷ d ∷ e ∷ p) = elim (Bool-cases (c == b']')) [
  | inl closes ↦ rw closes (omega arith)
  | inr member ↦ elim (Bool-cases (c == b'\\')) [
    | inl escape ↦
        rw (member, escape) (omega (arith, members-least x (h || (d == x)) (i + 2) (e ∷ p)))
    | inr plain ↦ elim (Bool-cases (d == b'-')) [
      | inl dash ↦
          rw (member, plain, dash) (omega (arith, members-least x (h || in_range c e x) (i + 3) p))
      | inr alone ↦
          rw (member, plain, alone)
            (omega (arith, members-least x (h || (c == x)) (i + 1) (d ∷ e ∷ p)))
    ]
  ]
]

class-least : (p : Bytes) (c : ℕ) → 1 ≤ (class p c).1
unfolding class
class-least [] c = omega arith
class-least (d ∷ p) c = elim (Bool-cases (d == b'^')) [
  | inl negated ↦ rw negated (omega (arith, members-least c false 2 p))
  | inr plain ↦ rw plain (omega (arith, members-least c false 1 (d ∷ p)))
]

literal-shorter : (x : ℕ) (p : Bytes) (c : ℕ) → length (literal x p c).1 ≤ length p
literal-shorter x [] c = omega arith
literal-shorter x (d ∷ p) c = elim (Bool-cases (x == b'\\')) [
  | inl escape ↦ rw escape (omega arith)
  | inr plain ↦ rw plain (omega arith)
]

element-shorter : (p : Bytes) (c : ℕ) → p ≢ [] → length (element p c).1 < length p
unfolding element
element-shorter [] c h = absurd (h refl)
element-shorter (x ∷ p) c h = elim (Bool-cases (x == b'?')) [
  | inl any ↦ rw any (omega arith)
  | inr other ↦ elim (Bool-cases (x == b'[')) [
    | inl bracket ↦
        rw (other, bracket) (omega (arith, length-drop (class p c).1 (x ∷ p), class-least p c))
    | inr plain ↦ rw (other, plain) (omega (arith, literal-shorter x p c))
  ]
]

abbrev IsWithin : ℕ → Option Bytes → Type 0
IsWithin most none = Unit {0}
IsWithin most (some after) = length after ≤ most

abbrev Ends : ℕ → Option Attempt → Type 0
Ends fuel o = (b : Bool) × (loop_on fuel o ≡ some b)

abbrev LoopEnds : ℕ → ℕ → Type 0
LoopEnds most fuel =
    (star : Option Bytes) (pending subject resume : Bytes)
    → IsWithin most star
    → length pending ≤ most
    → length subject ≤ length resume
    → length resume * suc most + length pending < fuel
    → (b : Bool) × (match_loop fuel (at star pending subject resume) ≡ some b)

fewer : (r k p n fuel : ℕ) → 1 ≤ r → p ≤ k → r * suc k + n < suc fuel → (r - 1) * suc k + p < fuel
fewer zero k p n fuel h l e = absurd (omega arith)
fewer (suc q) k p n fuel h l e = let same : suc q - 1 ≡ q = omega arith in rw same (grind arith)

no_more : (a r k p n fuel : ℕ) → a ≤ r → n ≡ suc p → r * suc k + n < suc fuel → a * suc k + p < fuel
no_more a r k p n fuel h l e = grind arith

backtrack-Ends :
    (most fuel : ℕ) (star : Option Bytes) (pending subject resume : Bytes)
    → LoopEnds most fuel
    → IsWithin most star
    → 1 ≤ length resume
    → length resume * suc most + length pending < suc fuel
    → Ends fuel (backtrack (at star pending subject resume))
backtrack-Ends most fuel none pending subject resume more h left enough = (false, refl)
backtrack-Ends most fuel (some after) pending subject resume more h left enough =
    more (some after) after (drop 1 resume) (drop 1 resume) h h (omega arith) (
      rw (length-drop 1 resume)
        (fewer (length resume) most (length after) (length pending) fuel left h enough))

loop-Ends : (most fuel : ℕ) → LoopEnds most fuel
unfolding match_loop
loop-Ends most zero star pending subject resume h k l enough = absurd (omega arith)
loop-Ends most (suc fuel) star pending [] resume h k l enough = (only_stars pending, refl)
loop-Ends most (suc fuel) star pending (c ∷ s) resume h k l enough =
    let a = at star pending (c ∷ s) resume in
    elim (Option-cases (after_star pending)) [
      | inr (p, e) ↦
          let head = ap length (after_star-head pending p e) in
          subst (Ends fuel) (sym (advance-star a c s p e)) (
            loop-Ends most fuel (some p) p (c ∷ s) (c ∷ s) (omega (arith, head))
              (omega (arith, head)) (omega arith)
              (no_more (length (c ∷ s)) (length resume) most (length p) (length pending) fuel l head
                enough))
      | inl no_star ↦ elim (Bool-cases (element pending c).0) [
        | inl hit ↦
            let left = (element pending c).1 in
            let shorter = element-shorter pending c (element-inside pending c hit) in
            subst (Ends fuel) (sym (advance-hit a c s no_star hit)) (
              loop-Ends most fuel star left s resume h (omega (arith, shorter)) (omega arith)
                (omega (arith, shorter)))
        | inr miss ↦ subst (Ends fuel) (sym (advance-miss a c s no_star miss)) (
            backtrack-Ends most fuel star pending (c ∷ s) resume (loop-Ends most fuel) h
              (omega arith) enough)
      ]
    ]

-- `matches` answers on every pattern and subject, and answers yes exactly when the subject is in
-- the language of the pattern, in which a star takes any run, and any other element the bytes
-- that it takes.
pub matches_lem :
    (glob subject : Bytes)
    → (b : Bool) × (matches glob subject ≡ some b) × ((b ≡ true) ↔ Matches glob subject)
unfolding matches
matches_lem glob subject =
    let (b, e) =
      loop-Ends (length glob) (rounds glob subject) none glob subject subject tt (omega arith)
        (omega arith) (omega arith) in
    (
      b,
      e,
      subst (λ o. Decides o (Matches glob subject)) e
          (loop-Decides (rounds glob subject) none glob subject subject tt),
    )
