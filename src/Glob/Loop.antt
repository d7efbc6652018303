-- ===== src/Glob/Loop.antt =====
-- The loop of `matches` in glob.rs decides the language of the pattern, and ends.
use seedstone.Base.{
  ℕ, zero, suc, ◌+◌, ◌≤◌, ◌≡◌, ◌≢◌, inl, inr, refl, sym, ap, ◌∙◌, subst, arith, Bool, true, false,
  false≢true, Bytes, Option, none, some, [], ◌∷◌, length, drop, Bool-cases, Option-cases,
  length-drop, drop-drop,
}
use seedstone.Glob.{Attempt, element, after_star, advance, backtrack, match_loop}
use seedstone.Glob.Language.{element-rest}
use seedstone.Glob.Correct.{
  Passed, Passed-suc, IsAligned, Open, Decides, Decides-iff, spent-Decides, star_iff, hit_iff,
  miss-Matches, back_iff,
}

pub element-inside : (p : Bytes) (c : ℕ) → (element p c).0 ≡ true → p ≢ []
unfolding element
element-inside p c hit e = false≢true (sym (ap (λ q. (element q c).0) e) ∙ hit)

IsAligned-hit :
    (star : Option Bytes) (pending : Bytes) (c : ℕ) (s resume : Bytes)
    → after_star pending ≡ none
    → (element pending c).0 ≡ true
    → IsAligned star pending (c ∷ s) resume
    → IsAligned star (element pending c).1 s resume
IsAligned-hit none pending c s resume no_star hit h = tt
IsAligned-hit (some after) pending c s resume no_star hit (k, passed, e, within) =
    let next : k + 1 ≡ suc k = omega arith in
    (
      suc k,
      subst (Passed (suc k) after) (element-rest pending 0 c)
          (Passed-suc k after pending passed no_star (element-inside pending c hit)),
      ap (drop 1) e ∙ drop-drop 1 k resume ∙ ap (λ i. drop i resume) next,
      omega (arith, ap length e, length-drop k resume),
    )

pub advance-star :
    (a : Attempt) (c : ℕ) (s p : Bytes)
    → after_star a.pending ≡ some p
    → advance a c s ≡ some (record a { pending = p; star = some p; resume = a.subject })
unfolding advance
advance-star a c s p e = rw (advance, e) refl

pub advance-hit :
    (a : Attempt) (c : ℕ) (s : Bytes)
    → after_star a.pending ≡ none
    → (element a.pending c).0 ≡ true
    → advance a c s ≡ some (record a { pending = (element a.pending c).1; subject = s })
unfolding advance
advance-hit a c s no_star hit = rw (advance, no_star, hit) refl

pub advance-miss :
    (a : Attempt) (c : ℕ) (s : Bytes)
    → after_star a.pending ≡ none
    → (element a.pending c).0 ≡ false
    → advance a c s ≡ backtrack a
unfolding advance
advance-miss a c s no_star miss = rw (advance, no_star, miss) refl

-- The loop after a round.
abbrev pub loop_on : ℕ → Option Attempt → Option Bool
loop_on fuel none = some false
loop_on fuel (some next) = match_loop fuel next

abbrev pub at : Option Bytes → Bytes → Bytes → Bytes → Attempt
at star pending subject resume = record {
  pending = pending;
  subject = subject;
  star = star;
  resume = resume;
}

some_left : (k : ℕ) (c : ℕ) (s resume : Bytes) → c ∷ s ≡ drop k resume → 1 ≤ length resume
some_left k c s resume e = omega (arith, ap length e, length-drop k resume)

abbrev LoopDecides : ℕ → Type 0
LoopDecides fuel =
    (star : Option Bytes) (pending subject resume : Bytes)
    → IsAligned star pending subject resume
    → Decides (match_loop fuel (at star pending subject resume)) (Open star pending subject resume)

backtrack-Decides :
    (fuel : ℕ) (star : Option Bytes) (pending : Bytes) (c : ℕ) (s resume : Bytes)
    → LoopDecides fuel
    → IsAligned star pending (c ∷ s) resume
    → after_star pending ≡ none
    → (element pending c).0 ≡ false
    → Decides
        (loop_on fuel (backtrack (at star pending (c ∷ s) resume)))
        (Open star pending (c ∷ s) resume)
backtrack-Decides fuel none pending c s resume more h no_star miss =
    (λ e. absurd (false≢true e), λ m. absurd (miss-Matches pending c s no_star miss m))
backtrack-Decides fuel (some after) pending c s resume more (k, passed, e, within) no_star miss =
    Decides-iff (match_loop fuel (at (some after) after (drop 1 resume) (drop 1 resume)))
      (Open (some after) after (drop 1 resume) (drop 1 resume))
      (Open (some after) pending (c ∷ s) resume)
      (back_iff after pending c s resume (some_left k c s resume e)
        (miss-Matches pending c s no_star miss))
      (more (some after) after (drop 1 resume) (drop 1 resume) (0, refl, refl, omega arith))

-- While there is fuel, the loop decides whether the subject matches.
pub loop-Decides : (fuel : ℕ) → LoopDecides fuel
unfolding match_loop
loop-Decides zero star pending subject resume h = tt
loop-Decides (suc fuel) star pending [] resume h = spent-Decides star pending resume h
loop-Decides (suc fuel) star pending (c ∷ s) resume h =
    let a = at star pending (c ∷ s) resume in
    let goal : Option Attempt → Type 0 =
      λ o. Decides (loop_on fuel o) (Open star pending (c ∷ s) resume) in
    elim (Option-cases (after_star pending)) [
      | inr (p, e) ↦ subst goal (sym (advance-star a c s p e)) (
          Decides-iff (match_loop fuel (at (some p) p (c ∷ s) (c ∷ s)))
            (Open (some p) p (c ∷ s) (c ∷ s)) (Open star pending (c ∷ s) resume)
            (star_iff star pending p (c ∷ s) resume h e)
            (loop-Decides fuel (some p) p (c ∷ s) (c ∷ s) (0, refl, refl, omega arith)))
      | inl no_star ↦ elim (Bool-cases (element pending c).0) [
        | inl hit ↦
            let left = (element pending c).1 in
            subst goal (sym (advance-hit a c s no_star hit)) (
              Decides-iff (match_loop fuel (at star left s resume)) (Open star left s resume)
                (Open star pending (c ∷ s) resume) (hit_iff star pending c s resume no_star hit)
                (loop-Decides fuel star left s resume
                  (IsAligned-hit star pending c s resume no_star hit h)))
        | inr miss ↦
            subst goal (sym (advance-miss a c s no_star miss))
              (backtrack-Decides fuel star pending c s resume (loop-Decides fuel) h no_star miss)
      ]
    ]
