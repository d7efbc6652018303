-- ===== src/Glob/Correct.antt =====
-- The loop of `matches` in glob.rs, which remembers one star, decides the language of the pattern.
use seedstone.Base.{
  ℕ, zero, suc, ◌+◌, ◌-◌, ◌≤◌, ◌≡◌, ◌≢◌, ◌⊎◌, ◌↔◌, inl, inr, refl, sym, ap, ◌∙◌, subst, arith, Bool,
  true, false, false≢true, Bytes, Option, none, some, [], ◌∷◌, length, drop, length-drop, drop-drop,
}
use seedstone.Glob.{element, after_star, only_stars}
use seedstone.Glob.Language.{
  rest, Matches, star_ends, takes, element-rest, only_stars-Matches, Matches-only_stars,
  after_star-head, takes-inv, star-inv, star-Matches,
}

-- The pattern after its first `n` elements, of which none is a star.
abbrev pub Passed : ℕ → Bytes → Bytes → Type 0
Passed zero p q = p ≡ q
Passed (suc n) p q = (after_star p ≡ none) × (p ≢ []) × Passed n (rest p) q

Passed-Matches :
    (n : ℕ) (p q t : Bytes) → Passed n p q → Matches p t → (n ≤ length t) × Matches q (drop n t)
Passed-Matches zero p q t h m = (omega arith, subst (λ r. Matches r t) h m)
Passed-Matches (suc n) p q t (no_star, more, h) m = elim (takes-inv p t no_star m) [
  | inl (empty, e) ↦ absurd (more empty)
  | inr (c, u, e, hit, found) ↦
      let (within, last) = Passed-Matches n (rest p) q u h found in rw e (omega arith, last)
]

pub Passed-suc :
    (n : ℕ) (p q : Bytes) → Passed n p q → after_star q ≡ none → q ≢ [] → Passed (suc n) p (rest q)
Passed-suc zero p q h k e = rw h (k, e, refl)
Passed-suc (suc n) p q (no_star, more, h) k e = (no_star, more, Passed-suc n (rest p) q h k e)

-- From the last star on, the elements up to the position have taken the bytes up to it.
abbrev pub IsAligned : Option Bytes → Bytes → Bytes → Bytes → Type 0
IsAligned none pending subject resume = Unit {0}
IsAligned (some after) pending subject resume =
    (k : ℕ) × Passed k after pending × (subject ≡ drop k resume) × (k ≤ length resume)

-- The subject matches from the position on, or from the last star on when that takes more.
abbrev pub Open : Option Bytes → Bytes → Bytes → Bytes → Type 0
Open none pending subject resume = Matches pending subject
Open (some after) pending subject resume =
    Matches pending subject
    ⊎ ((n : ℕ) × (1 ≤ n) × (n ≤ length resume) × Matches after (drop n resume))

abbrev pub Decides : Option Bool → Type 0 → Type 0
Decides none P = Unit {0}
Decides (some b) P = (b ≡ true) ↔ P

pub Decides-iff : (o : Option Bool) (P Q : Type 0) → (P ↔ Q) → Decides o P → Decides o Q
Decides-iff none P Q h d = tt
Decides-iff (some b) P Q h d = (λ e. h.0 (d.0 e), λ q. d.1 (h.1 q))

Open-left :
    (star : Option Bytes) (pending subject resume : Bytes)
    → Matches pending subject
    → Open star pending subject resume
Open-left none pending subject resume m = m
Open-left (some after) pending subject resume m = inl m

-- The subject is spent.
pub spent-Decides :
    (star : Option Bytes) (pending resume : Bytes)
    → IsAligned star pending [] resume
    → Decides (some (only_stars pending)) (Open star pending [] resume)
spent-Decides none pending resume h =
    (only_stars-Matches pending, λ m. Matches-only_stars pending [] m refl)
spent-Decides (some after) pending resume (k, passed, e, within) = (
  λ b. inl (only_stars-Matches pending b),
  λ open_match. elim open_match [
    | inl m ↦ Matches-only_stars pending [] m refl
    | inr (n, least, most, m) ↦
        let far = (Passed-Matches k after pending (drop n resume) passed m).0 in
        absurd (omega (arith, far, length-drop n resume, length-drop k resume, ap length e))
  ],
)

star-on :
    (p subject : Bytes) (n : ℕ)
    → n ≤ length subject
    → Matches p (drop n subject)
    → Open (some p) p subject subject
star-on p subject zero h m = inl m
star-on p subject (suc n) h m = inr (suc n, omega arith, h, m)

star-back : (p subject : Bytes) → Open (some p) p subject subject → Matches (b'*' ∷ p) subject
star-back p subject (inl m) = star_ends m
star-back p subject (inr (n, least, most, m)) = star-Matches p subject n most m

-- A new star takes the place of the last one.
star-taken :
    (star : Option Bytes) (pending p subject resume : Bytes)
    → IsAligned star pending subject resume
    → pending ≡ b'*' ∷ p
    → Open star pending subject resume
    → Open (some p) p subject subject
star-taken none pending p subject resume h head m =
    let (n, within, found) = star-inv pending p subject head m in star-on p subject n within found
star-taken (some after) pending p subject resume h head (inl m) =
    let (n, within, found) = star-inv pending p subject head m in star-on p subject n within found
star-taken (some after) pending p subject resume (k, passed, e, most) head
      (inr (n, least, far, m)) =
    let (inside, found) = Passed-Matches k after pending (drop n resume) passed m in
    let (j, within, last) = star-inv pending p (drop k (drop n resume)) head found in
    let sum : n + k + j ≡ k + (n + j) = omega arith in
    let same : drop j (drop k (drop n resume)) ≡ drop (n + j) subject =
      ap (drop j) (drop-drop k n resume)
      ∙ drop-drop j (n + k) resume
      ∙ ap (λ i. drop i resume) sum
      ∙ sym (drop-drop (n + j) k resume)
      ∙ ap (drop (n + j)) (sym e) in
    let long : n + j ≤ length subject = omega (
      arith,
      length-drop k (drop n resume),
      length-drop n resume,
      length-drop k resume,
      ap length e,
    ) in
    star-on p subject (n + j) long (subst (Matches p) same last)

pub star_iff :
    (star : Option Bytes) (pending p subject resume : Bytes)
    → IsAligned star pending subject resume
    → after_star pending ≡ some p
    → Open (some p) p subject subject ↔ Open star pending subject resume
star_iff star pending p subject resume h e =
    let head = after_star-head pending p e in
    (
      λ found.
          Open-left star pending subject resume
            (subst (λ q. Matches q subject) (sym head) (star-back p subject found)),
      star-taken star pending p subject resume h head,
    )

-- An element that takes the byte.
pub hit_iff :
    (star : Option Bytes) (pending : Bytes) (c : ℕ) (s resume : Bytes)
    → after_star pending ≡ none
    → (element pending c).0 ≡ true
    → Open star (element pending c).1 s resume ↔ Open star pending (c ∷ s) resume
hit_iff star pending c s resume no_star hit =
    let same = element-rest pending c 0 in
    let on : Matches (element pending c).1 s → Matches pending (c ∷ s) =
      λ m. takes c no_star hit (subst (λ q. Matches q s) same m) in
    let back : Matches pending (c ∷ s) → Matches (element pending c).1 s = λ m.
      elim (takes-inv pending (c ∷ s) no_star m) [
        | inl (e, none_left) ↦ cc
        | inr (d, t, e, took, found) ↦ let tails : s ≡ t = cc in rw (same, tails) found
      ] in
    elim star
      as (λ star. Open star (element pending c).1 s resume ↔ Open star pending (c ∷ s) resume) [
        | none ↦ (on, back)
        | some after ↦ (
          λ found. elim found [ inl m ↦ inl (on m) | inr more ↦ inr more ],
          λ found. elim found [ inl m ↦ inl (back m) | inr more ↦ inr more ],
        )
      ]

-- An element that does not take the byte.
pub miss-Matches :
    (pending : Bytes) (c : ℕ) (s : Bytes)
    → after_star pending ≡ none
    → (element pending c).0 ≡ false
    → Matches pending (c ∷ s)
    → ⊥
miss-Matches pending c s no_star miss m = elim (takes-inv pending (c ∷ s) no_star m) [
  | inl (e, none_left) ↦ cc
  | inr (d, t, e, took, found) ↦
      let same : c ≡ d = cc in false≢true (sym miss ∙ ap (λ b. (element pending b).0) same ∙ took)
]

pub back_iff :
    (after pending : Bytes) (c : ℕ) (s resume : Bytes)
    → 1 ≤ length resume
    → (Matches pending (c ∷ s) → ⊥)
    → Open (some after) after (drop 1 resume) (drop 1 resume)
      ↔ Open (some after) pending (c ∷ s) resume
back_iff after pending c s resume some_left miss = (
  λ found. elim found [
    | inl m ↦ inr (1, omega arith, some_left, m)
    | inr (n, least, most, m) ↦ inr (
      1 + n,
      omega arith,
      omega (arith, length-drop 1 resume),
      subst (Matches after) (drop-drop n 1 resume) m,
    )
  ],
  λ found. elim found [
    | inl m ↦ absurd (miss m)
    | inr (n, least, most, m) ↦
        let one : 1 + (n - 1) ≡ n = omega arith in
        let same : drop n resume ≡ drop (n - 1) (drop 1 resume) =
          ap (λ i. drop i resume) (sym one) ∙ sym (drop-drop (n - 1) 1 resume) in
        star-on after (drop 1 resume) (n - 1) (omega (arith, length-drop 1 resume))
          (subst (Matches after) same m)
  ],
)
