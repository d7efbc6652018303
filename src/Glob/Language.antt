-- ===== src/Glob/Language.antt =====
-- The language of a pattern of glob.rs, and how the matcher's loop stands to it.
use seedstone.Base.{
  ℕ, zero, suc, ◌+◌, ◌==◌, ◌≤◌, ◌≡◌, ◌⊎◌, inl, inr, refl, sym, ap, subst, arith, Bool, true, false,
  Bytes, none, some, [], ◌∷◌, length, drop, Bool-cases, none≢some, some-inj, ◌||◌,
}
use seedstone.Glob.{element, after_star, in_range, only_stars, members, class, literal}

-- The pattern after its first element, which is no star.
abbrev pub rest : Bytes → Bytes
rest p = (element p 0).1

-- The subjects that a pattern matches: a star takes any run, and another element one byte.
pub data Matches : Bytes → Bytes → Type 0 where
  spent : Matches [] []
  star_ends : {p s : Bytes} → Matches p s → Matches (b'*' ∷ p) s
  star_takes : {p s : Bytes} (c : ℕ) → Matches (b'*' ∷ p) s → Matches (b'*' ∷ p) (c ∷ s)
  takes :
      {p s : Bytes} (c : ℕ)
      → after_star p ≡ none
      → (element p c).0 ≡ true
      → Matches (rest p) s
      → Matches p (c ∷ s)

members-width :
    (x y : ℕ) (h k : Bool) (i : ℕ) (p : Bytes) → (members x h i p).1 ≡ (members y k i p).1
unfolding members
members-width x y h k i [] = refl
members-width x y h k i (c ∷ []) = ground arith
members-width x y h k i (c ∷ d ∷ []) =
    ground (arith, members-width x y (h || (c == x)) (k || (c == y)) (i + 1) (d ∷ []))
members-width x y h k i (c ∷ d ∷ e ∷ p) = elim (Bool-cases (c == b']')) [
  | inl closes ↦ rw closes refl
  | inr member ↦ elim (Bool-cases (c == b'\\')) [
    | inl escape ↦
        rw (member, escape) (members-width x y (h || (d == x)) (k || (d == y)) (i + 2) (e ∷ p))
    | inr plain ↦ elim (Bool-cases (d == b'-')) [
      | inl dash ↦
          rw (member, plain, dash)
            (members-width x y (h || in_range c e x) (k || in_range c e y) (i + 3) p)
      | inr alone ↦
          rw (member, plain, alone)
            (members-width x y (h || (c == x)) (k || (c == y)) (i + 1) (d ∷ e ∷ p))
    ]
  ]
]

class-width : (p : Bytes) (x y : ℕ) → (class p x).1 ≡ (class p y).1
unfolding class
class-width [] x y = refl
class-width (c ∷ p) x y = elim (Bool-cases (c == b'^')) [
  | inl negated ↦ rw negated (members-width x y false false 2 p)
  | inr plain ↦ rw plain (members-width x y false false 1 (c ∷ p))
]

literal-rest : (c : ℕ) (p : Bytes) (x y : ℕ) → (literal c p x).1 ≡ (literal c p y).1
literal-rest c [] x y = refl
literal-rest c (d ∷ p) x y = elim (Bool-cases (c == b'\\')) [
  | inl escape ↦ rw escape refl
  | inr plain ↦ rw plain refl
]

pub element-rest : (p : Bytes) (c y : ℕ) → (element p c).1 ≡ (element p y).1
unfolding element class
element-rest [] c y = refl
element-rest (x ∷ p) c y = elim (Bool-cases (x == b'?')) [
  | inl any ↦ rw any refl
  | inr other ↦ elim (Bool-cases (x == b'[')) [
    | inl bracket ↦ rw (other, bracket) (ap (λ w. drop w (x ∷ p)) (class-width p c y))
    | inr plain ↦ rw (other, plain) (literal-rest x p c y)
  ]
]

-- A pattern that ends a subject is stars.
pub only_stars-Matches : (p : Bytes) → only_stars p ≡ true → Matches p []
only_stars-Matches [] h = spent
only_stars-Matches (c ∷ p) h =
    let star : c ≡ b'*' = ground arith in
    let more : only_stars p ≡ true = ground arith in rw star (star_ends (only_stars-Matches p more))

pub Matches-only_stars : (p s : Bytes) → Matches p s → s ≡ [] → only_stars p ≡ true
Matches-only_stars p s spent e = refl
Matches-only_stars p s (star_ends m) e = Matches-only_stars _ s m e
Matches-only_stars p s (star_takes c m) e = cc
Matches-only_stars p s (takes c n hit m) e = cc

-- The head of a pattern that starts with a star is the star.
pub after_star-head : (p q : Bytes) → after_star p ≡ some q → p ≡ b'*' ∷ q
after_star-head [] q h = absurd (none≢some h)
after_star-head (c ∷ p) q h = elim (Bool-cases (c == b'*')) [
  | inl star ↦
      let same : p ≡ q = some-inj (rw star at h) in
      let head : c ≡ b'*' = ground arith in rw (head, same) refl
  | inr other ↦ absurd (none≢some (rw other at h))
]

-- A pattern that does not start with a star takes the subject byte by byte.
pub takes-inv :
    (p s : Bytes)
    → after_star p ≡ none
    → Matches p s
    → ((p ≡ []) × (s ≡ []))
      ⊎ ((c : ℕ) × (t : Bytes) × (s ≡ c ∷ t) × ((element p c).0 ≡ true) × Matches (rest p) t)
takes-inv p s n spent = inl (refl, refl)
takes-inv p s n (star_ends m) = absurd (none≢some (sym n))
takes-inv p s n (star_takes c m) = absurd (none≢some (sym n))
takes-inv p s n (takes {s = t} c k hit m) = inr (c, t, refl, hit, m)

-- A pattern that starts with a star matches from some position on what follows the star.
pub star-inv :
    (p q s : Bytes) → p ≡ b'*' ∷ q → Matches p s → (n : ℕ) × (n ≤ length s) × Matches q (drop n s)
star-inv p q s e spent = cc
star-inv p q s e (star_ends {p = p'} m) =
    let same : p' ≡ q = cc in (0, omega arith, subst (λ r. Matches r s) same m)
star-inv p q s e (star_takes {s = t} c m) =
    let (n, h, found) = star-inv p q t e m in (suc n, omega arith, found)
star-inv p q s e (takes c k hit m) = absurd (none≢some (sym (rw e at k)))

pub star-Matches :
    (q s : Bytes) (n : ℕ) → n ≤ length s → Matches q (drop n s) → Matches (b'*' ∷ q) s
star-Matches q s zero h m = star_ends m
star-Matches q [] (suc n) h m = absurd (omega arith)
star-Matches q (c ∷ s) (suc n) h m = star_takes c (star-Matches q s n (omega arith) m)
