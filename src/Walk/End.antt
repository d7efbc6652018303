-- ===== src/Walk/End.antt =====
-- A whole walk ends, however the tables double underneath it.
use native.Mathlib.Nat.{pow-le-pow_right}
use native.Mathlib.Decide.{ℕ_discrete}
use seedstone.Base.{
  ℕ, ◌+◌, ◌-◌, ◌*◌, ◌^◌, ◌≤◌, ◌<◌, ◌≡◌, refl, sym, ap, ◌∙◌, arith, Bytes, Option, some, List, [],
  ◌∷◌, ◌++◌, length, reverse_bits-lt, reverse_bits-zero, two_pow-add, inl, inr,
}
use seedstone.Dict.{Dict}
use seedstone.Dict.Buckets.{Bucket}
use seedstone.Dict.Valid.{IsValid}
use seedstone.Walk.{scan, scan_in_order}
use seedstone.Walk.Expansion.{nonzero_test}
use seedstone.Walk.Order.{next_cursor}
use seedstone.Walk.Position.{position, step_share}
use seedstone.Walk.Step.{scan_lem}
use seedstone.Walk.Cycle.{walk, go_on, walk-cons}

go_on_home :
    (next : ℕ) (first : Bucket) (rest : Option (ℕ × Bucket))
    → next ≡ 0
    → go_on (next, first) rest ≡ some (0, first)
unfolding go_on
go_on_home next first rest home = rw home refl

go_on_to_end :
    (next : ℕ) (first more : Bucket) (rest : Option (ℕ × Bucket))
    → rest ≡ some (0, more)
    → (visited : Bucket) × (go_on (next, first) rest ≡ some (0, visited))
unfolding go_on
go_on_to_end next first more rest e = elim (ℕ_discrete next 0) [
  | yes home ↦ (first, rw home refl)
  | no away ↦ (first ++ more, rw (nonzero_test next (omega arith), e) refl)
]

scan_empty : (d : Dict) (c : ℕ) → d.len ≡ 0 → scan d c ≡ some (0, [])
unfolding scan scan_in_order
scan_empty d c e = rw e refl

mul_mono : (a b p : ℕ) → a ≤ b → a * p ≤ b * p
mul_mono a b p h = grind arith

module _ (sip_hash : ℕ → ℕ → Bytes → ℕ) (most : ℕ) (small : most < 64) where
  -- The keyspaces of a walk, each sound, of a width that does not shrink from 2 ^ j on and stays
  -- within 2 ^ most.
  abbrev pub Grows : ℕ → List Dict → Type 0
  Grows j [] = Unit {0}
  Grows j (d ∷ later) = (k : ℕ) × (j ≤ k) × (k ≤ most) × IsValid sip_hash k d × Grows k later

  walk_ends_from :
      (later : List Dict) (j c : ℕ)
      → Grows j later
      → c < 2 ^ j
      → 2 ^ 64 ≤ position c + length later * 2 ^ (64 - most)
      → (visited : Bucket) × (walk later c ≡ some (0, visited))
  walk_ends_from [] j c grows within enough = absurd (omega (arith, reverse_bits-lt 64 c))
  walk_ends_from (d ∷ later) j c grows within enough =
      let (k, wider, narrow, valid, rest) = grows in
      let wide : 2 ^ j ≤ 2 ^ k = pow-le-pow_right (omega arith) wider in
      elim (ℕ_discrete d.len 0) [
        | yes empty ↦ (
          [],
          walk-cons d later c 0 [] (scan_empty d c empty) ∙ go_on_home 0 [] (walk later 0) refl,
        )
        | no filled ↦
            let (first, steps, answers) =
              scan_lem sip_hash k d valid c (omega arith) (omega (arith, wide)) filled in
            let next = next_cursor k c in
            let cons = walk-cons d later c next first steps in
            elim (step_share k c (omega arith) (omega (arith, wide))) [
              | inl home ↦ (first, cons ∙ go_on_home next first (walk later next) home)
              | inr moved ↦
                  let shallow : 64 - most ≤ 64 - k = omega arith in
                  let share : 2 ^ (64 - most) ≤ 2 ^ (64 - k) =
                    pow-le-pow_right (omega arith) shallow in
                  let (more, ran) =
                    walk_ends_from later k next rest (reverse_bits-lt k _)
                      (omega (arith, moved, share, enough)) in
                  let (visited, e) = go_on_to_end next first more (walk later next) ran in
                  (visited, cons ∙ e)
            ]
      ]

  -- A walk from 0 over sound keyspaces whose tables only grow and stay within 2^most buckets, most
  -- below 64, has returned 0 after 2^most calls at the latest.
  pub walk_ends :
      (later : List Dict)
      → Grows 0 later
      → 2 ^ most ≤ length later
      → (visited : Bucket) × (walk later 0 ≡ some (0, visited))
  walk_ends later grows calls =
      let word : 64 - most + most ≡ 64 = omega arith in
      let whole : 2 ^ 64 ≡ 2 ^ most * 2 ^ (64 - most) =
        ap (λ w. 2 ^ w) (sym word) ∙ two_pow-add most (64 - most) in
      let enough = mul_mono (2 ^ most) (length later) (2 ^ (64 - most)) calls in
      walk_ends_from later 0 0 grows (omega arith)
        (omega (arith, reverse_bits-zero 64, whole, enough))
