-- ===== src/Walk/Cycle.antt =====
-- A whole walk: a client calls `scan` with the cursor that the last call returned, on the keyspace
-- as it is then, until a call returns 0.
use native.Mathlib.Nat.{pow-le-pow_right}
use native.Mathlib.Decide.{ℕ_discrete}
use mathlib.Core.Option
use seedstone.Base.{
  ℕ, zero, suc, ◌%◌, ◌^◌, ◌≤◌, ◌<◌, ◌≡◌, ◌≢◌, ◌⊎◌, if◌then◌else◌, refl, sym, ap, ◌∙◌, arith, ◌==◌,
  false≢true, Bytes, Option, none, some, List, [], ◌∷◌, ◌++◌, reverse_bits, reverse_bits-lt,
  reverse_bits-zero, is_some, inl, inr,
}
use seedstone.Dict.{Dict, DictSeed, hash_key, get}
use seedstone.Dict.Buckets.{Bucket, Entry, find_slot}
use seedstone.Dict.Weigh.{slot_at}
use seedstone.Dict.Found.{find_slot-Mem}
use mathlib.Core.List.{Memᴰ}
use mathlib.Core.List.Memᴰ
use seedstone.Dict.Valid.{IsValid}
use seedstone.Walk.{visited_first, scan}
use seedstone.Walk.Order.{next_cursor}
use seedstone.Walk.Position.{position, step_forward}
use seedstone.Walk.Expansion.{nonzero_test}
use seedstone.Walk.Step.{filled, scan_lem}

-- The client's loop goes on unless the cursor is back at 0.
unfoldable pub go_on : ℕ × Bucket → Option (ℕ × Bucket) → Option (ℕ × Bucket)
go_on (next, visited) rest =
    if next == 0 then some (0, visited) else Option.map (visited_first visited) rest

-- The keyspace may change in any way between two calls: the list holds it at each call.
unfoldable pub walk : List Dict → ℕ → Option (ℕ × Bucket)
unfolding go_on
walk [] c = some (c, [])
walk (d ∷ later) c = elim (scan d c) [ none ↦ none | some step ↦ go_on step (walk later step.0) ]

pub walk-cons :
    (d : Dict) (later : List Dict) (c next : ℕ) (first : Bucket)
    → scan d c ≡ some (next, first)
    → walk (d ∷ later) c ≡ go_on (next, first) (walk later next)
unfolding walk go_on
walk-cons d later c next first e = rw (walk, e) refl

-- How a loop that ran came to its end.
abbrev Continued : ℕ → Bucket → Option (ℕ × Bucket) → ℕ → Bucket → Type 0
Continued next first rest last visited =
    ((next ≡ 0) × (visited ≡ first))
    ⊎ ((next ≢ 0) × (more : Bucket) × (rest ≡ some (last, more)) × (visited ≡ first ++ more))

abbrev inside : Option (ℕ × Bucket) → ℕ × Bucket
inside none = (0, [])
inside (some step) = step

rest_ran :
    (next : ℕ) (first : Bucket) (rest : Option (ℕ × Bucket)) (last : ℕ) (visited : Bucket)
    → next ≢ 0
    → Option.map (visited_first first) rest ≡ some (last, visited)
    → Continued next first rest last visited
rest_ran next first none last visited away e = absurd (false≢true (ap is_some e))
rest_ran next first (some (l, more)) last visited away e =
    inr (away, more, ap (λ o. some ((inside o).0, more)) e, ap (λ o. (inside o).1) (sym e))

step_ran :
    (next : ℕ) (first : Bucket) (rest : Option (ℕ × Bucket)) (last : ℕ) (visited : Bucket)
    → go_on (next, first) rest ≡ some (last, visited)
    → Continued next first rest last visited
unfolding go_on
step_ran zero first rest last visited e = inl (refl, ap (λ o. (inside o).1) (sym e))
step_ran (suc n) first rest last visited e =
    let away : suc n ≢ 0 = λ h. absurd (omega (arith, h)) in
    rest_ran (suc n) first rest last visited away (rw (nonzero_test (suc n) (omega arith)) at e)

module _ (sip_hash : ℕ → ℕ → Bytes → ℕ) (seed : DictSeed) (key : Bytes) (P : Entry → Type 0) where
  abbrev pub Seen : Bucket → Type 0
  Seen visited = (x : Entry) × P x × Memᴰ (slot_at (hash_key sip_hash seed key) key x) visited

  -- The keyspaces of a walk, each sound, of a width that does not shrink from 2 ^ j on, and each
  -- holding the key, with an entry that satisfies P.
  abbrev pub Holds : ℕ → List Dict → Type 0
  Holds j [] = Unit {0}
  Holds j (d ∷ later) =
      (k : ℕ) × (j ≤ k)
      × (k < 64)
      × IsValid sip_hash k d
      × (d.seed ≡ seed)
      × ((x : Entry) × (get sip_hash d key ≡ some x) × P x)
      × Holds k later

  walk_covers_from :
      (later : List Dict) (j c : ℕ) (visited : Bucket)
      → Holds j later
      → c < 2 ^ j
      → c ≢ 0 ⊎ later ≢ []
      → position c ≤ reverse_bits 64 (hash_key sip_hash seed key)
      → walk later c ≡ some (0, visited)
      → Seen visited
  walk_covers_from [] j c visited holds within started before ran =
      unfold walk in
      let home : c ≡ 0 = ap (λ o. (inside o).0) ran in
      elim started [ inl away ↦ absurd (away home) | inr empty ↦ absurd (empty refl) ]
  walk_covers_from (d ∷ later) j c visited holds within started before ran =
      let (k, wider, small, valid, seeded, held, rest) = holds in
      let hash = hash_key sip_hash seed key in
      let wide : 2 ^ j ≤ 2 ^ k = pow-le-pow_right (omega arith) wider in
      let (x, e, satisfies) = held in
      let (first, steps, answers) =
        scan_lem sip_hash k d valid c small (omega (arith, wide))
          (filled sip_hash k d key x valid e) in
      let same : hash_key sip_hash d.seed key ≡ hash = ap (λ s. hash_key sip_hash s key) seeded in
      let found : hash % 2 ^ k ≡ c → find_slot first hash key ≡ get sip_hash d key =
        rw same at (answers key) in
      let ended =
        step_ran (next_cursor k c) first (walk later (next_cursor k c)) 0 visited
          (sym (walk-cons d later c (next_cursor k c) first steps) ∙ ran) in
      elim (ℕ_discrete (hash % 2 ^ k) c) [
        | yes here ↦
            let seen = find_slot-Mem first hash key x (found here ∙ e) in
            elim ended [
              | inl (home, all) ↦ (x, satisfies, rw all seen)
              | inr (away, more, ran', split) ↦
                  (x, satisfies, rw split (Memᴰ.append_left more seen))
            ]
        | no elsewhere ↦
            let (away, after) =
              step_forward k c hash (omega arith) (omega (arith, wide)) before elsewhere in
            elim ended [
              | inl (home, all) ↦ absurd (away home)
              | inr (away', more, ran', split) ↦
                  let (y, good, seen) =
                    walk_covers_from later k (next_cursor k c) more rest (reverse_bits-lt k _)
                      (inl away) after ran' in
                  (y, good, rw split (Memᴰ.append_right first seen))
            ]
      ]

  -- A walk from 0 over sound keyspaces of one seed, whose tables only grow and stay below 2^64
  -- buckets, visits by the time a call returns 0 a key that each of them holds, whatever else
  -- changes between the calls. A property that the key's entry has at every call holds of the entry
  -- that is visited.
  pub walk_covers :
      (calls : List Dict) (visited : Bucket)
      → calls ≢ []
      → Holds 0 calls
      → walk calls 0 ≡ some (0, visited)
      → Seen visited
  walk_covers calls visited some_call holds ran =
      walk_covers_from calls 0 0 visited holds (omega arith) (inr some_call)
        (omega (arith, reverse_bits-zero 64)) ran
