-- ===== src/Walk/Step.antt =====
-- One step of a walk: what it visits holds every key of the cursor's bucket.
use native.Mathlib.Nat.{pow-suc, pow-le-pow_right}
use seedstone.Base.{
  ℕ, zero, suc, ◌+◌, ◌-◌, ◌%◌, ◌^◌, ◌≤◌, ◌<◌, ◌≡◌, ◌≢◌, refl, sym, ap, ◌∙◌, arith, ◌==◌, false,
  Bytes, none, some, [], ◌++◌, length, get_or, one-le-two_pow, Option-cases, inl, inr,
}
use seedstone.Dict.{Dict, hash_key, get, find_entry}
use seedstone.Dict.Buckets.{Bucket, Entry, Table, find_slot}
use seedstone.Dict.Lookup.{find_slot-append}
use seedstone.Dict.Valid.{IsValid, one_entry}
use seedstone.Dict.Found.{get-weigh}
use seedstone.Walk.{mask_of, visit_expansion, scan_tables, scan_in_order, scan, reverse_increment}
use seedstone.Walk.Order.{next_cursor, reverse_increment_lem}
use seedstone.Walk.Expansion.{
  or_else-right, masked, find-at, find-expansion, visit_expansion_lem, nonzero_test,
}

positive : (n : ℕ) → n ≢ 0 → 1 ≤ n
positive zero ne = absurd (ne refl)
positive (suc n) ne = omega arith

module _ (sip_hash : ℕ → ℕ → Bytes → ℕ) where
  -- The slots that a step from `c` visits answer for every key of its bucket.
  abbrev pub Answers : Dict → ℕ → ℕ → Bucket → Type 0
  Answers d k c visited =
      (q : Bytes)
      → hash_key sip_hash d.seed q % 2 ^ k ≡ c
      → find_slot visited (hash_key sip_hash d.seed q) q ≡ get sip_hash d q

  scan_one :
      (k : ℕ) (d : Dict)
      → IsValid sip_hash k d
      → (c : ℕ) → k < 64
      → c < 2 ^ k
      → d.new ≡ none
      → (visited : Bucket) × (scan_tables reverse_increment d.old d.new c
          ≡ some (next_cursor k c, visited))
        × Answers d k c visited
  unfolding scan_tables mask_of get find_entry
  scan_one k d valid c small within e =
      let width = valid.laid.width in
      let shallow : k ≤ 64 = omega arith in
      let deep : 2 ^ k ≤ 2 ^ 64 = pow-le-pow_right (omega arith) shallow in
      (
        get_or d.old c [],
        rw
            (
              e,
              width,
              masked k c within,
              reverse_increment_lem k c (omega arith) (omega (arith, deep)),
            )
            refl,
        λ q here.
            rw (e, find-at k c d.old (hash_key sip_hash d.seed q) q width here)
              (sym (or_else-right _)),
      )

  scan_two :
      (k : ℕ) (d : Dict)
      → IsValid sip_hash k d
      → (c : ℕ) → k < 64
      → c < 2 ^ k
      → (new : Table) → d.new ≡ some new
      → (visited : Bucket) × (scan_tables reverse_increment d.old d.new c
          ≡ some (next_cursor k c, visited))
        × Answers d k c visited
  unfolding scan_tables mask_of get find_entry
  scan_two k d valid c small within new e =
      let width = valid.laid.width in
      let (wide, placed, drained, more) = rw e at valid.laid.growth in
      let fuel : length new ≡ suc (suc (length new - 2)) =
        omega (arith, wide, pow-suc 2 k, one-le-two_pow k) in
      let halves = get_or new c [] ++ get_or new (2 ^ k + c) [] in
      let runs : visit_expansion (length new) reverse_increment new (2 ^ k - 1) c
          ≡ some (next_cursor k c, halves) =
        ap (λ n. visit_expansion n reverse_increment new (2 ^ k - 1) c) fuel
        ∙ visit_expansion_lem k c small within new (length new - 2) wide in
      (
        get_or d.old c [] ++ halves,
        rw (e, width, masked k c within, runs) refl,
        λ q here.
            let hash = hash_key sip_hash d.seed q in
            rw
              (
                e,
                find_slot-append (get_or d.old c []) halves hash q,
                find_slot-append (get_or new c []) (get_or new (2 ^ k + c) []) hash q,
                find-expansion (hash_key sip_hash d.seed) k c within q here new wide placed,
                find-at k c d.old hash q width here,
              )
              refl,
      )

  -- A keyspace that holds a key is not empty.
  pub filled :
      (k : ℕ) (d : Dict) (key : Bytes) (entry : Entry)
      → IsValid sip_hash k d
      → get sip_hash d key ≡ some entry
      → d.len ≢ 0
  filled k d key entry valid found =
      λ empty. absurd (omega (arith, valid.counted, get-weigh sip_hash one_entry d key entry found))

  -- A step from a cursor below the width of the old table, in a sound keyspace that is not empty,
  -- returns the next cursor of that width, and what it visits answers for every key of the cursor's
  -- bucket, whether or not a rehash is in flight.
  pub scan_lem :
      (k : ℕ) (d : Dict)
      → IsValid sip_hash k d
      → (c : ℕ) → k < 64
      → c < 2 ^ k
      → d.len ≢ 0
      → (visited : Bucket) × (scan d c ≡ some (next_cursor k c, visited)) × Answers d k c visited
  unfolding scan scan_in_order
  scan_lem k d valid c small within filled =
      let counted : (d.len == 0) ≡ false = nonzero_test d.len (positive d.len filled) in
      elim (Option-cases d.new) [
        | inl e ↦ rw counted (scan_one k d valid c small within e)
        | inr (new, e) ↦ rw counted (scan_two k d valid c small within new e)
      ]
