-- ===== src/Dict/Finish.antt =====
-- A timer that keeps calling `rehash_step` of dict.rs ends the rehash.
use mathlib.Core.Path.{subst}
use seedstone.Base.{
  ℕ, zero, suc, ◌+◌, ◌-◌, ◌≤◌, ◌≡◌, refl, sym, ◌∙◌, min, ◌==◌, ==_refl, arith, some, [], length,
  length-set, set, Option-cases, inl, inr, true, false,
}
use seedstone.Dict.{Dict, migrate, finish_rehash, rehash_tables, rehash_step, is_rehashing}
use seedstone.Dict.Buckets.{Table}

length-migrate :
    (count index : ℕ) (old new : Table) → length (migrate count index old new).0 ≡ length old
unfolding migrate
length-migrate zero index old new = refl
length-migrate (suc count) index old new =
    length-migrate count (suc index) (set old index []) _ ∙ length-set old index []

same_test : (a b : ℕ) → a ≡ b → (a == b) ≡ true
same_test a b e = rw e (==_refl b)

rehash_tables-finishes :
    (buckets : ℕ) (d : Dict) (new : Table)
    → length d.old ≤ d.rehash_index + buckets
    → is_rehashing (rehash_tables buckets d (some new)) ≡ false
unfolding rehash_tables finish_rehash is_rehashing
rehash_tables-finishes buckets d new enough =
    let end = min (d.rehash_index + buckets) (length d.old) in
    let last : (end == length (migrate (end - d.rehash_index) d.rehash_index d.old new).0) ≡ true =
      rw (length-migrate (end - d.rehash_index) d.rehash_index d.old new)
        (same_test end (length d.old) (omega arith)) in
    rw last refl

-- In any keyspace, a step of at least as many buckets as the old table has left leaves no rehash in
-- flight.
pub rehash_step-finishes :
    (buckets : ℕ) (d : Dict)
    → length d.old ≤ d.rehash_index + buckets
    → is_rehashing (rehash_step buckets d) ≡ false
unfolding rehash_step
rehash_step-finishes buckets d enough = elim (Option-cases d.new) [
  | inl e ↦
      subst (λ n. is_rehashing (rehash_tables buckets d n) ≡ false) (sym e)
        (unfold rehash_tables is_rehashing in rw e refl)
  | inr (new, e) ↦
      subst (λ n. is_rehashing (rehash_tables buckets d n) ≡ false) (sym e)
        (rehash_tables-finishes buckets d new enough)
]
