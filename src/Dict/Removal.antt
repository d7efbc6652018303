-- ===== src/Dict/Removal.antt =====
-- `remove` of dict.rs, once a rehash in flight has moved on.
use seedstone.Base.{
  ℕ, ◌-◌, ◌≤◌, ◌≡◌, refl, Bytes, bytes_eq, bytes_eq_iff, some, none, arith, Option, Option-cases,
  Bool-cases, inl, inr, false, [], ◌∷◌, is_some, to_nat, ◌∙◌, sym, ap, or_else-eq-none,
}
use seedstone.Dict.{
  Dict, find_new, remove_new, hash_key, get, find_entry, remove_tables, remove_entry,
  settle_removal,
}
use seedstone.Dict.Buckets.{Entry, Table, Bucket, find}
use seedstone.Dict.Lookup.{remove_from-find}
use seedstone.Dict.Totals.{remove_from_absent}
use seedstone.Dict.Weigh.{weigh, weigh_bucket}
use seedstone.Dict.Tables.{weigh_tables}
use seedstone.Dict.Valid.{IsValid, dated_of, bytes_of, one_entry}
use seedstone.Dict.Writes.{remove_tables-SameFields, remove_tables-find, remove_tables-Change}
use seedstone.Dict.Operations.{Updates, Updates-Change}

-- There are no more dated entries than entries.
dated-le-one : (bucket : Bucket) → weigh_bucket dated_of bucket ≤ weigh_bucket one_entry bucket
unfolding weigh_bucket
dated-le-one [] = omega arith
dated-le-one (slot ∷ rest) = ground (arith, dated-le-one rest)

dated-le-one_table : (table : Table) → weigh dated_of table ≤ weigh one_entry table
unfolding weigh
dated-le-one_table [] = omega arith
dated-le-one_table (bucket ∷ rest) = omega (arith, dated-le-one bucket, dated-le-one_table rest)

pub dated-le-len :
    (old : Table) (new : Option Table)
    → weigh_tables dated_of old new ≤ weigh_tables one_entry old new
dated-le-len old none = omega (arith, dated-le-one_table old)
dated-le-len old (some new) = omega (arith, dated-le-one_table old, dated-le-one_table new)

settle_flagged :
    (key : Bytes) (x : Entry) (base : Dict)
    → (base.len - 1 ≡ 0 → base.with_deadline - to_nat (is_some x.expires_at) ≡ 0)
    → (base.may_hold_deadlines ≡ false → base.with_deadline ≡ 0)
    → (settle_removal key x base).may_hold_deadlines ≡ false
    → (settle_removal key x base).with_deadline ≡ 0
unfolding settle_removal
settle_flagged key x base h f off = ground arith

-- A removal that finds nothing leaves both tables as they were.
remove_tables_absent :
    (d : Dict) (hash : ℕ) (key : Bytes)
    → find_entry d hash key ≡ none
    → (remove_tables d hash key).1 ≡ d
unfolding find_entry remove_tables remove_new
remove_tables_absent d hash key absent =
    let gone : find d.old hash key ≡ none = (or_else-eq-none absent).0 in
    rw (remove_from-find d.old hash key ∙ gone, remove_tables) (in_new d.new refl)
  where
    in_new : (n : Option Table) → d.new ≡ n → (remove_new d d.new hash key).1 ≡ d
    in_new none e = ap (λ n. (remove_new d n hash key).1) e
    in_new (some n) e =
        let both : find_new d.new hash key ≡ none = (or_else-eq-none absent).1 in
        let gone : find n hash key ≡ none = rw e at both in
        ap (λ n. (remove_new d n hash key).1) e
        ∙ ap (λ t. record d { new = some t }) (remove_from_absent n hash key gone)
        ∙ ap (λ n. record d { new = n }) (sym e)

module _ (sip_hash : ℕ → ℕ → Bytes → ℕ) (k : ℕ) (d : Dict) (valid : IsValid sip_hash k d)
    (key : Bytes) where
  abbrev hash : ℕ
  hash = hash_key sip_hash d.seed key

  abbrev found_or_not : (remove_tables d hash key).0 ≡ find_entry d hash key
  found_or_not = remove_tables-find (hash_key sip_hash d.seed) k key d valid.laid

  -- `remove` after its first lines: it returns what the key held, which is gone.
  pub remove_entry-get : (remove_entry sip_hash d key).0 ≡ get sip_hash d key
  unfolding remove_entry get
  remove_entry-get = elim (Option-cases (find_entry d hash key)) [
    | inl absent ↦ rw (found_or_not ∙ absent, remove_entry, absent)
    | inr (x, found) ↦ rw (found_or_not ∙ found, remove_entry, found)
  ]

  remove_found-Updates :
      (x : Entry)
      → find_entry d hash key ≡ some x
      → Updates sip_hash k d key none (remove_entry sip_hash d key).1
  unfolding remove_entry settle_removal
  remove_found-Updates x found =
      let base = (remove_tables d hash key).1 in
      let same = remove_tables-SameFields d hash key in
      let change =
        remove_tables-Change (hash_key sip_hash d.seed) k key d valid.laid x (valid.unique key)
          found in
      rw (found_or_not ∙ found, remove_entry)
        (Updates-Change sip_hash k d key (some x) none (settle_removal key x base) valid change
          (record {
            seed = same.seed;
            index = same.rehash_index;
            len = omega (arith, same.len, change.sums one_entry, valid.counted);
            used_bytes = omega (arith, same.used_bytes, change.sums bytes_of, valid.accounted);
            with_deadline = omega (arith, same.with_deadline, change.sums dated_of, valid.dated);
            flagged =
                settle_flagged key x base
                  (λ e. omega (
                    arith,
                    e,
                    same.len,
                    same.with_deadline,
                    change.sums one_entry,
                    change.sums dated_of,
                    valid.counted,
                    valid.dated,
                    dated-le-len base.old base.new,
                  ))
                  (λ off. same.with_deadline ∙ valid.flagged (sym same.may_hold_deadlines ∙ off));
          }))

  -- `remove` after its first lines: the key holds nothing.
  pub remove_entry-Updates : Updates sip_hash k d key none (remove_entry sip_hash d key).1
  unfolding remove_entry
  remove_entry-Updates = elim (Option-cases (find_entry d hash key)) [
    | inr (x, found) ↦ remove_found-Updates x found
    | inl absent ↦
        rw (found_or_not ∙ absent, remove_entry, remove_tables_absent d hash key absent)
          (record {
            valid = valid;
            answers = λ q. elim (Bool-cases (bytes_eq key q)) [
              | inl e ↦ rw (e, ← (bytes_eq_iff key q).0 e) (unfold get in absent)
              | inr e ↦ rw e
            ];
          })
  ]
