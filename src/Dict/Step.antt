-- ===== src/Dict/Step.antt =====
-- `rehash_step` of dict.rs, and what `insert` and `remove` do first, keep the invariant and every
-- answer.
use seedstone.Base.{
  ℕ, suc, ◌+◌, ◌-◌, ◌≤◌, ◌<◌, ◌≡◌, refl, ◌∙◌, sym, ap, min, ◌==◌, Bytes, some, none, [], length,
  get_or, arith, Option, Option-cases, ==_refl, get_or_beyond, inl, inr, or_else, false,
}
use seedstone.Dict.{
  Dict, hash_key, get, find_entry, find_new, migrate, rehash_step, rehash_tables, finish_rehash,
}
use seedstone.Dict.Buckets.{Entry, Table, find}
use seedstone.Dict.Weigh.{Weight, weigh, weigh_bucket, at_key, weigh_nowhere}
use seedstone.Dict.Rehash.{IsPair, SameSlots, migrate-IsPair, migrate-SameSlots}
use seedstone.Dict.Tables.{weigh_new}
use seedstone.Dict.Valid.{IsValid, total, new_bytes, one_entry, bytes_of, dated_of}
use seedstone.Dict.Growth.{IsSound, Same}
use native.Mathlib.Decide.{ℕ_discrete, dec_lt}
use mathlib.Core.Path.{subst}
use seedstone.Dict.Migrate.{find-occurs}

-- Every bucket below the width is empty.
drained-weigh :
    (old : Table) (index : ℕ) (w : Weight)
    → ((i : ℕ) → i < index → get_or old i [] ≡ [])
    → length old ≤ index
    → weigh w old ≡ 0
unfolding weigh_bucket
drained-weigh old index w drained all = weigh_nowhere w old λ i. elim (dec_lt i index) [
  | yes below ↦ rw (drained i below)
  | no beyond ↦ rw (get_or_beyond old i [] (omega arith))
]

or_else-none : (o : Option Entry) → or_else o none ≡ o
or_else-none o = ground arith

lt→ne_test : (a b : ℕ) → a < b → (a == b) ≡ false
lt→ne_test a b h = ground arith

-- the keyspace as the migration leaves it, short of the new table
abbrev moved : Dict → ℕ → Table → Dict
moved d end old = record d { old = old; rehash_index = end }

-- A key without weight is not found.
unweighed :
    (table : Table) (hash : ℕ) (key : Bytes)
    → weigh (at_key key) table ≡ 0
    → find table hash key ≡ none
unweighed table hash key h = elim (Option-cases (find table hash key)) [
  | inl e ↦ e
  | inr (x, e) ↦ absurd (omega (arith, find-occurs table hash key x e))
]

module _ (sip_hash : ℕ → ℕ → Bytes → ℕ) (k : ℕ) (d : Dict) (new : Table) (e : d.new ≡ some new)
    (valid : IsValid sip_hash k d) where
  abbrev hash_of : Bytes → ℕ
  hash_of = hash_key sip_hash d.seed

  growing : IsPair hash_of k d.rehash_index d.old new
  growing =
      let (wide, placed, drained, more) = rw e at valid.laid.growth in
      record {
        old_width = valid.laid.width;
        new_width = wide;
        old_placed = valid.laid.placed;
        new_placed = placed;
        drained = drained;
        unique = λ q. omega (arith, valid.unique q, ap (weigh_new (at_key q)) e);
      }

  -- The tables after some rounds of the migration.
  module _ (end : ℕ) (old' new' : Table) (pair : IsPair hash_of k end old' new')
      (same : SameSlots hash_of d.old new old' new') where
    totals : (w : Weight) → weigh w old' + weigh w new' ≡ total w d
    totals w = omega (arith, same.weighs w, ap (weigh_new w) e)

    answers :
        (q : Bytes) → or_else (find old' (hash_of q) q) (find new' (hash_of q) q) ≡ get sip_hash d q
    unfolding get find_entry
    answers q =
        same.finds q
        ∙ sym (ap (λ n. or_else (find d.old (hash_of q) q) (find_new n (hash_of q) q)) e)

    finish_done-Same : end ≡ length old' → Same sip_hash d (finish_rehash (moved d end old') new')
    unfolding finish_rehash get find_entry
    finish_done-Same all =
        let empty = λ (w : Weight). drained-weigh old' end w pair.drained (omega arith) in
        rw (all, ==_refl (length old'))
          (record {
            sound = (
              suc k,
              record {
                laid = record { width = pair.new_width; placed = pair.new_placed; growth = tt };
                unique = λ q. omega (arith, totals (at_key q), empty (at_key q), valid.unique q);
                counted = omega (arith, totals one_entry, empty one_entry, valid.counted);
                accounted = omega (
                  arith,
                  valid.accounted,
                  totals bytes_of,
                  empty bytes_of,
                  pair.old_width,
                  valid.laid.width,
                  pair.new_width,
                  growing.new_width,
                  ap new_bytes e,
                );
                dated = omega (arith, totals dated_of, empty dated_of, valid.dated);
                flagged = valid.flagged;
              },
            );
            answers = λ q.
                or_else-none (find new' (hash_of q) q)
                ∙ ap (λ o. or_else o (find new' (hash_of q) q))
                    (sym (unweighed old' (hash_of q) q (empty (at_key q))))
                ∙ answers q;
            seed = refl;
            len = refl;
          })

    finish_more-Same : end < length old' → Same sip_hash d (finish_rehash (moved d end old') new')
    unfolding finish_rehash get find_entry
    finish_more-Same more = rw (lt→ne_test end (length old') more) (record {
      sound = (
        k,
        record {
          laid = record {
            width = pair.old_width;
            placed = pair.old_placed;
            growth = (pair.new_width, pair.new_placed, pair.drained, more);
          };
          unique = λ q. omega (arith, totals (at_key q), valid.unique q);
          counted = omega (arith, totals one_entry, valid.counted);
          accounted = omega (
            arith,
            valid.accounted,
            totals bytes_of,
            pair.old_width,
            valid.laid.width,
            pair.new_width,
            growing.new_width,
            ap new_bytes e,
          );
          dated = omega (arith, totals dated_of, valid.dated);
          flagged = valid.flagged;
        },
      );
      answers = answers;
      seed = refl;
      len = refl;
    })

  rehash_tables-Same : (buckets : ℕ) → Same sip_hash d (rehash_tables buckets d (some new))
  unfolding rehash_tables
  rehash_tables-Same buckets =
      let within : d.rehash_index < length d.old = (rw e at valid.laid.growth).3 in
      let end = min (d.rehash_index + buckets) (length d.old) in
      let count = end - d.rehash_index in
      let pair =
        migrate-IsPair hash_of k count d.rehash_index end d.old new (omega arith) (omega arith)
          growing in
      let same = migrate-SameSlots hash_of k count d.rehash_index d.old new growing (omega arith) in
      let old' = (migrate count d.rehash_index d.old new).0 in
      let new' = (migrate count d.rehash_index d.old new).1 in
      elim (ℕ_discrete end (length old')) [
        | yes all ↦ finish_done-Same end old' new' pair same all
        | no not_all ↦
            finish_more-Same end old' new' pair same
              (omega (arith, pair.old_width, valid.laid.width))
      ]

-- Moving a rehash on by any number of buckets keeps the invariant, every answer and the length,
-- in a keyspace in which no rehash is in flight too.
pub rehash_step-Same :
    (sip_hash : ℕ → ℕ → Bytes → ℕ) (buckets : ℕ) (d : Dict)
    → IsSound sip_hash d
    → Same sip_hash d (rehash_step buckets d)
unfolding rehash_step
rehash_step-Same sip_hash buckets d (k, valid) = elim (Option-cases d.new) [
  | inl none_new ↦
      subst (λ n. Same sip_hash d (rehash_tables buckets d n)) (sym none_new)
        (unfold rehash_tables in
          record { sound = (k, valid); answers = λ q. refl; seed = refl; len = refl })
  | inr (new, e) ↦
      subst (λ n. Same sip_hash d (rehash_tables buckets d n)) (sym e)
        (rehash_tables-Same sip_hash k d new e valid buckets)
]
