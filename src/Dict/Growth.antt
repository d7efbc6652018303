-- ===== src/Dict/Growth.antt =====
-- `start_rehash`, `rehash_step` and the first lines of `insert` in dict.rs keep the invariant and
-- every answer.
use native.Mathlib.Nat.{pow-suc, one-le-pow}
use seedstone.Base.{
  ℕ, ◌*◌, ◌≡◌, refl, ◌∙◌, sym, ap, Bytes, none, [], length, length-replicate, get_or-replicate,
  arith, or_else,
}
use seedstone.Dict.{Dict, hash_key, get, find_entry, find_new, start_rehash}
use seedstone.Dict.Buckets.{Bucket, empty_table, find, find_slot}
use seedstone.Dict.Weigh.{Weight, at_key, weigh-replicate}
use seedstone.Dict.Placed.{IsPlaced-replicate}
use seedstone.Dict.Tables.{weigh_new}
use seedstone.Dict.Valid.{IsValid, total, new_bytes, one_entry, bytes_of, dated_of}

-- An empty table finds nothing.
pub find-replicate : (n hash : ℕ) (key : Bytes) → find (empty_table n) hash key ≡ none
unfolding find find_slot
find-replicate n hash key = rw get_or-replicate

total-start_rehash : (d : Dict) → d.new ≡ none → (w : Weight) → total w (start_rehash d) ≡ total w d
unfolding start_rehash
total-start_rehash d e w = omega (arith, weigh-replicate w (length d.old * 2), ap (weigh_new w) e)

module _ (sip_hash : ℕ → ℕ → Bytes → ℕ) where
  -- The invariant, whatever the width of the table.
  abbrev pub IsSound : Dict → Type 0
  IsSound d = (k : ℕ) × IsValid sip_hash k d

  -- The invariant after a step that changes no answer.
  pub record Same (d d' : Dict) : Type 0 where
    pub sound : IsSound d'
    pub answers : (q : Bytes) → get sip_hash d' q ≡ get sip_hash d q
    pub seed : d'.seed ≡ d.seed
    pub len : d'.len ≡ d.len

  -- From a keyspace with one table.
  pub start_rehash-Same : (d : Dict) → d.new ≡ none → IsSound d → Same d (start_rehash d)
  unfolding start_rehash get find_entry
  start_rehash-Same d e (k, valid) =
      let totals = total-start_rehash d e in
      record {
        sound = (
          k,
          record {
            laid = record {
              width = valid.laid.width;
              placed = valid.laid.placed;
              growth = (
                length-replicate (length d.old * 2) [] ∙ rw (pow-suc 2 k, valid.laid.width) refl,
                IsPlaced-replicate (hash_key sip_hash d.seed) (length d.old * 2),
                λ i b. absurd (omega arith),
                omega (arith, valid.laid.width, one-le-pow k 2 (omega arith)),
              );
            };
            unique = λ q. omega (arith, totals (at_key q), valid.unique q);
            counted = omega (arith, totals one_entry, valid.counted);
            accounted = omega (
              arith,
              totals bytes_of,
              valid.accounted,
              length-replicate {A = Bucket} (length d.old * 2) [],
              ap new_bytes e,
            );
            dated = omega (arith, totals dated_of, valid.dated);
            flagged = valid.flagged;
          },
        );
        answers = λ q. ap (or_else (find d.old (hash_key sip_hash d.seed q) q)) (
            find-replicate (length d.old * 2) (hash_key sip_hash d.seed q) q
            ∙ sym (ap (λ n. find_new n (hash_key sip_hash d.seed q) q) e));
        seed = refl;
        len = refl;
      }
