-- ===== src/Dict/Rehash.antt =====
-- Rounds of the migration: `migrate` on two tables.
use native.Mathlib.Decide.{ℕ_discrete}
use seedstone.Base.{
  ℕ, zero, suc, ◌+◌, ◌^◌, ◌≤◌, ◌<◌, ◌≡◌, refl, ◌∙◌, Bytes, some, [], length, length-set, get_or,
  get_or-set_self, get_or-set_ne, set, arith, Option-cases, inl, inr, or_else,
}
use seedstone.Dict.{drain_bucket, migrate}
use seedstone.Dict.Buckets.{Entry, Table, bucket_index, find}
use seedstone.Dict.Weigh.{Weight, weigh, at_key, weigh-set, weigh_bucket_nil}
use seedstone.Dict.Placed.{IsPlaced, bucket_index-lt, clear_bucket-IsPlaced, find_slot_elsewhere}
use seedstone.Dict.Migrate.{
  length-drain_bucket, weigh-drain_bucket, find-drain_bucket, drain_bucket-IsPlaced, find-occurs,
  find_clear_self, find_clear_ne,
}

-- Two tables of which the first is drained below `index`, and which hold no key twice.
pub record IsPair (hash_of : Bytes → ℕ) (k index : ℕ) (old new : Table) : Type 0 where
  pub old_width : length old ≡ 2 ^ k
  pub new_width : length new ≡ 2 ^ suc k
  pub old_placed : IsPlaced hash_of old
  pub new_placed : IsPlaced hash_of new
  pub drained : (i : ℕ) → i < index → get_or old i [] ≡ []
  pub unique : (key : Bytes) → weigh (at_key key) old + weigh (at_key key) new ≤ 1

-- The pair `old'`, `new'` holds what `old` and `new` held.
pub record SameSlots (hash_of : Bytes → ℕ) (old new old' new' : Table) : Type 0 where
  pub weighs : (w : Weight) → weigh w old' + weigh w new' ≡ weigh w old + weigh w new
  pub finds :
      (key : Bytes)
      → or_else (find old' (hash_of key) key) (find new' (hash_of key) key)
        ≡ or_else (find old (hash_of key) key) (find new (hash_of key) key)

module _ (hash_of : Bytes → ℕ) (k : ℕ) where
  -- one round of the loop
  module _ (index : ℕ) (old new : Table) (pair : IsPair hash_of k index old new)
      (within : index < length old) where
    round-weighs :
        (w : Weight)
        → weigh w (set old index []) + weigh w (drain_bucket (get_or old index []) new)
          ≡ weigh w old + weigh w new
    round-weighs w = omega (
      arith,
      weigh-set w old index [] within,
      weigh-drain_bucket (suc k) w (get_or old index []) new pair.new_width,
      weigh_bucket_nil w,
    )

    -- No key is found in both tables.
    one_side :
        (key : Bytes) (a b : Entry)
        → find old (hash_of key) key ≡ some a
        → find new (hash_of key) key ≡ some b
        → ⊥
    one_side key a b p q = omega (
      arith,
      pair.unique key,
      find-occurs old (hash_of key) key a p,
      find-occurs new (hash_of key) key b q,
    )

    or_else_comm :
        (key : Bytes)
        → or_else (find new (hash_of key) key) (find old (hash_of key) key)
          ≡ or_else (find old (hash_of key) key) (find new (hash_of key) key)
    or_else_comm key = elim (Option-cases (find old (hash_of key) key)) [
      | inl e ↦ ground arith
      | inr (a, e) ↦ elim (Option-cases (find new (hash_of key) key)) [
        | inl e' ↦ ground arith
        | inr (b, e') ↦ absurd (one_side key a b e e')
      ]
    ]

    round-finds :
        (key : Bytes)
        → or_else
            (find (set old index []) (hash_of key) key)
            (find (drain_bucket (get_or old index []) new) (hash_of key) key)
          ≡ or_else (find old (hash_of key) key) (find new (hash_of key) key)
    round-finds key =
        let hash = hash_of key in
        let home = bucket_index hash (length old) in
        rw (find-drain_bucket (suc k) (get_or old index []) new hash key pair.new_width)
          (elim (ℕ_discrete index home) [
            | yes e ↦
                rw
                  (
                    e,
                    find_clear_self old hash key
                        (bucket_index-lt k hash (length old) pair.old_width),
                  )
                  (unfold find in or_else_comm key)
            | no ne ↦
                rw
                  (
                    find_clear_ne old index hash key ne,
                    find_slot_elsewhere hash_of (length old) index (get_or old index []) hash key
                        (pair.old_placed.at index) ne,
                  )
                  (ground arith)
          ])

    round-IsPair :
        IsPair hash_of k (suc index) (set old index []) (drain_bucket (get_or old index []) new)
    round-IsPair = record {
      old_width = length-set old index [] ∙ pair.old_width;
      new_width = length-drain_bucket (get_or old index []) new ∙ pair.new_width;
      old_placed = clear_bucket-IsPlaced hash_of old index within pair.old_placed;
      new_placed =
          drain_bucket-IsPlaced (suc k) hash_of (length old) index (get_or old index []) new
            pair.new_width (pair.old_placed.at index) pair.new_placed;
      drained = λ i h. elim (ℕ_discrete index i) [
        | yes e ↦ rw (← e) (get_or-set_self old index [] [] within)
        | no ne ↦ get_or-set_ne old index i [] [] ne ∙ pair.drained i (omega arith)
      ];
      unique = λ key. rw (round-weighs (at_key key)) (pair.unique key);
    }

  pub migrate-IsPair :
      (count index end : ℕ) (old new : Table)
      → index + count ≡ end
      → end ≤ length old
      → IsPair hash_of k index old new
      → IsPair hash_of k end (migrate count index old new).0 (migrate count index old new).1
  unfolding migrate
  migrate-IsPair zero index end old new e h pair =
      let stop : index ≡ end = omega arith in rw (← stop) pair
  migrate-IsPair (suc count) index end old new e h pair =
      migrate-IsPair count (suc index) end (set old index [])
        (drain_bucket (get_or old index []) new) (omega arith) (rw (length-set old index []) h)
        (round-IsPair index old new pair (omega arith))

  pub migrate-SameSlots :
      (count index : ℕ) (old new : Table)
      → IsPair hash_of k index old new
      → index + count ≤ length old
      → SameSlots hash_of old new (migrate count index old new).0 (migrate count index old new).1
  unfolding migrate
  migrate-SameSlots zero index old new pair h = record { weighs = λ w. refl; finds = λ key. refl }
  migrate-SameSlots (suc count) index old new pair h =
      let within : index < length old = omega arith in
      let rest =
        migrate-SameSlots count (suc index) (set old index [])
          (drain_bucket (get_or old index []) new) (round-IsPair index old new pair within)
          (rw (length-set old index []) (omega arith)) in
      record {
        weighs = λ w. rest.weighs w ∙ round-weighs index old new pair within w;
        finds = λ key. rest.finds key ∙ round-finds index old new pair within key;
      }
