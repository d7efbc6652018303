-- ===== src/Dict/Placed.antt =====
-- Where slots stand: each carries the hash of its key and is in the bucket which that selects.
use native.Mathlib.Nat.{mod-lt, one-le-pow}
use seedstone.Base.{
  ℕ, ◌^◌, ◌<◌, ◌≡◌, ◌≢◌, refl, bit_and_mask, Bytes, bytes_eq, bytes_eq_iff, none, [], ◌∷◌, length,
  length-set, get_or, get_or-set_self, get_or-set_ne, get_or-replicate, set, replicate, All,
  All-append, arith, Option-cases, Bool-cases, ==_refl, inl, inr,
}
use native.Mathlib.Decide.{ℕ_discrete}
use seedstone.Dict.Buckets.{
  Entry, Slot, Bucket, Table, bucket_index, matches, find_slot, find, assign_slot, assign,
  push_slot, erase_slot, remove_from, bucket_of,
}
use seedstone.Dict.Weigh.{weigh_bucket, weigh, at_key, weigh_nowhere}

-- A mask of a power of two selects a bucket of the table.
pub bucket_index-lt : (k hash n : ℕ) → n ≡ 2 ^ k → bucket_index hash n < n
unfolding bucket_index
bucket_index-lt k hash n e =
    rw (e, bit_and_mask k hash) (mod-lt hash (one-le-pow k 2 (omega arith)))

module _ (hash_of : Bytes → ℕ) where
  abbrev pub IsHome : ℕ → ℕ → Slot → Type 0
  IsHome n i slot = (slot.hash ≡ hash_of slot.key) × (bucket_index slot.hash n ≡ i)

  pub record IsPlaced (table : Table) : Type 0 where
    pub at : (i : ℕ) → All (IsHome (length table) i) (get_or table i [])

  pub IsPlaced-replicate : (n : ℕ) → IsPlaced (replicate n [])
  IsPlaced-replicate n = record { at = λ i. rw get_or-replicate tt }

  -- A write keeps a table placed if the bucket written belongs where it stands.
  IsPlaced-set :
      (table : Table) (i : ℕ) (bucket : Bucket)
      → i < length table
      → IsPlaced table
      → All (IsHome (length table) i) bucket
      → IsPlaced (set table i bucket)
  IsPlaced-set table i bucket within placed home = record {
    at = λ j. elim (ℕ_discrete i j) [
      | yes e ↦ rw (length-set, ← e, get_or-set_self table i bucket [] within) home
      | no ne ↦ rw (length-set, get_or-set_ne table i j bucket [] ne) (placed.at j)
    ];
  }

  All-assign_slot :
      (n i : ℕ) (bucket : Bucket) (hash : ℕ) (key : Bytes) (entry : Entry)
      → All (IsHome n i) bucket
      → All (IsHome n i) (assign_slot bucket hash key entry)
  unfolding assign_slot
  All-assign_slot n i [] hash key entry h = h
  All-assign_slot n i (slot ∷ rest) hash key entry h =
      ground (arith, All-assign_slot n i rest hash key entry)

  All-erase_slot :
      (n i : ℕ) (bucket : Bucket) (hash : ℕ) (key : Bytes)
      → All (IsHome n i) bucket
      → All (IsHome n i) (erase_slot bucket hash key)
  unfolding erase_slot
  All-erase_slot n i [] hash key h = h
  All-erase_slot n i (slot ∷ rest) hash key h = ground (arith, All-erase_slot n i rest hash key)

  module _ (table : Table) (hash : ℕ) (within : bucket_index hash (length table) < length table)
      (placed : IsPlaced table) where
    pub assign-IsPlaced : (key : Bytes) (entry : Entry) → IsPlaced (assign table hash key entry)
    unfolding assign
    assign-IsPlaced key entry =
        IsPlaced-set table _ _ within placed
          (All-assign_slot (length table) _ (bucket_of table hash) hash key entry (placed.at _))

    pub remove_from-IsPlaced : (key : Bytes) → IsPlaced (remove_from table hash key).1
    unfolding remove_from
    remove_from-IsPlaced key = elim (Option-cases (find_slot (bucket_of table hash) hash key)) [
      | inl e ↦ rw (e, remove_from) placed
      | inr (old, e) ↦
          rw (e, remove_from)
            (IsPlaced-set table _ _ within placed
              (All-erase_slot (length table) _ (bucket_of table hash) hash key (placed.at _)))
    ]

  pub push_slot-IsPlaced :
      (table : Table) (slot : Slot)
      → bucket_index slot.hash (length table) < length table
      → IsPlaced table
      → slot.hash ≡ hash_of slot.key
      → IsPlaced (push_slot table slot)
  unfolding push_slot
  push_slot-IsPlaced table slot within placed hashed = IsPlaced-set table _ _ within placed (
      All-append (IsHome (length table) _) (bucket_of table slot.hash) (slot ∷ []) (placed.at _)
        ((hashed, refl), tt))

  pub clear_bucket-IsPlaced :
      (table : Table) (i : ℕ) → i < length table → IsPlaced table → IsPlaced (set table i [])
  clear_bucket-IsPlaced table i within placed = IsPlaced-set table i [] within placed tt

  -- A key that stands in no bucket where it is looked for stands nowhere.
  missing_in_bucket :
      (n i : ℕ) (bucket : Bucket) (key : Bytes)
      → All (IsHome n i) bucket
      → (i ≡ bucket_index (hash_of key) n → find_slot bucket (hash_of key) key ≡ none)
      → weigh_bucket (at_key key) bucket ≡ 0
  unfolding find_slot matches weigh_bucket
  missing_in_bucket n i [] key h f = refl
  missing_in_bucket n i (slot ∷ rest) key ((hashed, home), h) f =
      let later = missing_in_bucket n i rest key h (λ e. ground (arith, f e)) in
      elim (Bool-cases (bytes_eq slot.key key)) [
        | inl same ↦
            let e = (bytes_eq_iff slot.key key).0 same in
            ground (arith, f (rw (← e, ← hashed, home) refl), ==_refl slot.hash)
        | inr other ↦ rw other (omega arith)
      ]

  pub missing :
      (table : Table) (key : Bytes)
      → IsPlaced table
      → find table (hash_of key) key ≡ none
      → weigh (at_key key) table ≡ 0
  unfolding find
  missing table key placed h =
      weigh_nowhere (at_key key) table (λ i.
        missing_in_bucket (length table) i (get_or table i []) key (placed.at i) (λ e. rw e h))

  -- A key is not found in a bucket that is not its own.
  pub find_slot_elsewhere :
      (n i : ℕ) (bucket : Bucket) (hash : ℕ) (key : Bytes)
      → All (IsHome n i) bucket
      → i ≢ bucket_index hash n
      → find_slot bucket hash key ≡ none
  unfolding find_slot matches
  find_slot_elsewhere n i [] hash key h ne = refl
  find_slot_elsewhere n i (slot ∷ rest) hash key h ne =
      ground (arith, find_slot_elsewhere n i rest hash key)
