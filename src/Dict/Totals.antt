-- ===== src/Dict/Totals.antt =====
-- What each write to a table does to the sums over its slots, and to its width.
use seedstone.Base.{
  ℕ, ◌+◌, ◌<◌, ◌≡◌, Bytes, some, none, [], ◌∷◌, ◌++◌, length, length-set, arith, Option-cases, inl,
  inr,
}
use seedstone.Dict.Buckets.{
  Entry, Slot, Table, bucket_index, find_slot, find, assign_slot, assign, push_slot, erase_slot,
  remove_from, bucket_of,
}
use seedstone.Dict.Weigh.{
  Weight, weigh, slot_at, weigh-set, weigh_bucket-append, weigh_bucket-assign_slot,
  weigh_bucket-erase_slot, weigh_bucket_one,
}

module _ (w : Weight) (table : Table) where
  pub weigh-push_slot :
      (slot : Slot)
      → bucket_index slot.hash (length table) < length table
      → weigh w (push_slot table slot) ≡ weigh w table + w slot
  unfolding push_slot
  weigh-push_slot slot within =
      let bucket = bucket_of table slot.hash in
      omega (
        arith,
        weigh-set w table (bucket_index slot.hash (length table)) (bucket ++ slot ∷ []) within,
        weigh_bucket-append w bucket (slot ∷ []),
        weigh_bucket_one w slot,
      )

  pub weigh-assign :
      (hash : ℕ) (key : Bytes) (entry old : Entry)
      → bucket_index hash (length table) < length table
      → find table hash key ≡ some old
      → weigh w (assign table hash key entry) + w (slot_at hash key old)
        ≡ weigh w table + w (slot_at hash key entry)
  unfolding assign find
  weigh-assign hash key entry old within found =
      let bucket = bucket_of table hash in
      omega (
        arith,
        weigh-set w table (bucket_index hash (length table)) (assign_slot bucket hash key entry)
            within,
        weigh_bucket-assign_slot w bucket hash key entry old found,
      )

  pub weigh-remove_from :
      (hash : ℕ) (key : Bytes) (old : Entry)
      → bucket_index hash (length table) < length table
      → find table hash key ≡ some old
      → weigh w (remove_from table hash key).1 + w (slot_at hash key old) ≡ weigh w table
  unfolding find remove_from
  weigh-remove_from hash key old within found =
      let bucket = bucket_of table hash in
      rw (remove_from, found)
        (omega (
          arith,
          weigh-set w table (bucket_index hash (length table)) (erase_slot bucket hash key) within,
          weigh_bucket-erase_slot w bucket hash key old found,
        ))

module _ (table : Table) where
  pub remove_from_absent :
      (hash : ℕ) (key : Bytes) → find table hash key ≡ none → (remove_from table hash key).1 ≡ table
  unfolding remove_from find
  remove_from_absent hash key absent = rw (absent, remove_from)

  pub length-push_slot : (slot : Slot) → length (push_slot table slot) ≡ length table
  unfolding push_slot
  length-push_slot slot = length-set table _ _

  pub length-assign :
      (hash : ℕ) (key : Bytes) (entry : Entry) → length (assign table hash key entry) ≡ length table
  unfolding assign
  length-assign hash key entry = length-set table _ _

  pub length-remove_from :
      (hash : ℕ) (key : Bytes) → length (remove_from table hash key).1 ≡ length table
  unfolding remove_from
  length-remove_from hash key = elim (Option-cases (find_slot (bucket_of table hash) hash key)) [
    | inl e ↦ rw (e, remove_from)
    | inr (old, e) ↦ rw (e, remove_from) (length-set table _ _)
  ]
