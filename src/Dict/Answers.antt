-- ===== src/Dict/Answers.antt =====
-- What the one or two tables of a keyspace answer after each write, and what happens to the sums
-- over their slots.
use seedstone.Base.{
  ℕ, ◌≤◌, ◌<◌, ◌≡◌, ◌≢◌, Bytes, bytes_eq, bytes_eq_iff, bytes_eq_refl, some, none, length, arith,
  Bool-cases, inl, inr, if◌then◌else◌, false, ==_refl,
}
use seedstone.Dict.Buckets.{
  Entry, Table, bucket_index, find, assign, remove_from, push_slot, matches, bucket_of,
}
use seedstone.Dict.Weigh.{weigh, weigh_bucket, at_key, slot_at, weigh_bucket-le}
use seedstone.Dict.Lookup.{
  find-assign_self, find-assign_ne, find-push_slot, find-remove_from_self, find-remove_from_ne,
}

key_ne : (key q : Bytes) → bytes_eq key q ≡ false → key ≢ q
key_ne key q h e = ground (arith, (bytes_eq_iff key q).1 e)

-- One table, at the hash of each key.
module _ (hash_of : Bytes → ℕ) (table : Table) (key q : Bytes)
    (within : bucket_index (hash_of key) (length table) < length table) where
  pub find-assign :
      (entry x : Entry)
      → find table (hash_of key) key ≡ some x
      → find (assign table (hash_of key) key entry) (hash_of q) q
        ≡ (if bytes_eq key q then some entry else find table (hash_of q) q)
  find-assign entry x found = elim (Bool-cases (bytes_eq key q)) [
    | inl e ↦ rw (
      e,
      ← (bytes_eq_iff key q).0 e,
      find-assign_self table (hash_of key) key entry within,
      found,
    )
    | inr e ↦
        rw (e, find-assign_ne table (hash_of key) (hash_of q) key q entry within (key_ne key q e))
  ]

  pub find-push :
      (entry : Entry)
      → find table (hash_of key) key ≡ none
      → find (push_slot table (slot_at (hash_of key) key entry)) (hash_of q) q
        ≡ (if bytes_eq key q then some entry else find table (hash_of q) q)
  unfolding matches
  find-push entry absent = elim (Bool-cases (bytes_eq key q)) [
    | inl e ↦ rw (
      e,
      ← (bytes_eq_iff key q).0 e,
      find-push_slot table (slot_at (hash_of key) key entry) (hash_of key) key within,
      absent,
      ==_refl (hash_of key),
      bytes_eq_refl key,
    )
    | inr e ↦
        rw (e, find-push_slot table (slot_at (hash_of key) key entry) (hash_of q) q within)
          (ground arith)
  ]

  pub find-remove_from :
      weigh (at_key key) table ≤ 1
      → find (remove_from table (hash_of key) key).1 (hash_of q) q
        ≡ (if bytes_eq key q then none else find table (hash_of q) q)
  find-remove_from once =
      let occurs : weigh_bucket (at_key key) (bucket_of table (hash_of key)) ≤ 1 =
        omega
          (arith, weigh_bucket-le (at_key key) table (bucket_index (hash_of key) (length table))) in
      elim (Bool-cases (bytes_eq key q)) [
        | inl e ↦ rw (
          e,
          ← (bytes_eq_iff key q).0 e,
          find-remove_from_self table (hash_of key) key within occurs,
        )
        | inr e ↦
            rw
              (e, find-remove_from_ne table (hash_of key) (hash_of q) key q within (key_ne key q e))
      ]
