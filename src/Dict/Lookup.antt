-- ===== src/Dict/Lookup.antt =====
-- What `find` answers after each write to a table.
use seedstone.Base.{
  ℕ, ◌≤◌, ◌<◌, ◌≡◌, ◌≢◌, refl, Bytes, bytes_eq_iff, ◌==◌, some, none, [], ◌∷◌, ◌++◌, length,
  length-set, get_or-set_self, get_or-set_ne, arith, if◌then◌else◌, or_else, is_some, ==_refl,
  Option-cases, inl, inr,
}
use seedstone.Dict.Buckets.{
  Entry, Slot, Bucket, Table, bucket_index, matches, find_slot, find, assign_slot, assign,
  push_slot, erase_slot, put_bucket, bucket_of, remove_from,
}
use native.Mathlib.Decide.{ℕ_discrete}
use seedstone.Dict.Weigh.{weigh_bucket, at_key}

-- on one bucket

pub find_slot-append :
    (a b : Bucket) (hash : ℕ) (key : Bytes)
    → find_slot (a ++ b) hash key ≡ or_else (find_slot a hash key) (find_slot b hash key)
unfolding find_slot
find_slot-append [] b hash key = refl
find_slot-append (slot ∷ a) b hash key = ground (arith, find_slot-append a b hash key)

find_slot-assign_slot_self :
    (bucket : Bucket) (hash : ℕ) (key : Bytes) (entry : Entry)
    → find_slot (assign_slot bucket hash key entry) hash key
      ≡ (if is_some (find_slot bucket hash key) then some entry else none)
unfolding find_slot assign_slot
find_slot-assign_slot_self [] hash key entry = refl
find_slot-assign_slot_self (slot ∷ rest) hash key entry =
    ground (arith, find_slot-assign_slot_self rest hash key entry)

find_slot-assign_slot_ne :
    (bucket : Bucket) (hash hash' : ℕ) (key key' : Bytes) (entry : Entry)
    → key ≢ key'
    → find_slot (assign_slot bucket hash key entry) hash' key' ≡ find_slot bucket hash' key'
unfolding find_slot assign_slot matches
find_slot-assign_slot_ne [] hash hash' key key' entry h = refl
find_slot-assign_slot_ne (slot ∷ rest) hash hash' key key' entry h = ground (
  arith,
  bytes_eq_iff slot.key key,
  bytes_eq_iff slot.key key',
  find_slot-assign_slot_ne rest hash hash' key key' entry h,
)

find_slot_absent :
    (bucket : Bucket) (hash : ℕ) (key : Bytes)
    → weigh_bucket (at_key key) bucket ≡ 0
    → find_slot bucket hash key ≡ none
unfolding find_slot weigh_bucket matches
find_slot_absent [] hash key h = refl
find_slot_absent (slot ∷ rest) hash key h = ground (arith, find_slot_absent rest hash key)

find_slot-erase_slot_self :
    (bucket : Bucket) (hash : ℕ) (key : Bytes)
    → weigh_bucket (at_key key) bucket ≤ 1
    → find_slot (erase_slot bucket hash key) hash key ≡ none
unfolding find_slot erase_slot weigh_bucket matches
find_slot-erase_slot_self [] hash key h = refl
find_slot-erase_slot_self (slot ∷ rest) hash key h =
    ground (arith, find_slot_absent rest hash key, find_slot-erase_slot_self rest hash key)

find_slot-erase_slot_ne :
    (bucket : Bucket) (hash hash' : ℕ) (key key' : Bytes)
    → key ≢ key'
    → find_slot (erase_slot bucket hash key) hash' key' ≡ find_slot bucket hash' key'
unfolding find_slot erase_slot matches
find_slot-erase_slot_ne [] hash hash' key key' h = refl
find_slot-erase_slot_ne (slot ∷ rest) hash hash' key key' h = ground (
  arith,
  bytes_eq_iff slot.key key,
  bytes_eq_iff slot.key key',
  find_slot-erase_slot_ne rest hash hash' key key' h,
)

-- on a table

-- A write to the bucket that `hash` selects is seen by the keys of that bucket alone.
find-put_bucket :
    (table : Table) (hash : ℕ) (bucket : Bucket) (hash' : ℕ) (key : Bytes)
    → bucket_index hash (length table) < length table
    → find (put_bucket table hash bucket) hash' key ≡ (
        if bucket_index hash (length table) == bucket_index hash' (length table)
        then find_slot bucket hash' key
        else find table hash' key)
unfolding find
find-put_bucket table hash bucket hash' key within =
    let home = bucket_index hash (length table) in
    let home' = bucket_index hash' (length table) in
    elim (ℕ_discrete home home') [
      | yes e ↦ rw (length-set, ← e, get_or-set_self table home bucket [] within, ==_refl home)
      | no ne ↦ rw (length-set, get_or-set_ne table home home' bucket [] ne) (ground arith)
    ]

-- `push_slot` adds its slot behind those that are there.
pub find-push_slot :
    (table : Table) (slot : Slot) (hash : ℕ) (key : Bytes)
    → bucket_index slot.hash (length table) < length table
    → find (push_slot table slot) hash key
      ≡ or_else (find table hash key) (if matches slot hash key then some slot.entry else none)
unfolding push_slot
find-push_slot table slot hash key within =
    rw (find-put_bucket table slot.hash _ hash key within, find_slot-append)
      (unfold find find_slot matches in ground arith)

-- An overwrite is seen by its own key, if that was there, and by no other.
pub find-assign_self :
    (table : Table) (hash : ℕ) (key : Bytes) (entry : Entry)
    → bucket_index hash (length table) < length table
    → find (assign table hash key entry) hash key
      ≡ (if is_some (find table hash key) then some entry else none)
unfolding assign
find-assign_self table hash key entry within =
    rw (find-put_bucket table hash _ hash key within, ==_refl, find_slot-assign_slot_self)
      (unfold find in refl)

pub find-assign_ne :
    (table : Table) (hash hash' : ℕ) (key key' : Bytes) (entry : Entry)
    → bucket_index hash (length table) < length table
    → key ≢ key'
    → find (assign table hash key entry) hash' key' ≡ find table hash' key'
unfolding assign
find-assign_ne table hash hash' key key' entry within ne =
    rw
      (
        find-put_bucket table hash _ hash' key' within,
        find_slot-assign_slot_ne _ hash hash' key key' entry ne,
      )
      (unfold find in ground arith)

-- A removal returns what `find` finds, and leaves every other key as it was.
pub remove_from-find :
    (table : Table) (hash : ℕ) (key : Bytes) → (remove_from table hash key).0 ≡ find table hash key
unfolding remove_from find
remove_from-find table hash key = ground arith

pub find-remove_from_self :
    (table : Table) (hash : ℕ) (key : Bytes)
    → bucket_index hash (length table) < length table
    → weigh_bucket (at_key key) (bucket_of table hash) ≤ 1
    → find (remove_from table hash key).1 hash key ≡ none
unfolding remove_from
find-remove_from_self table hash key within once =
    elim (Option-cases (find_slot (bucket_of table hash) hash key)) [
      | inl e ↦ rw (e, remove_from) (unfold find in e)
      | inr (old, e) ↦
          rw (e, remove_from)
            (rw (find-put_bucket table hash _ hash key within, ==_refl)
              (find_slot-erase_slot_self (bucket_of table hash) hash key once))
    ]

pub find-remove_from_ne :
    (table : Table) (hash hash' : ℕ) (key key' : Bytes)
    → bucket_index hash (length table) < length table
    → key ≢ key'
    → find (remove_from table hash key).1 hash' key' ≡ find table hash' key'
unfolding remove_from
find-remove_from_ne table hash hash' key key' within ne =
    elim (Option-cases (find_slot (bucket_of table hash) hash key)) [
      | inl e ↦ rw (e, remove_from)
      | inr (old, e) ↦
          rw
            (
              e,
              remove_from,
              find-put_bucket table hash _ hash' key' within,
              find_slot-erase_slot_ne (bucket_of table hash) hash hash' key key' ne,
            )
            (unfold find in ground arith)
    ]
