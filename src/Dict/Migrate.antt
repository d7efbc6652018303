-- ===== src/Dict/Migrate.antt =====
-- The migration of dict.rs from the old table into the new one: it loses no slot, changes no sum
-- over the slots and no answer, and leaves the buckets that it has passed empty.
use seedstone.Base.{
  ℕ, ◌+◌, ◌^◌, ◌≤◌, ◌<◌, ◌≡◌, ◌≢◌, refl, ◌∙◌, Bytes, some, none, [], ◌∷◌, length, length-set,
  get_or, get_or-set_self, get_or-set_ne, set, arith, or_else, All,
}
use seedstone.Dict.{drain_bucket}
use seedstone.Dict.Buckets.{Entry, Bucket, Table, bucket_index, find_slot, find, push_slot}
use seedstone.Dict.Weigh.{Weight, weigh_bucket, weigh, at_key, weigh_bucket-le, find_slot-occurs}
use seedstone.Dict.Lookup.{find-push_slot}
use seedstone.Dict.Placed.{IsHome, IsPlaced, bucket_index-lt, push_slot-IsPlaced}
use seedstone.Dict.Totals.{weigh-push_slot, length-push_slot}

-- one bucket, into a table whose width is a power of two

pub length-drain_bucket :
    (bucket : Bucket) (new : Table) → length (drain_bucket bucket new) ≡ length new
unfolding drain_bucket
length-drain_bucket [] new = refl
length-drain_bucket (slot ∷ rest) new =
    length-drain_bucket rest (push_slot new slot) ∙ length-push_slot new slot

module _ (k : ℕ) where
  pub weigh-drain_bucket :
      (w : Weight) (bucket : Bucket) (new : Table)
      → length new ≡ 2 ^ k
      → weigh w (drain_bucket bucket new) ≡ weigh w new + weigh_bucket w bucket
  unfolding drain_bucket weigh_bucket
  weigh-drain_bucket w [] new width = omega arith
  weigh-drain_bucket w (slot ∷ rest) new width = omega (
    arith,
    weigh-drain_bucket w rest (push_slot new slot) (length-push_slot new slot ∙ width),
    weigh-push_slot w new slot (bucket_index-lt k slot.hash (length new) width),
  )

  pub find-drain_bucket :
      (bucket : Bucket) (new : Table) (hash : ℕ) (key : Bytes)
      → length new ≡ 2 ^ k
      → find (drain_bucket bucket new) hash key
        ≡ or_else (find new hash key) (find_slot bucket hash key)
  unfolding drain_bucket find_slot
  find-drain_bucket [] new hash key width = ground arith
  find-drain_bucket (slot ∷ rest) new hash key width = ground (
    arith,
    find-drain_bucket rest (push_slot new slot) hash key (length-push_slot new slot ∙ width),
    find-push_slot new slot hash key (bucket_index-lt k slot.hash (length new) width),
  )

  module _ (hash_of : Bytes → ℕ) where
    pub drain_bucket-IsPlaced :
        (n i : ℕ) (bucket : Bucket) (new : Table)
        → length new ≡ 2 ^ k
        → All (IsHome hash_of n i) bucket
        → IsPlaced hash_of new
        → IsPlaced hash_of (drain_bucket bucket new)
    unfolding drain_bucket
    drain_bucket-IsPlaced n i [] new width home placed = placed
    drain_bucket-IsPlaced n i (slot ∷ rest) new width ((hashed, _), home) placed =
        drain_bucket-IsPlaced n i rest (push_slot new slot) (length-push_slot new slot ∙ width) home
          (push_slot-IsPlaced hash_of new slot (bucket_index-lt k slot.hash (length new) width)
            placed hashed)

-- A key that is found occurs in the table.
pub find-occurs :
    (table : Table) (hash : ℕ) (key : Bytes) (entry : Entry)
    → find table hash key ≡ some entry
    → 1 ≤ weigh (at_key key) table
unfolding find
find-occurs table hash key entry h = omega (
  arith,
  weigh_bucket-le (at_key key) table (bucket_index hash (length table)),
  find_slot-occurs (get_or table (bucket_index hash (length table)) []) hash key entry h,
)

pub find_clear_self :
    (table : Table) (hash : ℕ) (key : Bytes)
    → bucket_index hash (length table) < length table
    → find (set table (bucket_index hash (length table)) []) hash key ≡ none
unfolding find find_slot
find_clear_self table hash key within =
    rw (length-set, get_or-set_self table (bucket_index hash (length table)) [] [] within)

pub find_clear_ne :
    (table : Table) (i hash : ℕ) (key : Bytes)
    → i ≢ bucket_index hash (length table)
    → find (set table i []) hash key ≡ find table hash key
unfolding find
find_clear_ne table i hash key ne =
    rw (length-set, get_or-set_ne table i (bucket_index hash (length table)) [] [] ne)
