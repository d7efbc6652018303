-- ===== src/Dict/Buckets.antt =====
-- crates/seedstone-core/src/dict.rs: entries, buckets and one table of buckets, with the free
-- functions over them. A table is indexed below its length only, as Dict/Placed proves.
use seedstone.Base.{
  ℕ, ◌+◌, ◌-◌, ◌*◌, bit_and, ◌==◌, Bool, ◌&&◌, Bytes, bytes_eq, Option, none, some, List, [], ◌∷◌,
  ◌++◌, length, get_or, set, replicate, if◌then◌else◌,
}

-- An `Instant` is a number of ticks.
pub record Entry : Type 0 where
  pub value : Bytes
  pub expires_at : Option ℕ
  pub touched : ℕ

-- an element of a bucket: the stored hash, the key and its entry
pub record Slot : Type 0 where
  pub hash : ℕ
  pub key : Bytes
  pub entry : Entry

abbrev pub Bucket : Type 0
Bucket = List Slot

abbrev pub Table : Type 0
Table = List Bucket

abbrev pub initial_buckets : ℕ
initial_buckets = 8

abbrev pub entry_overhead : ℕ
entry_overhead = 96

abbrev pub bucket_overhead : ℕ
bucket_overhead = 24

abbrev pub entry_bytes : Bytes → Bytes → ℕ
entry_bytes key value = entry_overhead + length key + length value

abbrev pub table_bytes : ℕ → ℕ
table_bytes buckets = buckets * bucket_overhead

abbrev pub empty_table : ℕ → Table
empty_table buckets = replicate buckets []

unfoldable pub bucket_index : ℕ → ℕ → ℕ
bucket_index hash buckets = bit_and hash (buckets - 1)

unfoldable pub matches : Slot → ℕ → Bytes → Bool
matches slot hash key = (slot.hash == hash) && bytes_eq slot.key key

-- `bucket.iter().find(..)`
unfoldable pub find_slot : Bucket → ℕ → Bytes → Option Entry
unfolding matches
find_slot [] hash key = none
find_slot (slot ∷ rest) hash key =
    if matches slot hash key then some slot.entry else find_slot rest hash key

unfoldable pub find : Table → ℕ → Bytes → Option Entry
unfolding find_slot
find table hash key = find_slot (get_or table (bucket_index hash (length table)) []) hash key

-- A write through the reference that `find_mut` returns: the first slot that matches is changed.
unfoldable pub assign_slot : Bucket → ℕ → Bytes → Entry → Bucket
unfolding matches
assign_slot [] hash key entry = []
assign_slot (slot ∷ rest) hash key entry =
    if matches slot hash key
    then record slot { entry = entry } ∷ rest
    else slot ∷ assign_slot rest hash key entry

-- `table[index] = bucket`, for the bucket that `hash` selects
abbrev pub put_bucket : Table → ℕ → Bucket → Table
put_bucket table hash bucket = set table (bucket_index hash (length table)) bucket

abbrev pub bucket_of : Table → ℕ → Bucket
bucket_of table hash = get_or table (bucket_index hash (length table)) []

unfoldable pub assign : Table → ℕ → Bytes → Entry → Table
unfolding assign_slot
assign table hash key entry =
    put_bucket table hash (assign_slot (bucket_of table hash) hash key entry)

-- `table[index].push(slot)`
unfoldable pub push_slot : Table → Slot → Table
push_slot table slot = put_bucket table slot.hash (bucket_of table slot.hash ++ slot ∷ [])

-- `bucket.remove(position)` at the first slot that matches
unfoldable pub erase_slot : Bucket → ℕ → Bytes → Bucket
unfolding matches
erase_slot [] hash key = []
erase_slot (slot ∷ rest) hash key =
    if matches slot hash key then rest else slot ∷ erase_slot rest hash key

-- `remove_from`: what it returns, and the table that it leaves
unfoldable pub remove_from : Table → ℕ → Bytes → Option Entry × Table
unfolding find_slot erase_slot
remove_from table hash key =
    let bucket = bucket_of table hash in
    elim (find_slot bucket hash key) [
      | none ↦ (none, table)
      | some entry ↦ (some entry, put_bucket table hash (erase_slot bucket hash key))
    ]
