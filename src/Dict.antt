-- ===== src/Dict.antt =====
-- crates/seedstone-core/src/dict.rs: the per-shard keyspace, a chained hash table that grows
-- incrementally.
pub mod Buckets
pub mod Weigh
pub mod Lookup
pub mod Placed
pub mod Totals
pub mod Migrate
pub mod Rehash
pub mod Tables
pub mod Answers
pub mod Valid
pub mod Change
pub mod Figures
pub mod Writes
pub mod Operations
pub mod Removal
pub mod Growth
pub mod Step
pub mod Refines
pub mod Run
pub mod Found
pub mod Finish
use seedstone.Base.{
  ℕ, zero, suc, ◌+◌, ◌-◌, ◌*◌, ◌%◌, ◌^◌, min, bit_xor, ◌==◌, leb, Bool, true, false, ◌||◌, Bytes,
  Option, none, some, List, [], ◌∷◌, length, get_or, set, if◌then◌else◌, is_some, to_nat, or_else,
}
use Buckets.{
  Entry, Slot, Bucket, Table, initial_buckets, entry_bytes, table_bytes, empty_table, find, assign,
  push_slot, remove_from,
}

pub record DictSeed : Type 0 where
  pub k0 : ℕ
  pub k1 : ℕ

unfoldable pub shard_seed : DictSeed → ℕ → DictSeed
shard_seed seed shard = record { k0 = bit_xor seed.k0 shard; k1 = seed.k1 }

pub record Dict : Type 0 where
  pub seed : DictSeed
  pub old : Table
  pub new : Option Table
  pub rehash_index : ℕ
  pub len : ℕ
  pub may_hold_deadlines : Bool
  pub used_bytes : ℕ
  pub with_deadline : ℕ
  pub clock : ℕ

unfoldable pub with_seed : DictSeed → Dict
with_seed seed = record {
  seed = seed;
  old = empty_table initial_buckets;
  new = none;
  rehash_index = 0;
  len = 0;
  may_hold_deadlines = false;
  used_bytes = table_bytes initial_buckets;
  with_deadline = 0;
  clock = 0;
}

unfoldable pub clear : Dict → Dict
unfolding with_seed
clear d = with_seed d.seed

unfoldable pub is_rehashing : Dict → Bool
is_rehashing d = is_some d.new

unfoldable pub start_rehash : Dict → Dict
start_rehash d = record d {
  new = some (empty_table (length d.old * 2));
  used_bytes = d.used_bytes + table_bytes (length d.old * 2);
  rehash_index = 0;
}

-- `for slot in self.old[index].drain(..) { .. }`, into the new table
unfoldable pub drain_bucket : Bucket → Table → Table
unfolding push_slot
drain_bucket [] new = new
drain_bucket (slot ∷ rest) new = drain_bucket rest (push_slot new slot)

-- `for index in index..index + count`: the two tables after it
unfoldable pub migrate : ℕ → ℕ → Table → Table → Table × Table
unfolding drain_bucket
migrate zero index old new = (old, new)
migrate (suc count) index old new =
    migrate count (suc index) (set old index []) (drain_bucket (get_or old index []) new)

-- the end of `rehash_step`: the drained table is dropped
unfoldable pub finish_rehash : Dict → Table → Dict
finish_rehash d new =
    if d.rehash_index == length d.old
    then record d {
      used_bytes = d.used_bytes - table_bytes (length d.old);
      old = new;
      new = none;
      rehash_index = 0;
    }
    else record d { new = some new }

unfoldable pub rehash_tables : ℕ → Dict → Option Table → Dict
unfolding migrate finish_rehash
rehash_tables buckets d none = d
rehash_tables buckets d (some new) =
    let end = min (d.rehash_index + buckets) (length d.old) in
    let (old', new') = migrate (end - d.rehash_index) d.rehash_index d.old new in
    finish_rehash (record d { old = old'; rehash_index = end }) new'

unfoldable pub rehash_step : ℕ → Dict → Dict
unfolding rehash_tables
rehash_step buckets d = rehash_tables buckets d d.new

-- What the methods do to the table that a rehash migrates into, where there is one.
abbrev pub find_new : Option Table → ℕ → Bytes → Option Entry
find_new none hash key = none
find_new (some new) hash key = find new hash key

abbrev pub assign_new : Option Table → ℕ → Bytes → Entry → Option Table
assign_new none hash key entry = none
assign_new (some new) hash key entry = some (assign new hash key entry)

-- `find_mut` in the old table, and then in the new one
unfoldable pub find_entry : Dict → ℕ → Bytes → Option Entry
find_entry d hash key = or_else (find d.old hash key) (find_new d.new hash key)

-- the write through the reference that those two calls return
unfoldable pub write_entry : Dict → ℕ → Bytes → Entry → Dict
write_entry d hash key entry =
    if is_some (find d.old hash key)
    then record d { old = assign d.old hash key entry }
    else record d { new = assign_new d.new hash key entry }

-- `let table = self.new.as_mut().unwrap_or(&mut self.old)` and the push
unfoldable pub push_entry : Dict → Option Table → Slot → Dict
push_entry d none slot = record d { old = push_slot d.old slot }
push_entry d (some new) slot = record d { new = some (push_slot new slot) }

-- `remove_from` in the old table, and where that finds nothing in the new one
unfoldable pub remove_new : Dict → Option Table → ℕ → Bytes → Option Entry × Dict
remove_new d none hash key = (none, d)
remove_new d (some new) hash key =
    let (removed, new') = remove_from new hash key in (removed, record d { new = some new' })

unfoldable pub remove_tables : Dict → ℕ → Bytes → Option Entry × Dict
unfolding remove_new
remove_tables d hash key =
    let (removed, old') = remove_from d.old hash key in
    elim removed [
      | some entry ↦ (some entry, record d { old = old' })
      | none ↦ remove_new d d.new hash key
    ]

-- the accounting at the end of `remove`
unfoldable pub settle_removal : Bytes → Entry → Dict → Dict
settle_removal key removed d = record d {
  used_bytes = d.used_bytes - entry_bytes key removed.value;
  with_deadline = d.with_deadline - to_nat (is_some removed.expires_at);
  len = d.len - 1;
  may_hold_deadlines = if d.len - 1 == 0 then false else d.may_hold_deadlines;
}

-- the first lines of `insert`: one bucket of a rehash in flight, or the start of one
unfoldable pub make_room : Dict → Dict
unfolding rehash_step start_rehash
make_room d =
    if is_some d.new
    then rehash_step 1 d
    else if leb (length d.old) d.len
    then start_rehash d
    else d

-- the first lines of `remove`
unfoldable pub advance_rehash : Dict → Dict
unfolding rehash_step
advance_rehash d = if is_some d.new then rehash_step 1 d else d

-- SipHash-1-3 with the two keys of the seed is the crate siphasher's.
module _ (sip_hash : ℕ → ℕ → Bytes → ℕ) where
  abbrev pub hash_key : DictSeed → Bytes → ℕ
  hash_key seed key = sip_hash seed.k0 seed.k1 key

  unfoldable pub get : Dict → Bytes → Option Entry
  unfolding find_entry
  get d key = find_entry d (hash_key d.seed key) key

  unfoldable pub set_deadline : Dict → Bytes → Option ℕ → Bool × Dict
  unfolding find_entry write_entry
  set_deadline d key expires_at =
      let hash = hash_key d.seed key in
      let flagged = record d { may_hold_deadlines = d.may_hold_deadlines || is_some expires_at } in
      elim (find_entry d hash key) [
        | none ↦ (false, flagged)
        | some entry ↦ (
          true,
          write_entry
              (record flagged {
                with_deadline =
                    d.with_deadline
                    + to_nat (is_some expires_at)
                    - to_nat (is_some entry.expires_at);
              })
              hash key (record entry { expires_at = expires_at }),
        )
      ]

  unfoldable pub touch : Dict → Bytes → Dict
  unfolding find_entry write_entry
  touch d key =
      let hash = hash_key d.seed key in
      let stamp = (d.clock + 1) % 2 ^ 32 in
      elim (find_entry d hash key) [
        | none ↦ record d { clock = stamp }
        | some entry ↦
            write_entry (record d { clock = stamp }) hash key (record entry { touched = stamp })
      ]

  -- `insert` from the flag on, once there is room
  unfoldable pub place_entry : Dict → Bytes → Entry → Dict
  unfolding find_entry write_entry push_entry
  place_entry d key entry =
      let hash = hash_key d.seed key in
      let dated = to_nat (is_some entry.expires_at) in
      let after = entry_bytes key entry.value in
      let flagged = record d {
        may_hold_deadlines = d.may_hold_deadlines || is_some entry.expires_at;
      } in
      elim (find_entry d hash key) [
        | some existing ↦
            write_entry
              (record flagged {
                used_bytes = d.used_bytes - entry_bytes key existing.value + after;
                with_deadline = d.with_deadline + dated - to_nat (is_some existing.expires_at);
              })
              hash key entry
        | none ↦
            push_entry
              (record flagged {
                used_bytes = d.used_bytes + after;
                with_deadline = d.with_deadline + dated;
                len = d.len + 1;
              })
              d.new (record { hash = hash; key = key; entry = entry })
      ]

  unfoldable pub insert : Dict → Bytes → Entry → Dict
  unfolding make_room place_entry
  insert d key entry = place_entry (make_room d) key entry

  -- `remove` once it has moved a rehash in flight on by one bucket
  unfoldable pub remove_entry : Dict → Bytes → Option Entry × Dict
  unfolding remove_tables settle_removal
  remove_entry d key =
      let (removed, d') = remove_tables d (hash_key d.seed key) key in
      elim removed [ none ↦ (none, d') | some entry ↦ (some entry, settle_removal key entry d') ]

  unfoldable pub remove : Dict → Bytes → Option Entry × Dict
  unfolding remove_entry advance_rehash
  remove d key = remove_entry (advance_rehash d) key
