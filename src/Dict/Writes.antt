-- ===== src/Dict/Writes.antt =====
-- The three writes that the methods of dict.rs end in, as changes of one key.
use seedstone.Base.{
  ℕ, ◌≤◌, ◌≡◌, refl, Bytes, some, none, arith, Option, Option-cases, inl, inr, ◌∙◌, sym,
}
use seedstone.Dict.{Dict, find_new, find_entry, write_entry, push_entry, remove_new, remove_tables}
use seedstone.Dict.Buckets.{Entry, Slot, Table, find, remove_from}
use seedstone.Dict.Weigh.{at_key, slot_at}
use seedstone.Dict.Lookup.{remove_from-find}
use seedstone.Dict.Tables.{weigh_tables, IsLaid}
use seedstone.Dict.Change.{
  Change, assign-Change, assign_new-Change, push-Change, push_new-Change, remove-Change,
  remove_new-Change,
}

-- A write to the tables leaves the other fields alone.
pub record SameFields (d d' : Dict) : Type 0 where
  pub seed : d'.seed ≡ d.seed
  pub rehash_index : d'.rehash_index ≡ d.rehash_index
  pub len : d'.len ≡ d.len
  pub may_hold_deadlines : d'.may_hold_deadlines ≡ d.may_hold_deadlines
  pub used_bytes : d'.used_bytes ≡ d.used_bytes
  pub with_deadline : d'.with_deadline ≡ d.with_deadline
  pub clock : d'.clock ≡ d.clock

pub write_entry-SameFields :
    (d : Dict) (hash : ℕ) (key : Bytes) (entry : Entry)
    → SameFields d (write_entry d hash key entry)
unfolding write_entry
write_entry-SameFields d hash key entry = ground arith

pub push_entry-SameFields :
    (d : Dict) (new : Option Table) (slot : Slot) → SameFields d (push_entry d new slot)
unfolding push_entry
push_entry-SameFields d none slot = ground arith
push_entry-SameFields d (some new) slot = ground arith

pub remove_tables-SameFields :
    (d : Dict) (hash : ℕ) (key : Bytes) → SameFields d (remove_tables d hash key).1
unfolding remove_tables remove_new
remove_tables-SameFields d hash key = ground arith

remove_new-find :
    (d : Dict) (new : Option Table) (hash : ℕ) (key : Bytes)
    → (remove_new d new hash key).0 ≡ find_new new hash key
unfolding remove_new
remove_new-find d none hash key = refl
remove_new-find d (some new) hash key = remove_from-find new hash key

module _ (hash_of : Bytes → ℕ) (k : ℕ) (key : Bytes) (d : Dict)
    (laid : IsLaid hash_of k d.rehash_index d.old d.new) where
  pub write_entry-Change :
      (x entry : Entry)
      → find_entry d (hash_of key) key ≡ some x
      → Change hash_of k d.rehash_index key
          (some x)
          (some entry)
          d.old
          d.new
          (write_entry d (hash_of key) key entry).old
          (write_entry d (hash_of key) key entry).new
  unfolding find_entry write_entry
  write_entry-Change x entry found = elim (Option-cases (find d.old (hash_of key) key)) [
    | inl absent ↦
        rw (absent, write_entry)
          (assign_new-Change hash_of k d.rehash_index key x entry d.old d.new laid absent
            (ground arith))
    | inr (y, e) ↦
        rw (e, write_entry)
          (assign-Change hash_of k d.rehash_index key x entry d.old d.new laid (ground arith))
  ]

  pub push_entry-Change :
      (new : Option Table) (entry : Entry)
      → d.new ≡ new
      → find_entry d (hash_of key) key ≡ none
      → Change hash_of k d.rehash_index key none
          (some entry)
          d.old
          d.new
          (push_entry d new (slot_at (hash_of key) key entry)).old
          (push_entry d new (slot_at (hash_of key) key entry)).new
  unfolding find_entry push_entry
  push_entry-Change none entry e absent =
      rw e (push-Change hash_of k d.rehash_index key entry d.old (rw e at laid) (ground arith))
  push_entry-Change (some new) entry e absent = rw e (
      push_new-Change hash_of k d.rehash_index key entry d.old new (rw e at laid) (ground arith)
        (ground arith))

  pub remove_tables-find : (remove_tables d (hash_of key) key).0 ≡ find_entry d (hash_of key) key
  unfolding find_entry remove_tables
  remove_tables-find = elim (Option-cases (find d.old (hash_of key) key)) [
    | inl e ↦ rw (taken ∙ e, remove_tables, e) (remove_new-find d d.new (hash_of key) key)
    | inr (y, e) ↦ rw (taken ∙ e, remove_tables, e)
  ]
    where
      taken : (remove_from d.old (hash_of key) key).0 ≡ find d.old (hash_of key) key
      taken = remove_from-find d.old (hash_of key) key

  pub remove_tables-Change :
      (x : Entry)
      → weigh_tables (at_key key) d.old d.new ≤ 1
      → find_entry d (hash_of key) key ≡ some x
      → Change hash_of k d.rehash_index key
          (some x)
          none
          d.old
          d.new
          (remove_tables d (hash_of key) key).1.old
          (remove_tables d (hash_of key) key).1.new
  unfolding find_entry remove_tables remove_new
  remove_tables-Change x once found = elim (Option-cases (find d.old (hash_of key) key)) [
    | inr (y, here) ↦
        rw (remove_from-find d.old (hash_of key) key ∙ here, remove_tables)
          (remove-Change hash_of k d.rehash_index key x d.old d.new laid once (ground arith))
    | inl absent ↦
        rw (remove_from-find d.old (hash_of key) key ∙ absent, remove_tables)
          (in_new d.new refl absent)
  ]
    where
      in_new :
          (n : Option Table)
          → d.new ≡ n
          → find d.old (hash_of key) key ≡ none
          → Change hash_of k d.rehash_index key
              (some x)
              none
              d.old
              d.new
              (remove_new d d.new (hash_of key) key).1.old
              (remove_new d d.new (hash_of key) key).1.new
      in_new none e absent = absurd (ground (arith, found))
      in_new (some n) e absent = rw e (
          remove_new-Change hash_of k d.rehash_index key x d.old n (rw e at laid) (rw e at once)
            absent (sym (rw (absent, e)) ∙ found))
