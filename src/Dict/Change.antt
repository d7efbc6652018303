-- ===== src/Dict/Change.antt =====
-- One key changes: the effect on the tables that an overwrite, an insertion and a removal share,
-- and what it does to the invariant.
use seedstone.Base.{
  ℕ, suc, ◌+◌, ◌≤◌, ◌≡◌, refl, Bytes, bytes_eq, bytes_eq_iff, some, none, length, arith, Option,
  Option-cases, inl, inr, if◌then◌else◌,
}
use seedstone.Dict.{find_new, assign_new}
use seedstone.Dict.Buckets.{Entry, Table, find, assign, remove_from, push_slot}
use seedstone.Dict.Weigh.{Weight, at_key, slot_at}
use seedstone.Dict.Placed.{bucket_index-lt}
use seedstone.Dict.Totals.{
  length-assign, length-remove_from, length-push_slot, weigh-assign, weigh-remove_from,
  weigh-push_slot,
}
use seedstone.Dict.Migrate.{find-occurs}
use seedstone.Dict.Tables.{
  weigh_tables, find_tables, IsLaid, assign-IsLaid, assign_new-IsLaid, push_slot-IsLaid,
  push_slot_new-IsLaid, remove_from-IsLaid, remove_from_new-IsLaid,
}
use seedstone.Dict.Answers.{find-assign, find-push, find-remove_from}
use seedstone.Dict.Valid.{new_bytes}

-- what an entry that may be there adds to a sum
abbrev pub part : Weight → ℕ → Bytes → Option Entry → ℕ
part w hash key none = 0
part w hash key (some entry) = w (slot_at hash key entry)

-- `key` held `before` and holds `after`; every other key holds what it held.
pub record Change (hash_of : Bytes → ℕ) (k index : ℕ) (key : Bytes) (before after : Option Entry)
    (old : Table) (new : Option Table) (old' : Table) (new' : Option Table) : Type 0 where
  pub laid : IsLaid hash_of k index old' new'
  pub held : find_tables old new (hash_of key) key ≡ before
  pub sums :
      (w : Weight)
      → weigh_tables w old' new' + part w (hash_of key) key before
        ≡ weigh_tables w old new + part w (hash_of key) key after
  pub answers :
      (q : Bytes)
      → find_tables old' new' (hash_of q) q
        ≡ (if bytes_eq key q then after else find_tables old new (hash_of q) q)
  pub old_width : length old' ≡ length old
  pub new_width : new_bytes new' ≡ new_bytes new

module _ (hash_of : Bytes → ℕ) (k index : ℕ) (key : Bytes) where
  -- A key that is found in the old table is not found in the new one.
  only_old :
      (x : Entry) (old : Table) (new : Option Table)
      → weigh_tables (at_key key) old new ≤ 1
      → find old (hash_of key) key ≡ some x
      → find_new new (hash_of key) key ≡ none
  only_old x old none once found = refl
  only_old x old (some new) once found = elim (Option-cases (find new (hash_of key) key)) [
    | inl e ↦ e
    | inr (y, e) ↦ absurd (
        omega
          (arith, find-occurs old (hash_of key) key x found, find-occurs new (hash_of key) key y e))
  ]

  -- An overwrite where the old table has the key.
  pub assign-Change :
      (x entry : Entry) (old : Table) (new : Option Table)
      → IsLaid hash_of k index old new
      → find old (hash_of key) key ≡ some x
      → Change hash_of k index key
          (some x)
          (some entry)
          old
          new
          (assign old (hash_of key) key entry)
          new
  assign-Change x entry old new laid found =
      let within = bucket_index-lt k (hash_of key) (length old) laid.width in
      record {
        laid = assign-IsLaid hash_of k index old new laid (hash_of key) key entry;
        held = rw found;
        sums = λ w. omega (arith, weigh-assign w old (hash_of key) key entry x within found);
        answers = λ q. rw (find-assign hash_of old key q within entry x found) (ground arith);
        old_width = length-assign old (hash_of key) key entry;
        new_width = refl;
      }

  -- An overwrite where only the new table has it.
  pub assign_new-Change :
      (x entry : Entry) (old : Table) (new : Option Table)
      → IsLaid hash_of k index old new
      → find old (hash_of key) key ≡ none
      → find_new new (hash_of key) key ≡ some x
      → Change hash_of k index key
          (some x)
          (some entry)
          old
          new
          old
          (assign_new new (hash_of key) key entry)
  assign_new-Change x entry old none laid absent found = cc
  assign_new-Change x entry old (some new) laid absent found =
      let within = bucket_index-lt (suc k) (hash_of key) (length new) laid.growth.0 in
      record {
        laid = assign_new-IsLaid hash_of k index old (some new) (hash_of key) key entry laid;
        held = rw absent found;
        sums = λ w. omega (arith, weigh-assign w new (hash_of key) key entry x within found);
        answers = λ q.
            rw (find-assign hash_of new key q within entry x found)
              (ground (arith, bytes_eq_iff key q, absent));
        old_width = refl;
        new_width = rw (length-assign new (hash_of key) key entry);
      }

  -- A key that is in neither table goes into the one that survives.
  pub push-Change :
      (entry : Entry) (old : Table)
      → IsLaid hash_of k index old none
      → find old (hash_of key) key ≡ none
      → Change hash_of k index key none
          (some entry)
          old
          none
          (push_slot old (slot_at (hash_of key) key entry))
          none
  push-Change entry old laid absent =
      let slot = slot_at (hash_of key) key entry in
      let within = bucket_index-lt k (hash_of key) (length old) laid.width in
      record {
        laid = push_slot-IsLaid hash_of k index old slot refl laid;
        held = rw absent;
        sums = λ w. omega (arith, weigh-push_slot w old slot within);
        answers = λ q. rw (find-push hash_of old key q within entry absent) (ground arith);
        old_width = length-push_slot old slot;
        new_width = refl;
      }

  pub push_new-Change :
      (entry : Entry) (old new : Table)
      → IsLaid hash_of k index old (some new)
      → find old (hash_of key) key ≡ none
      → find new (hash_of key) key ≡ none
      → Change hash_of k index key none
          (some entry)
          old
          (some new)
          old
          (some (push_slot new (slot_at (hash_of key) key entry)))
  push_new-Change entry old new laid absent_old absent =
      let slot = slot_at (hash_of key) key entry in
      let within = bucket_index-lt (suc k) (hash_of key) (length new) laid.growth.0 in
      record {
        laid = push_slot_new-IsLaid hash_of k index old new slot refl laid;
        held = rw absent_old absent;
        sums = λ w. omega (arith, weigh-push_slot w new slot within);
        answers = λ q.
            rw (find-push hash_of new key q within entry absent)
              (ground (arith, bytes_eq_iff key q, absent_old));
        old_width = refl;
        new_width = rw (length-push_slot new slot);
      }

  -- A removal from the old table. The key is not in the new one, since no key occurs twice.
  pub remove-Change :
      (x : Entry) (old : Table) (new : Option Table)
      → IsLaid hash_of k index old new
      → weigh_tables (at_key key) old new ≤ 1
      → find old (hash_of key) key ≡ some x
      → Change hash_of k index key (some x) none old new (remove_from old (hash_of key) key).1 new
  remove-Change x old new laid once found =
      let within = bucket_index-lt k (hash_of key) (length old) laid.width in
      record {
        laid = remove_from-IsLaid hash_of k index old new laid (hash_of key) key;
        held = rw found;
        sums = λ w. omega (arith, weigh-remove_from w old (hash_of key) key x within found);
        answers = λ q.
            rw (find-remove_from hash_of old key q within (omega arith))
              (ground (arith, bytes_eq_iff key q, only_old x old new once found));
        old_width = length-remove_from old (hash_of key) key;
        new_width = refl;
      }

  -- A removal from the new table.
  pub remove_new-Change :
      (x : Entry) (old new : Table)
      → IsLaid hash_of k index old (some new)
      → weigh_tables (at_key key) old (some new) ≤ 1
      → find old (hash_of key) key ≡ none
      → find new (hash_of key) key ≡ some x
      → Change hash_of k index key
          (some x)
          none
          old
          (some new)
          old
          (some (remove_from new (hash_of key) key).1)
  remove_new-Change x old new laid once absent found =
      let within = bucket_index-lt (suc k) (hash_of key) (length new) laid.growth.0 in
      record {
        laid = remove_from_new-IsLaid hash_of k index old new (hash_of key) key laid;
        held = rw absent found;
        sums = λ w. omega (arith, weigh-remove_from w new (hash_of key) key x within found);
        answers = λ q.
            rw (find-remove_from hash_of new key q within (omega arith))
              (ground (arith, bytes_eq_iff key q, absent));
        old_width = refl;
        new_width = rw (length-remove_from new (hash_of key) key);
      }
