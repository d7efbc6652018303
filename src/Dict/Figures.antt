-- ===== src/Dict/Figures.antt =====
-- What a change of one key does to the invariant of a keyspace.
use seedstone.Base.{
  ℕ, ◌+◌, ◌≤◌, ◌≡◌, Bytes, bytes_eq, bytes_eq_iff, some, none, arith, Option, if◌then◌else◌, false,
}
use seedstone.Dict.{Dict, get, hash_key}
use seedstone.Dict.Buckets.{Entry, Table}
use seedstone.Dict.Weigh.{at_key}
use seedstone.Dict.Placed.{missing}
use seedstone.Dict.Tables.{weigh_tables, find_tables, IsLaid}
use seedstone.Dict.Change.{part, Change}
use seedstone.Dict.Valid.{one_entry, bytes_of, dated_of, IsValid}

module _ (hash_of : Bytes → ℕ) (k index : ℕ) (key : Bytes) where
  -- A key that is not found occurs nowhere.
  not_found :
      (old : Table) (new : Option Table)
      → IsLaid hash_of k index old new
      → find_tables old new (hash_of key) key ≡ none
      → weigh_tables (at_key key) old new ≡ 0
  not_found old none laid absent = omega (arith, missing hash_of old key laid.placed (ground arith))
  not_found old (some new) laid absent = omega (
    arith,
    missing hash_of old key laid.placed (ground arith),
    missing hash_of new key laid.growth.1 (ground arith),
  )

  -- A change leaves every key where it was at most once.
  still_once :
      (before after : Option Entry) (old : Table) (new : Option Table) (old' : Table)
      (new' : Option Table)
      → IsLaid hash_of k index old new
      → ((q : Bytes) → weigh_tables (at_key q) old new ≤ 1)
      → Change hash_of k index key before after old new old' new'
      → (q : Bytes) → weigh_tables (at_key q) old' new' ≤ 1
  still_once (some x) none old new old' new' laid once change q =
      omega (arith, change.sums (at_key q), once q)
  still_once (some x) (some y) old new old' new' laid once change q =
      omega (arith, change.sums (at_key q), once q)
  still_once none none old new old' new' laid once change q =
      omega (arith, change.sums (at_key q), once q)
  still_once none (some y) old new old' new' laid once change q = ground (
    arith,
    change.sums (at_key q),
    once q,
    bytes_eq_iff key q,
    not_found old new laid change.held,
  )

-- The figures of the keyspace after a change, where they move by what the key's entry adds.
module _ (sip_hash : ℕ → ℕ → Bytes → ℕ) (k : ℕ) (d d' : Dict) (key : Bytes)
    (before after : Option Entry) where
  abbrev hash_of : Bytes → ℕ
  hash_of = hash_key sip_hash d.seed

  -- The length, the bytes and the dated entries move by what the key's entry adds.
  pub record Figures : Type 0 where
    pub seed : d'.seed ≡ d.seed
    pub index : d'.rehash_index ≡ d.rehash_index
    pub len :
        d'.len + part one_entry (hash_of key) key before
        ≡ d.len + part one_entry (hash_of key) key after
    pub used_bytes :
        d'.used_bytes + part bytes_of (hash_of key) key before
        ≡ d.used_bytes + part bytes_of (hash_of key) key after
    pub with_deadline :
        d'.with_deadline + part dated_of (hash_of key) key before
        ≡ d.with_deadline + part dated_of (hash_of key) key after
    pub flagged : d'.may_hold_deadlines ≡ false → d'.with_deadline ≡ 0

  pub Change-IsValid :
      IsValid sip_hash k d
      → Change hash_of k d.rehash_index key before after d.old d.new d'.old d'.new
      → Figures
      → IsValid sip_hash k d'
  Change-IsValid valid change figures = record {
    laid = rw (figures.seed, figures.index) change.laid;
    unique =
        still_once hash_of k d.rehash_index key before after d.old d.new d'.old d'.new valid.laid
          valid.unique change;
    counted = omega (arith, change.sums one_entry, valid.counted, figures.len);
    accounted = omega (
      arith,
      change.sums bytes_of,
      valid.accounted,
      figures.used_bytes,
      change.old_width,
      change.new_width,
    );
    dated = omega (arith, change.sums dated_of, valid.dated, figures.with_deadline);
    flagged = figures.flagged;
  }

  -- After a change `get` answers `after` at the key, and as before at any other.
  pub Change-get :
      Change hash_of k d.rehash_index key before after d.old d.new d'.old d'.new
      → Figures
      → (q : Bytes) → get sip_hash d' q ≡ (if bytes_eq key q then after else get sip_hash d q)
  unfolding get
  Change-get change figures q = rw figures.seed (change.answers q)
