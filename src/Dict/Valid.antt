-- ===== src/Dict/Valid.antt =====
-- The invariant of a keyspace, and the lemmas on its parts that every operation is made of.
use seedstone.Base.{
  ℕ, ◌+◌, ◌≤◌, ◌≡◌, refl, Bool, Bytes, some, none, length, Option, false, is_some, to_nat,
}
use seedstone.Dict.{Dict, hash_key, get}
use seedstone.Dict.Buckets.{Table, entry_bytes, table_bytes}
use seedstone.Dict.Weigh.{Weight, at_key}
use seedstone.Dict.Tables.{weigh_tables, find_tables, IsLaid}

-- What one slot adds to each of the figures that the keyspace maintains.
abbrev pub one_entry : Weight
one_entry slot = 1

abbrev pub bytes_of : Weight
bytes_of slot = entry_bytes slot.key slot.entry.value

abbrev pub dated_of : Weight
dated_of slot = to_nat (is_some slot.entry.expires_at)

abbrev pub new_bytes : Option Table → ℕ
new_bytes none = 0
new_bytes (some new) = table_bytes (length new)

abbrev pub total : Weight → Dict → ℕ
total w d = weigh_tables w d.old d.new

-- Every slot stands where its hash says, no key occurs twice, and the figures `len`, `used_bytes`
-- and `with_deadline` are those of a full recount. `k` is the logarithm of the old table's width.
pub record IsValid (sip_hash : ℕ → ℕ → Bytes → ℕ) (k : ℕ) (d : Dict) : Type 0 where
  pub laid : IsLaid (hash_key sip_hash d.seed) k d.rehash_index d.old d.new
  pub unique : (key : Bytes) → total (at_key key) d ≤ 1
  pub counted : d.len ≡ total one_entry d
  pub accounted : d.used_bytes ≡ total bytes_of d + (table_bytes (length d.old) + new_bytes d.new)
  pub dated : d.with_deadline ≡ total dated_of d
  pub flagged : d.may_hold_deadlines ≡ false → d.with_deadline ≡ 0

-- The flag may be raised and the clock moved at any time.
pub IsValid-flag :
    (sip_hash : ℕ → ℕ → Bytes → ℕ) (k : ℕ) (d : Dict) (flag : Bool) (clock : ℕ)
    → (flag ≡ false → d.with_deadline ≡ 0)
    → IsValid sip_hash k d
    → IsValid sip_hash k (record d { may_hold_deadlines = flag; clock = clock })
IsValid-flag sip_hash k d flag clock flagged valid = record {
  laid = valid.laid;
  unique = valid.unique;
  counted = valid.counted;
  accounted = valid.accounted;
  dated = valid.dated;
  flagged = flagged;
}

-- `get`, at the two tables.
pub get-eq-find_tables :
    (sip_hash : ℕ → ℕ → Bytes → ℕ) (d : Dict) (key : Bytes)
    → get sip_hash d key ≡ find_tables d.old d.new (hash_key sip_hash d.seed key) key
unfolding get
get-eq-find_tables sip_hash d key = refl
