-- ===== src/Shard/Executor/Removed.antt =====
-- What one round of an eviction removes, of crates/seedstone-core/src/shard/executor.rs and
-- crates/seedstone-core/src/dict.rs: one key fewer, and no more bytes.
use native.Mathlib.Nat.{pow-le-pow_right}
use seedstone.Base.{
  ℕ, ◌+◌, ◌-◌, ◌^◌, ◌<◌, ◌≤◌, ltb, ◌≡◌, ◌∙◌, arith, min, true, false≢true, Bytes, bytes_eq, Option,
  none, some, length, is_some, ◌≢◌, Bool-cases, Option-cases, inl, inr,
}
use seedstone.Dict
use seedstone.Dict.{
  Dict, hash_key, get, rehash_tables, rehash_step, advance_rehash, finish_rehash, remove_tables,
  settle_removal, remove_entry, migrate,
}
use seedstone.Dict.Buckets.{Entry, Table}
use seedstone.Dict.Growth.{IsSound}
use seedstone.Dict.Refines.{advance_rehash-Same, remove_lem}
use seedstone.Dict.Valid.{IsValid}
use seedstone.Dict.Writes.{remove_tables-SameFields, remove_tables-find}
use seedstone.Shard.State.{ShardState}
use seedstone.Shard.Meaning.Writes.{IsWritable}

finish_rehash-used : (d : Dict) (new : Table) → (finish_rehash d new).used_bytes ≤ d.used_bytes
unfolding finish_rehash
finish_rehash-used d new = ground arith

rehash_tables-used :
    (d : Dict) (new : Option Table) → (rehash_tables 1 d new).used_bytes ≤ d.used_bytes
unfolding rehash_tables
rehash_tables-used d none = omega arith
rehash_tables-used d (some new) =
    let end = min (d.rehash_index + 1) (length d.old) in
    let tables = migrate (end - d.rehash_index) d.rehash_index d.old new in
    finish_rehash-used (record d { old = tables.0; rehash_index = end }) tables.1

advance_rehash-used : (d : Dict) → (advance_rehash d).used_bytes ≤ d.used_bytes
unfolding advance_rehash rehash_step
advance_rehash-used d = elim (Bool-cases (is_some d.new)) [
  | inl e ↦ rw e (rehash_tables-used d d.new)
  | inr e ↦ rw e (omega arith)
]

module _ (sip_hash : ℕ → ℕ → Bytes → ℕ) where
  remove_entry-figures :
      (k : ℕ) (d : Dict) (key : Bytes) (x : Entry)
      → IsValid sip_hash k d
      → get sip_hash d key ≡ some x
      → ((remove_entry sip_hash d key).1.len ≡ d.len - 1)
        × ((remove_entry sip_hash d key).1.used_bytes ≤ d.used_bytes)
  unfolding remove_entry settle_removal get
  remove_entry-figures k d key x valid found =
      let same = remove_tables-SameFields d (hash_key sip_hash d.seed key) key in
      let taken = remove_tables-find (hash_key sip_hash d.seed) k key d valid.laid ∙ found in
      rw (taken, remove_entry) (omega (arith, same.len), omega (arith, same.used_bytes))

  -- The removal of a key that is there: one key fewer, and no more bytes.
  remove-figures :
      (d : Dict) (key : Bytes) (x : Entry)
      → IsSound sip_hash d
      → get sip_hash d key ≡ some x
      → ((Dict.remove sip_hash d key).1.len ≡ d.len - 1)
        × ((Dict.remove sip_hash d key).1.used_bytes ≤ d.used_bytes)
  unfolding Dict.remove
  remove-figures d key x sound found =
      let same = advance_rehash-Same sip_hash d sound in
      let (k, valid) = same.sound in
      let (fewer, less) =
        remove_entry-figures k (advance_rehash d) key x valid (same.answers key ∙ found) in
      (omega (arith, fewer, same.len), omega (arith, less, advance_rehash-used d))

  -- The figure of used bytes bounds the width of the tables.
  pub narrow : (k : ℕ) (d : Dict) → IsValid sip_hash k d → d.used_bytes < 2 ^ 64 → k < 64
  narrow k d valid fits = elim (Bool-cases (ltb k 64)) [
    | inl e ↦ ground (arith, e)
    | inr e ↦
        let wide : 2 ^ 64 ≤ 2 ^ k =
          pow-le-pow_right {n = 2} (omega arith) {i = 64} {j = k} (ground (arith, e)) in
        absurd (omega (arith, wide, valid.accounted, valid.laid.width))
  ]

  remove-short :
      (d : Dict) (key : Bytes)
      → IsSound sip_hash d
      → ((q : Bytes) → is_some (get sip_hash d q) ≡ true → IsWritable q)
      → (q : Bytes) → is_some (get sip_hash (Dict.remove sip_hash d key).1 q) ≡ true
      → IsWritable q
  remove-short d key sound short q here =
      let (sound1, taken, answers) = remove_lem sip_hash d key sound in
      elim (Bool-cases (bytes_eq key q)) [
        | inl e ↦ absurd (false≢true (rw (answers q, e) at here))
        | inr e ↦ short q (rw (answers q, e) at here)
      ]

module _ (sip_hash : ℕ → ℕ → Bytes → ℕ) {L : Type 0} where
  -- A shard that an eviction can work on: its keyspace is sound, its bytes and its cursor are
  -- counted in 64 bits, and its keys are shorter than 2^32 bytes, so that the log can write them.
  pub record IsEvictable (s : ShardState L) : Type 0 where
    pub sound : IsSound sip_hash s.dict
    pub counted : s.dict.used_bytes < 2 ^ 64
    pub word : s.evict_cursor < 2 ^ 64
    pub short : (q : Bytes) → is_some (get sip_hash s.dict q) ≡ true → IsWritable q

  pub removed-IsEvictable :
      (s t : ShardState L) (key : Bytes)
      → IsEvictable s
      → t.evict_cursor < 2 ^ 64
      → s.dict.len ≢ 0
      → is_some (get sip_hash s.dict key) ≡ true
      → t.dict ≡ (Dict.remove sip_hash s.dict key).1
      → IsEvictable t × (t.dict.len + 1 ≡ s.dict.len)
  removed-IsEvictable s t key h word filled present same =
      elim (Option-cases (get sip_hash s.dict key)) [
        | inl absent ↦ absurd (false≢true (rw absent at present))
        | inr (x, found) ↦
            let (fewer, less) = remove-figures sip_hash s.dict key x h.sound found in
            (
              record {
                sound = rw same (remove_lem sip_hash s.dict key h.sound).0;
                counted = rw same (omega (arith, less, h.counted));
                word = word;
                short = rw same (remove-short sip_hash s.dict key h.sound h.short);
              },
              rw same (omega (arith, fewer, filled)),
            )
      ]
