-- ===== src/Sweep/Candidates.antt =====
-- What an eviction sample finds is in the keyspace: `scan` visits only slots whose keys `get` finds.
use native.Mathlib.Nat.{pow-le-pow_right}
use native.Mathlib.Decide.{ℕ_discrete}
use seedstone.Base.{
  false, ℕ, zero, suc, ◌+◌, ◌^◌, ◌<◌, ◌≡◌, ◌≢◌, refl, sym, ap, subst, arith, ltb, true, false≢true,
  Bytes, Option, none, some, [], ◌∷◌, ◌++◌, length, bit_and, bit_xor, ◌==◌, Bool-cases, inl, inr,
  ==_refl, bytes_eq_refl, All, All-append, some-inj, is_some, get_or, Option-cases,
}
use seedstone.Dict.{Dict, hash_key, get, find_entry}
use seedstone.Dict.Buckets.{Bucket, Slot, Table, bucket_index, find, find_slot, matches}
use seedstone.Dict.Placed.{IsPlaced}
use seedstone.Dict.Valid.{IsValid}
use seedstone.Walk.{
  mask_of, visit_bucket, visit_expansion, scan_tables, scan_in_order, scan, reverse_increment,
  WalkOrder,
}
use seedstone.Walk.Anywhere.{scan_returns}
use seedstone.Walk.Expansion.{nonzero_test}
use seedstone.Sweep.Eviction.{Allowed, meet-Allowed}
use seedstone.Sweep.{is_spared, older, meet, key_of, sample, sample_oldest, new_length}

module _ (bucket : Bucket) where
  -- The bucket answers the key of a slot.
  abbrev Answers : Slot → Type 0
  Answers slot = is_some (find_slot bucket slot.hash slot.key) ≡ true

All-there :
    (s : Slot) (whole bucket : Bucket)
    → All (Answers whole) bucket
    → All (Answers (s ∷ whole)) bucket
unfolding find_slot
All-there s whole [] h = tt
All-there s whole (slot ∷ rest) (h, hs) = (
  elim (Bool-cases (matches s slot.hash slot.key)) [ inl e ↦ rw e refl | inr e ↦ rw e h ],
  All-there s whole rest hs,
)

All-Answers : (bucket : Bucket) → All (Answers bucket) bucket
unfolding find_slot matches
All-Answers [] = tt
All-Answers (slot ∷ rest) = (
  rw (==_refl slot.hash, bytes_eq_refl slot.key) refl,
  All-there slot rest rest (All-Answers rest),
)

module _ (sip_hash : ℕ → ℕ → Bytes → ℕ) (k : ℕ) (d : Dict) (valid : IsValid sip_hash k d) where
  abbrev hash_of : Bytes → ℕ
  hash_of = hash_key sip_hash d.seed

  -- The slot's key is in the keyspace.
  abbrev pub IsPresent : Slot → Type 0
  IsPresent slot = is_some (get sip_hash d slot.key) ≡ true

  module _ (table : Table) (placed : IsPlaced hash_of table)
      (seen : (key : Bytes)
        → is_some (find table (hash_of key) key) ≡ true
        → is_some (get sip_hash d key) ≡ true) where
    bucket-IsPresent :
        (i : ℕ) (bucket : Bucket)
        → All
            (λ (s : Slot). (s.hash ≡ hash_of s.key) × (bucket_index s.hash (length table) ≡ i))
            bucket
        → All (Answers (get_or table i [])) bucket
        → All IsPresent bucket
    unfolding find
    bucket-IsPresent i [] home here = tt
    bucket-IsPresent i (s ∷ rest) ((hashed, at), home) (here, more) = (
      seen s.key (
          subst
            (λ h.
              is_some (find_slot (get_or table (bucket_index h (length table)) []) h s.key) ≡ true)
            hashed
            (subst (λ j. is_some (find_slot (get_or table j []) s.hash s.key) ≡ true) (sym at)
              here)),
      bucket-IsPresent i rest home more,
    )

    visit_bucket-IsPresent : (cursor : ℕ) → All IsPresent (visit_bucket table cursor)
    unfolding visit_bucket
    visit_bucket-IsPresent cursor =
        let i = bit_and cursor (mask_of table) in
        bucket-IsPresent i (get_or table i []) (placed.at i) (All-Answers (get_or table i []))

    visit_expansion-IsPresent :
        (fuel : ℕ) (advance : WalkOrder) (small v next : ℕ) (visited : Bucket)
        → visit_expansion fuel advance table small v ≡ some (next, visited)
        → All IsPresent visited
    unfolding visit_expansion
    visit_expansion-IsPresent zero advance small v next visited h =
        absurd (false≢true (ap is_some h))
    visit_expansion-IsPresent (suc fuel) advance small v next visited h =
        let after = advance v (mask_of table) in
        elim (Bool-cases (bit_and after (bit_xor small (mask_of table)) == 0)) [
          | inl last ↦
              let same : visit_bucket table v ≡ visited =
                (let found = rw (last, visit_expansion) at h in cc) in
              subst (λ b. All IsPresent b) same (visit_bucket-IsPresent v)
          | inr goes ↦ elim (Option-cases (visit_expansion fuel advance table small after)) [
            | inl stuck ↦ absurd (false≢true (ap is_some (rw (goes, stuck, visit_expansion) at h)))
            | inr ((n, rest), ran) ↦
                let same : visit_bucket table v ++ rest ≡ visited =
                  (let found = rw (goes, ran, visit_expansion) at h in cc) in
                subst (λ b. All IsPresent b) same
                  (All-append IsPresent (visit_bucket table v) rest (visit_bucket-IsPresent v)
                    (visit_expansion-IsPresent fuel advance small after n rest ran))
          ]
        ]

  old_seen :
      (key : Bytes)
      → is_some (find d.old (hash_of key) key) ≡ true
      → is_some (get sip_hash d key) ≡ true
  unfolding get find_entry
  old_seen key h = elim (Option-cases (find d.old (hash_of key) key)) [
    | inl e ↦ absurd (false≢true (rw e at h))
    | inr (x, e) ↦ rw e refl
  ]

  new_seen :
      (new : Table)
      → d.new ≡ some new
      → (key : Bytes) → is_some (find new (hash_of key) key) ≡ true
      → is_some (get sip_hash d key) ≡ true
  unfolding get find_entry
  new_seen new e key h = elim (Option-cases (find d.old (hash_of key) key)) [
    | inl absent ↦ rw (absent, e) h
    | inr (x, found) ↦ rw found refl
  ]

  scan_tables-IsPresent :
      (new : Option Table) (advance : WalkOrder) (cursor next : ℕ) (visited : Bucket)
      → d.new ≡ new
      → scan_tables advance d.old new cursor ≡ some (next, visited)
      → All IsPresent visited
  unfolding scan_tables
  scan_tables-IsPresent none advance cursor next visited e h =
      let same : visit_bucket d.old cursor ≡ visited = cc in
      subst (λ b. All IsPresent b) same
        (visit_bucket-IsPresent d.old valid.laid.placed old_seen cursor)
  scan_tables-IsPresent (some new) advance cursor next visited e h =
      let (wide, placed, drained, more) = rw e at valid.laid.growth in
      elim (Option-cases (visit_expansion (length new) advance new (mask_of d.old) cursor)) [
        | inl stuck ↦ absurd (false≢true (ap is_some (rw (stuck, scan_tables) at h)))
        | inr ((n, rest), ran) ↦
            let same : visit_bucket d.old cursor ++ rest ≡ visited =
              (let found = rw (ran, scan_tables) at h in cc) in
            subst (λ b. All IsPresent b) same
              (All-append IsPresent (visit_bucket d.old cursor) rest
                (visit_bucket-IsPresent d.old valid.laid.placed old_seen cursor)
                (visit_expansion-IsPresent new placed (new_seen new e) (length new) advance
                  (mask_of d.old) cursor n rest ran))
      ]

  scan-IsPresent :
      (cursor next : ℕ) (visited : Bucket)
      → d.len ≢ 0
      → scan d cursor ≡ some (next, visited)
      → All IsPresent visited
  unfolding scan scan_in_order
  scan-IsPresent cursor next visited filled h =
      scan_tables-IsPresent d.new reverse_increment cursor next visited refl
        (rw (nonzero_test d.len (omega arith), scan, scan_in_order) at h)

  -- The candidate's key is in the keyspace.
  abbrev IsFound : Option (ℕ × Bytes) → Type 0
  IsFound oldest = (key : Bytes) → key_of oldest ≡ some key → is_some (get sip_hash d key) ≡ true

  older-IsFound :
      (oldest : Option (ℕ × Bytes)) (slot : Slot)
      → IsPresent slot
      → IsFound oldest
      → IsFound (older oldest slot)
  unfolding older
  older-IsFound none slot here found key e = rw (← some-inj e) here
  older-IsFound (some (stamp, k)) slot here found key e =
      elim (Bool-cases (ltb slot.entry.touched stamp)) [
        | inl less ↦ rw (← some-inj {a = slot.key} (rw less at e)) here
        | inr more ↦ found key (rw more at e)
      ]

  meet-IsFound :
      (spared : Option Bytes) (visited : Bucket) (seen : ℕ) (oldest : Option (ℕ × Bytes))
      → All IsPresent visited
      → IsFound oldest
      → IsFound (meet spared visited seen oldest).1
  unfolding meet
  meet-IsFound spared [] seen oldest here found = found
  meet-IsFound spared (slot ∷ rest) seen oldest (here, more) found =
      elim (Bool-cases (is_spared spared slot.key)) [
        | inl e ↦ rw (meet, e) (meet-IsFound spared rest seen oldest more found)
        | inr e ↦
            rw (meet, e)
              (meet-IsFound spared rest (seen + 1) (older oldest slot) more
                (older-IsFound oldest slot here found))
      ]

  module _ (small : k < 64) where
    -- What a sample answers: a cursor of 64 bits, and no victim or one that is in the keyspace and is
    -- not the spared key.
    abbrev pub Sampled : Option Bytes → Option (ℕ × Option Bytes) → Type 0
    Sampled spared result =
        (next : ℕ) × (victim : Option Bytes) × (result ≡ some (next, victim))
        × (next < 2 ^ 64)
        × ((key : Bytes) → victim ≡ some key → is_some (get sip_hash d key) ≡ true)
        × ((key : Bytes) → victim ≡ some key → is_spared spared key ≡ false)

    sample-Sampled :
        (steps samples : ℕ) (spared : Option Bytes) (cursor seen : ℕ) (oldest : Option (ℕ × Bytes))
        → d.len ≢ 0
        → cursor < 2 ^ 64
        → IsFound oldest
        → Allowed spared oldest
        → Sampled spared (sample steps samples spared d cursor seen oldest)
    unfolding sample
    sample-Sampled zero samples spared cursor seen oldest filled word found allowed =
        (cursor, key_of oldest, refl, word, found, allowed)
    sample-Sampled (suc steps) samples spared cursor seen oldest filled word found allowed =
        elim (Bool-cases (ltb seen samples)) [
          | inr enough ↦ (cursor, key_of oldest, rw (sample, enough) refl, word, found, allowed)
          | inl wanting ↦
              let (after, visited, scanned, lower) =
                scan_returns sip_hash k d valid small cursor word in
              let met = meet spared visited seen oldest in
              let word1 : after < 2 ^ 64 =
                omega
                  (arith, pow-le-pow_right {n = 2} (omega arith) {i = k} {j = 64} (omega arith)) in
              let (next, victim, ran, fits, fine, spares) =
                sample-Sampled steps samples spared after met.0 met.1 filled word1
                  (meet-IsFound spared visited seen oldest
                    (scan-IsPresent cursor after visited filled scanned) found)
                  (meet-Allowed spared visited seen oldest allowed) in
              (next, victim, rw (sample, wanting, scanned) ran, fits, fine, spares)
        ]

    -- In a sound keyspace of 2^k buckets, k below 64, a sample returns from every cursor of 64
    -- bits, with such a cursor again, and its victim is in the keyspace and is not spared.
    pub sample_oldest-Sampled :
        (cursor samples : ℕ) (spared : Option Bytes)
        → cursor < 2 ^ 64
        → Sampled spared (sample_oldest d cursor samples spared)
          × (d.len ≡ 0 → sample_oldest d cursor samples spared ≡ some (cursor, none))
    sample_oldest-Sampled cursor samples spared word = (
      elim (ℕ_discrete d.len 0) [
        | yes empty ↦ (
          cursor,
          none,
          unfold sample_oldest in rw empty refl,
          word,
          λ key e. absurd (false≢true (ap is_some e)),
          λ key e. absurd (false≢true (ap is_some e)),
        )
        | no filled ↦
            let steps = length d.old + new_length d.new in
            let (next, victim, ran, fits, fine, spares) =
              sample-Sampled steps samples spared cursor 0 none filled word
                (λ key e. absurd (false≢true (ap is_some e)))
                (λ key e. absurd (false≢true (ap is_some e))) in
            (
              next,
              victim,
              unfold sample_oldest in rw (nonzero_test d.len (omega arith)) ran,
              fits,
              fine,
              spares,
            )
      ],
      λ empty. unfold sample_oldest in rw empty refl,
    )
