-- ===== src/Dict/Operations.antt =====
-- `set_deadline`, `touch`, `insert` and `remove` of dict.rs, once a rehash in flight has moved on:
-- each keeps the invariant and changes one key.
use seedstone.Base.{
  ℕ, ◌+◌, ◌%◌, ◌^◌, ◌≤◌, ◌≡◌, refl, Bool, Bytes, bytes_eq, some, none, arith, Option, Option-cases,
  inl, inr, if◌then◌else◌, true, false, ◌||◌, is_some, to_nat, ◌∙◌, sym,
}
use seedstone.Dict.{
  Dict, hash_key, get, find_entry, write_entry, push_entry, set_deadline, touch, place_entry,
}
use seedstone.Dict.Buckets.{Entry, entry_bytes}
use seedstone.Dict.Weigh.{slot_at, Weight}
use seedstone.Dict.Change.{Change}
use seedstone.Dict.Valid.{IsValid, total, dated_of, bytes_of}
use seedstone.Dict.Figures.{Figures, Change-IsValid, Change-get}
use seedstone.Dict.Writes.{
  write_entry-SameFields, push_entry-SameFields, write_entry-Change, push_entry-Change,
  remove_tables-Change,
}

module _ (sip_hash : ℕ → ℕ → Bytes → ℕ) (k : ℕ) where
  -- The invariant after a step, and its answers: `after` at the key, and no other changed.
  pub record Updates (d : Dict) (key : Bytes) (after : Option Entry) (d' : Dict) : Type 0 where
    pub valid : IsValid sip_hash k d'
    pub answers :
        (q : Bytes) → get sip_hash d' q ≡ (if bytes_eq key q then after else get sip_hash d q)

  pub Updates-Change :
      (d : Dict) (key : Bytes) (before after : Option Entry) (d' : Dict)
      → IsValid sip_hash k d
      → Change
          (hash_key sip_hash d.seed)
          k
          d.rehash_index
          key
          before
          after
          d.old
          d.new
          d'.old
          d'.new
      → Figures sip_hash k d d' key before after
      → Updates d key after d'
  Updates-Change d key before after d' valid change figures = record {
    valid = Change-IsValid sip_hash k d d' key before after valid change figures;
    answers = Change-get sip_hash k d d' key before after change figures;
  }

  flagged_or :
      (flag dated : Bool) (n : ℕ)
      → (flag ≡ false → n ≡ 0)
      → (flag || dated) ≡ false
      → n + to_nat dated ≡ 0
  flagged_or true dated n h off = cc
  flagged_or false true n h off = cc
  flagged_or false false n h off = omega (arith, h refl)

  module _ (d : Dict) (valid : IsValid sip_hash k d) (key : Bytes) where
    abbrev hash : ℕ
    hash = hash_key sip_hash d.seed key

    -- What the key holds is part of every sum.
    held-le-total :
        (x : Entry)
        → find_entry d hash key ≡ some x
        → (w : Weight) → w (slot_at hash key x) ≤ total w d
    held-le-total x found w = omega (
      arith,
      (remove_tables-Change (hash_key sip_hash d.seed) k key d valid.laid x (valid.unique key)
            found).sums
          w,
    )

    -- An overwrite after which the figures are right.
    write-Updates :
        (flag : Bool) (used dated clock : ℕ) (x entry : Entry)
        → find_entry d hash key ≡ some x
        → used + entry_bytes key x.value ≡ d.used_bytes + entry_bytes key entry.value
        → dated + to_nat (is_some x.expires_at)
          ≡ d.with_deadline + to_nat (is_some entry.expires_at)
        → (flag ≡ false → dated ≡ 0)
        → Updates d key (some entry) (
            write_entry
              (record d {
                may_hold_deadlines = flag;
                used_bytes = used;
                with_deadline = dated;
                clock = clock;
              })
              hash
              key
              entry)
    unfolding find_entry
    write-Updates flag used dated clock x entry found bytes deadlines flagged =
        let base = record d {
          may_hold_deadlines = flag;
          used_bytes = used;
          with_deadline = dated;
          clock = clock;
        } in
        let same = write_entry-SameFields base hash key entry in
        Updates-Change d key (some x) (some entry) (write_entry base hash key entry) valid
          (write_entry-Change (hash_key sip_hash d.seed) k key base valid.laid x entry found)
          (record {
            seed = same.seed;
            index = same.rehash_index;
            len = omega (arith, same.len);
            used_bytes = omega (arith, same.used_bytes, bytes);
            with_deadline = omega (arith, same.with_deadline, deadlines);
            flagged = λ off. same.with_deadline ∙ flagged (sym same.may_hold_deadlines ∙ off);
          })

    place_entry_new-Updates :
        (entry : Entry)
        → find_entry d hash key ≡ none
        → Updates d key (some entry) (place_entry sip_hash d key entry)
    unfolding place_entry find_entry
    place_entry_new-Updates entry absent =
        let base = record d {
          len = d.len + 1;
          may_hold_deadlines = d.may_hold_deadlines || is_some entry.expires_at;
          used_bytes = d.used_bytes + entry_bytes key entry.value;
          with_deadline = d.with_deadline + to_nat (is_some entry.expires_at);
        } in
        let slot = slot_at hash key entry in
        let same = push_entry-SameFields base d.new slot in
        rw (absent, place_entry)
          (Updates-Change d key none (some entry) (push_entry base d.new slot) valid
            (push_entry-Change (hash_key sip_hash d.seed) k key base valid.laid d.new entry refl
              absent)
            (record {
              seed = same.seed;
              index = same.rehash_index;
              len = omega (arith, same.len);
              used_bytes = omega (arith, same.used_bytes);
              with_deadline = omega (arith, same.with_deadline);
              flagged = λ off.
                  same.with_deadline
                  ∙ flagged_or d.may_hold_deadlines (is_some entry.expires_at) d.with_deadline
                      valid.flagged (sym same.may_hold_deadlines ∙ off);
            }))

    place_entry_old-Updates :
        (entry x : Entry)
        → find_entry d hash key ≡ some x
        → Updates d key (some entry) (place_entry sip_hash d key entry)
    unfolding place_entry
    place_entry_old-Updates entry x found =
        let held = held-le-total x found in
        rw (found, place_entry)
          (write-Updates _ _ _ d.clock x entry found (omega (arith, held bytes_of, valid.accounted))
            (omega (arith, held dated_of, valid.dated))
            (λ off. omega (
              arith,
              flagged_or d.may_hold_deadlines (is_some entry.expires_at) d.with_deadline
                  valid.flagged off,
            )))

    -- `insert` after its first lines: the key holds the entry.
    pub place_entry-Updates :
        (entry : Entry) → Updates d key (some entry) (place_entry sip_hash d key entry)
    place_entry-Updates entry = elim (Option-cases (find_entry d hash key)) [
      | inl absent ↦ place_entry_new-Updates entry absent
      | inr (x, found) ↦ place_entry_old-Updates entry x found
    ]

    pub set_deadline-Updates :
        (expires_at : Option ℕ) (x : Entry)
        → get sip_hash d key ≡ some x
        → Updates d key
            (some (record x { expires_at = expires_at }))
            (set_deadline sip_hash d key expires_at).1
          × ((set_deadline sip_hash d key expires_at).0 ≡ true)
    unfolding set_deadline get
    set_deadline-Updates expires_at x found =
        let held = held-le-total x found in
        rw (found, set_deadline)
          (
            write-Updates _ _ _ d.clock x (record x { expires_at = expires_at }) found refl
                (omega (arith, held dated_of, valid.dated))
                (λ off. omega (
                  arith,
                  flagged_or d.may_hold_deadlines (is_some expires_at) d.with_deadline valid.flagged
                      off,
                )),
            refl,
          )

    pub touch-Updates :
        (x : Entry)
        → get sip_hash d key ≡ some x
        → Updates d key
            (some (record x { touched = (d.clock + 1) % 2 ^ 32 }))
            (touch sip_hash d key)
    unfolding touch get
    touch-Updates x found =
        rw (found, touch)
          (write-Updates d.may_hold_deadlines d.used_bytes d.with_deadline ((d.clock + 1) % 2 ^ 32)
            x (record x { touched = (d.clock + 1) % 2 ^ 32 }) found refl refl valid.flagged)
