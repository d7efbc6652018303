-- ===== src/Dict/Tables.antt =====
-- The one or two tables of a keyspace together: their layout, the sums over their slots and the
-- answers that they give, after each kind of write.
use native.Mathlib.Decide.{ℕ_discrete}
use seedstone.Base.{
  ℕ, suc, ◌+◌, ◌^◌, ◌<◌, ◌≡◌, refl, ◌∙◌, Bytes, some, none, [], length, get_or, get_or-set_self,
  get_or-set_ne, Option, Option-cases, inl, inr, or_else,
}
use seedstone.Dict.{find_new, assign_new}
use seedstone.Dict.Buckets.{
  Entry, Slot, Table, bucket_index, find_slot, find, assign, assign_slot, remove_from, push_slot,
  bucket_of, erase_slot,
}
use seedstone.Dict.Weigh.{Weight, weigh}
use seedstone.Dict.Placed.{
  IsPlaced, bucket_index-lt, assign-IsPlaced, remove_from-IsPlaced, push_slot-IsPlaced,
}
use seedstone.Dict.Totals.{length-assign, length-remove_from, length-push_slot}

abbrev pub weigh_new : Weight → Option Table → ℕ
weigh_new w none = 0
weigh_new w (some new) = weigh w new

abbrev pub weigh_tables : Weight → Table → Option Table → ℕ
weigh_tables w old new = weigh w old + weigh_new w new

abbrev pub find_tables : Table → Option Table → ℕ → Bytes → Option Entry
find_tables old new hash key = or_else (find old hash key) (find_new new hash key)

abbrev pub Drained : ℕ → Table → Type 0
Drained index old = (i : ℕ) → i < index → get_or old i [] ≡ []

module _ (hash_of : Bytes → ℕ) where
  -- The table to migrate into is twice as wide, and the migration has not reached the end.
  abbrev pub IsNew : ℕ → ℕ → Table → Option Table → Type 0
  IsNew k index old none = Unit {0}
  IsNew k index old (some new) =
      (length new ≡ 2 ^ suc k) × IsPlaced hash_of new × Drained index old × (index < length old)

  pub record IsLaid (k index : ℕ) (old : Table) (new : Option Table) : Type 0 where
    pub width : length old ≡ 2 ^ k
    pub placed : IsPlaced hash_of old
    pub growth : IsNew k index old new

  module _ (k index : ℕ) (old : Table) (key : Bytes) where
    -- A write to the old table that leaves empty buckets empty.
    IsNew-old :
        (old' : Table) (new : Option Table)
        → length old' ≡ length old
        → ((i : ℕ) → get_or old i [] ≡ [] → get_or old' i [] ≡ [])
        → IsNew k index old new
        → IsNew k index old' new
    IsNew-old old' none width keeps h = tt
    IsNew-old old' (some new) width keeps (wide, placed, drained, more) =
        (wide, placed, λ i b. keeps i (drained i b), rw width more)

    assign_keeps_empty :
        (hash : ℕ) (entry : Entry)
        → bucket_index hash (length old) < length old
        → (i : ℕ) → get_or old i [] ≡ []
        → get_or (assign old hash key entry) i [] ≡ []
    unfolding assign assign_slot
    assign_keeps_empty hash entry within i e =
        elim (ℕ_discrete (bucket_index hash (length old)) i) [
          | yes here ↦ rw (here, e, get_or-set_self old i [] [] (rw here at within)) refl
          | no ne ↦ get_or-set_ne old (bucket_index hash (length old)) i _ [] ne ∙ e
        ]

    remove_from_keeps_empty :
        (hash : ℕ)
        → bucket_index hash (length old) < length old
        → (i : ℕ) → get_or old i [] ≡ []
        → get_or (remove_from old hash key).1 i [] ≡ []
    unfolding remove_from erase_slot find_slot
    remove_from_keeps_empty hash within i e = elim (ℕ_discrete (bucket_index hash (length old)) i) [
      | yes here ↦ let empty : bucket_of old hash ≡ [] = rw here e in rw (empty, remove_from) e
      | no ne ↦ elim (Option-cases (find_slot (bucket_of old hash) hash key)) [
        | inl absent ↦ rw (absent, remove_from) e
        | inr (x, found) ↦
            rw (found, remove_from)
              (get_or-set_ne old (bucket_index hash (length old)) i _ [] ne ∙ e)
      ]
    ]

  -- An overwrite or a removal in the old table, or in the new one, keeps the layout.
  module _ (k index : ℕ) (old : Table) (new : Option Table) (laid : IsLaid k index old new)
      (hash : ℕ) (key : Bytes) where
    pub assign-IsLaid : (entry : Entry) → IsLaid k index (assign old hash key entry) new
    assign-IsLaid entry =
        let within = bucket_index-lt k hash (length old) laid.width in
        let same = length-assign old hash key entry in
        record {
          width = same ∙ laid.width;
          placed = assign-IsPlaced hash_of old hash within laid.placed key entry;
          growth =
              IsNew-old k index old key (assign old hash key entry) new same
                (assign_keeps_empty k index old key hash entry within) laid.growth;
        }

    pub remove_from-IsLaid : IsLaid k index (remove_from old hash key).1 new
    remove_from-IsLaid =
        let within = bucket_index-lt k hash (length old) laid.width in
        let same = length-remove_from old hash key in
        record {
          width = same ∙ laid.width;
          placed = remove_from-IsPlaced hash_of old hash within laid.placed key;
          growth =
              IsNew-old k index old key (remove_from old hash key).1 new same
                (remove_from_keeps_empty k index old key hash within) laid.growth;
        }

  pub assign_new-IsLaid :
      (k index : ℕ) (old : Table) (new : Option Table) (hash : ℕ) (key : Bytes) (entry : Entry)
      → IsLaid k index old new
      → IsLaid k index old (assign_new new hash key entry)
  assign_new-IsLaid k index old none hash key entry laid = laid
  assign_new-IsLaid k index old (some new) hash key entry laid =
      let (wide, placed, drained, more) = laid.growth in
      let within = bucket_index-lt (suc k) hash (length new) wide in
      record {
        width = laid.width;
        placed = laid.placed;
        growth = (
          length-assign new hash key entry ∙ wide,
          assign-IsPlaced hash_of new hash within placed key entry,
          drained,
          more,
        );
      }

  pub remove_from_new-IsLaid :
      (k index : ℕ) (old new : Table) (hash : ℕ) (key : Bytes)
      → IsLaid k index old (some new)
      → IsLaid k index old (some (remove_from new hash key).1)
  remove_from_new-IsLaid k index old new hash key laid =
      let (wide, placed, drained, more) = laid.growth in
      let within = bucket_index-lt (suc k) hash (length new) wide in
      record {
        width = laid.width;
        placed = laid.placed;
        growth = (
          length-remove_from new hash key ∙ wide,
          remove_from-IsPlaced hash_of new hash within placed key,
          drained,
          more,
        );
      }

  -- A new slot goes into the table that survives.
  pub push_slot-IsLaid :
      (k index : ℕ) (old : Table) (slot : Slot)
      → slot.hash ≡ hash_of slot.key
      → IsLaid k index old none
      → IsLaid k index (push_slot old slot) none
  push_slot-IsLaid k index old slot hashed laid =
      let within = bucket_index-lt k slot.hash (length old) laid.width in
      record {
        width = length-push_slot old slot ∙ laid.width;
        placed = push_slot-IsPlaced hash_of old slot within laid.placed hashed;
        growth = tt;
      }

  pub push_slot_new-IsLaid :
      (k index : ℕ) (old new : Table) (slot : Slot)
      → slot.hash ≡ hash_of slot.key
      → IsLaid k index old (some new)
      → IsLaid k index old (some (push_slot new slot))
  push_slot_new-IsLaid k index old new slot hashed laid =
      let (wide, placed, drained, more) = laid.growth in
      let within = bucket_index-lt (suc k) slot.hash (length new) wide in
      record {
        width = laid.width;
        placed = laid.placed;
        growth = (
          length-push_slot new slot ∙ wide,
          push_slot-IsPlaced hash_of new slot within placed hashed,
          drained,
          more,
        );
      }
