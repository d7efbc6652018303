-- ===== src/Dict/Weigh.antt =====
-- Sums over the slots of a bucket and of a table. The number of entries, their bytes, the dated
-- ones and the occurrences of a key are all such sums, so one lemma for each write serves them all.
use seedstone.Base.{
  ℕ, zero, suc, ◌+◌, ◌≤◌, ◌<◌, ◌≡◌, refl, Bytes, bytes_eq, bytes_eq_iff, some, [], ◌∷◌, ◌++◌,
  length, get_or, set, replicate, to_nat, arith, true,
}
use seedstone.Dict.Buckets.{Entry, Slot, Bucket, Table, matches, find_slot, assign_slot, erase_slot}

abbrev pub Weight : Type 0
Weight = Slot → ℕ

unfoldable pub weigh_bucket : Weight → Bucket → ℕ
weigh_bucket w [] = 0
weigh_bucket w (slot ∷ rest) = w slot + weigh_bucket w rest

unfoldable pub weigh : Weight → Table → ℕ
weigh w [] = 0
weigh w (bucket ∷ rest) = weigh_bucket w bucket + weigh w rest

-- how often a key occurs
abbrev pub at_key : Bytes → Weight
at_key key slot = to_nat (bytes_eq slot.key key)

abbrev pub slot_at : ℕ → Bytes → Entry → Slot
slot_at hash key entry = record { hash = hash; key = key; entry = entry }

pub matches→eq :
    (slot : Slot) (hash : ℕ) (key : Bytes)
    → matches slot hash key ≡ true
    → slot ≡ slot_at hash key slot.entry
unfolding matches
matches→eq slot hash key h = ground (arith, bytes_eq_iff slot.key key)

module _ (w : Weight) where
  pub weigh_bucket-append :
      (a b : Bucket) → weigh_bucket w (a ++ b) ≡ weigh_bucket w a + weigh_bucket w b
  unfolding weigh_bucket
  weigh_bucket-append [] b = omega arith
  weigh_bucket-append (slot ∷ a) b = omega (arith, weigh_bucket-append a b)

  pub weigh_bucket_nil : weigh_bucket w [] ≡ 0
  unfolding weigh_bucket
  weigh_bucket_nil = refl

  pub weigh_bucket_one : (slot : Slot) → weigh_bucket w (slot ∷ []) ≡ w slot
  unfolding weigh_bucket
  weigh_bucket_one slot = omega arith

  pub weigh_bucket-assign_slot :
      (bucket : Bucket) (hash : ℕ) (key : Bytes) (entry old : Entry)
      → find_slot bucket hash key ≡ some old
      → weigh_bucket w (assign_slot bucket hash key entry) + w (slot_at hash key old)
        ≡ weigh_bucket w bucket + w (slot_at hash key entry)
  unfolding weigh_bucket assign_slot find_slot
  weigh_bucket-assign_slot [] hash key entry old h = ground arith
  weigh_bucket-assign_slot (slot ∷ rest) hash key entry old h =
      ground (arith, matches→eq slot hash key, weigh_bucket-assign_slot rest hash key entry old)

  pub weigh_bucket-erase_slot :
      (bucket : Bucket) (hash : ℕ) (key : Bytes) (old : Entry)
      → find_slot bucket hash key ≡ some old
      → weigh_bucket w (erase_slot bucket hash key) + w (slot_at hash key old)
        ≡ weigh_bucket w bucket
  unfolding weigh_bucket erase_slot find_slot
  weigh_bucket-erase_slot [] hash key old h = ground arith
  weigh_bucket-erase_slot (slot ∷ rest) hash key old h =
      ground (arith, matches→eq slot hash key, weigh_bucket-erase_slot rest hash key old)

  pub weigh-set :
      (table : Table) (i : ℕ) (bucket : Bucket)
      → i < length table
      → weigh w (set table i bucket) + weigh_bucket w (get_or table i [])
        ≡ weigh w table + weigh_bucket w bucket
  unfolding weigh
  weigh-set [] i bucket h = absurd (omega arith)
  weigh-set (b ∷ table) zero bucket h = omega arith
  weigh-set (b ∷ table) (suc i) bucket h = omega (arith, weigh-set table i bucket (omega arith))

  pub weigh-replicate : (n : ℕ) → weigh w (replicate n []) ≡ 0
  unfolding weigh weigh_bucket
  weigh-replicate zero = refl
  weigh-replicate (suc n) = omega (arith, weigh-replicate n)

  pub weigh_bucket-le : (table : Table) (i : ℕ) → weigh_bucket w (get_or table i []) ≤ weigh w table
  unfolding weigh weigh_bucket
  weigh_bucket-le [] i = omega arith
  weigh_bucket-le (b ∷ table) zero = omega arith
  weigh_bucket-le (b ∷ table) (suc i) = omega (arith, weigh_bucket-le table i)

  pub weigh_nowhere :
      (table : Table) → ((i : ℕ) → weigh_bucket w (get_or table i []) ≡ 0) → weigh w table ≡ 0
  unfolding weigh
  weigh_nowhere [] h = refl
  weigh_nowhere (b ∷ table) h = omega (arith, h 0, weigh_nowhere table (λ i. h (suc i)))

-- A key that is found occurs.
pub find_slot-occurs :
    (bucket : Bucket) (hash : ℕ) (key : Bytes) (entry : Entry)
    → find_slot bucket hash key ≡ some entry
    → 1 ≤ weigh_bucket (at_key key) bucket
unfolding weigh_bucket find_slot matches
find_slot-occurs [] hash key entry h = ground arith
find_slot-occurs (slot ∷ rest) hash key entry h =
    ground (arith, find_slot-occurs rest hash key entry)
