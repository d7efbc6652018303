-- ===== src/Tests/WalkRuns.antt =====
-- Walks over the keyspace of Tests/DictRuns with nine keys, where a rehash is in flight.
use native.Mathlib.Nat.{pow-le-pow_right}
use native.Mathlib.Decide.{dec_lt}
use mathlib.Core.List.{Memᴰ}
use seedstone.Base.{
  ℕ, ◌^◌, ◌≤◌, ◌<◌, ◌≡◌, ◌≢◌, refl, sym, ap, ◌∙◌, arith, Bytes, Option, some, List, [], ◌∷◌, length,
  true, replicate, reverse_bits, one-le-two_pow,
}
use seedstone.Dict.{Dict, with_seed, get, insert, set_deadline}
use seedstone.Dict.Buckets.{Bucket, Entry, find, assign, bucket_index}
use seedstone.Dict.Growth.{IsSound}
use seedstone.Dict.Valid.{IsValid}
use seedstone.Dict.Refines.{set_deadline_lem}
use seedstone.Dict.Run
use seedstone.Walk.{scan, reverse_increment}
use seedstone.Walk.Order.{next_cursor}
use seedstone.Walk.Anywhere.{scan_returns}
use seedstone.Walk.Step.{Answers, scan_lem}
use seedstone.Walk.Cycle.{walk, Seen, walk_covers}
use seedstone.Walk.End.{walk_ends}
use seedstone.Sweep.{expire_step, sample_oldest, deadlines, reached}
use seedstone.Sweep.Expiry.{same-Grows, same-Holds, expire_step-covers}
use seedstone.Sweep.Eviction.{sample_oldest_lem}
use seedstone.Tests.DictRuns.{sum_hash, growing, growing-IsSound, plain}

abbrev width : ℕ
width = growing-IsSound.0

growing-IsValid : IsValid sum_hash width growing
growing-IsValid = growing-IsSound.1

length-growing : length growing.old ≡ 8
unfolding Run.run Run.step insert with_seed find bucket_index
length-growing = refl

eight : 2 ^ width ≡ 8
eight = sym growing-IsValid.laid.width ∙ length-growing

shallow : width < 64
shallow = elim (dec_lt width 64) [
  | yes small ↦ small
  | no large ↦
      let deep : 64 ≤ width = omega arith in
      absurd (omega (arith, eight, pow-le-pow_right {n = 2} (omega arith) deep))
]

nine_held : growing.len ≡ 9
unfolding Run.run Run.step insert with_seed find bucket_index
nine_held = refl

-- The order of eight buckets: 0, 4, 2, 6, and so on.
order_of_eight : reverse_increment 4 7 ≡ 2
unfolding reverse_increment reverse_bits
order_of_eight = refl

scan_lem_example :
    (visited : Bucket) × (scan growing 0 ≡ some (next_cursor width 0, visited))
    × Answers sum_hash growing width 0 visited
scan_lem_example =
    scan_lem sum_hash width growing growing-IsValid 0 shallow (one-le-two_pow width)
      (λ e. absurd (omega (arith, e, nine_held)))

abbrev eight_calls : List Dict
eight_calls = replicate 8 growing

walk_ends_example : (visited : Bucket) × (walk eight_calls 0 ≡ some (0, visited))
walk_ends_example =
    walk_ends sum_hash width shallow eight_calls
      (same-Grows sum_hash growing width growing-IsValid shallow 8 0 (omega arith))
      (omega (arith, eight))

nine_walked : (visited : Bucket) × (walk eight_calls 0 ≡ some (0, visited))
nine_walked =
    walk_ends sum_hash width shallow eight_calls
      (same-Grows sum_hash growing width growing-IsValid shallow 8 0 (omega arith))
      (omega (arith, eight))

three_held : get sum_hash growing (3 ∷ []) ≡ some (plain (67 ∷ []))
unfolding get Run.run Run.step insert with_seed find bucket_index
three_held = refl

walk_covers_example : Seen sum_hash growing.seed (3 ∷ []) (λ x. x ≡ plain (67 ∷ [])) nine_walked.0
walk_covers_example =
    walk_covers sum_hash growing.seed (3 ∷ []) (λ x. x ≡ plain (67 ∷ [])) eight_calls nine_walked.0
      (λ e. absurd (omega (arith, ap length e)))
      (same-Holds sum_hash growing width growing-IsValid shallow (3 ∷ []) (λ x. x ≡ plain (67 ∷ []))
        (plain (67 ∷ [])) three_held refl 8 0 (omega arith))
      nine_walked.1

-- The same keyspace, with a deadline of tick 40 on one key.
abbrev dated : Dict
dated = (set_deadline sum_hash growing (3 ∷ []) (some 40)).1

dated-IsSound : IsSound sum_hash dated
dated-IsSound = (set_deadline_lem sum_hash growing (3 ∷ []) (some 40) growing-IsSound).0

abbrev dated_width : ℕ
dated_width = dated-IsSound.0

dated-IsValid : IsValid sum_hash dated_width dated
dated-IsValid = dated-IsSound.1

length-dated : length dated.old ≡ 8
unfolding Run.run Run.step insert set_deadline with_seed find bucket_index assign
length-dated = refl

dated_eight : 2 ^ dated_width ≡ 8
dated_eight = sym dated-IsValid.laid.width ∙ length-dated

dated_shallow : dated_width < 64
dated_shallow = elim (dec_lt dated_width 64) [
  | yes small ↦ small
  | no large ↦
      let deep : 64 ≤ dated_width = omega arith in
      absurd (omega (arith, dated_eight, pow-le-pow_right {n = 2} (omega arith) deep))
]

abbrev dated_three : Entry
dated_three = record { value = 67 ∷ []; expires_at = some 40; touched = 0 }

dated_held : get sum_hash dated (3 ∷ []) ≡ some dated_three
unfolding get Run.run Run.step insert set_deadline with_seed find bucket_index assign
dated_held = refl

forty_reached : reached (some 40) 50 ≡ true
unfolding reached
forty_reached = refl

expire_step-covers_example :
    (dead : List Bytes) × (expire_step dated 0 8 50 deadlines ≡ some (0, dead)) × Memᴰ (3 ∷ []) dead
expire_step-covers_example =
    expire_step-covers sum_hash dated dated_width dated-IsValid dated_shallow 8 50
      (omega (arith, dated_eight)) (3 ∷ []) dated_three dated_held forty_reached

sample_oldest_lem_example :
    (next : ℕ) × (victim : Option Bytes) × (sample_oldest growing 0 5 (some (3 ∷ []))
      ≡ some (next, victim))
    × (next < 2 ^ width)
    × ((key : Bytes) → victim ≡ some key → some (3 ∷ []) ≢ some key)
sample_oldest_lem_example =
    sample_oldest_lem sum_hash width growing growing-IsValid shallow 0 5 (some (3 ∷ []))
      (one-le-two_pow width)

scan_returns_example :
    (next : ℕ) × (visited : Bucket) × (scan growing 1234567 ≡ some (next, visited))
    × (next < 2 ^ width)
scan_returns_example =
    scan_returns sum_hash width growing growing-IsValid shallow 1234567 (omega arith)
