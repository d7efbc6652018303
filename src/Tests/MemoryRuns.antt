-- ===== src/Tests/MemoryRuns.antt =====
-- Runs of crates/seedstone-core/src/memory.rs, its own tests' sizes among them.
use seedstone.Base.{ℕ, ◌%◌, ◌^◌, ◌≡◌, refl, arith, some, none, List, [], ◌∷◌, codes}
use seedstone.Memory.{parse_bytes, strip_suffix}
use seedstone.Memory.Gauge.{Move, sum, gauge_after, shards_after, gauge_after_lem}

size_64mb : parse_bytes (codes "64MB") ≡ some 67108864
unfolding parse_bytes strip_suffix
size_64mb = refl

size_2g : parse_bytes (codes "2g") ≡ some 2000000000
unfolding parse_bytes strip_suffix
size_2g = refl

size_with_plus : parse_bytes (codes "+5mb") ≡ some 5242880
unfolding parse_bytes strip_suffix
size_with_plus = refl

size_with_point : parse_bytes (codes "1.5gb") ≡ none
unfolding parse_bytes strip_suffix
size_with_point = refl

size_too_large : parse_bytes (codes "99999999999999999999gb") ≡ none
unfolding parse_bytes strip_suffix
size_too_large = refl

abbrev moves : List Move
moves = (0, 500) ∷ (2, 192) ∷ (0, 320) ∷ []

abbrev figures : List ℕ
figures = 192 ∷ 192 ∷ 700 ∷ []

gauge_after_lem_example :
    gauge_after moves figures (sum figures % 2 ^ 64) ≡ sum (shards_after moves figures) % 2 ^ 64
gauge_after_lem_example =
    gauge_after_lem moves figures
      (omega arith, omega arith, (omega arith, omega arith, (omega arith, omega arith, tt)))
