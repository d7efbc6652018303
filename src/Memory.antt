-- ===== src/Memory.antt =====
-- crates/seedstone-core/src/memory.rs: the gauge that the executors keep together, the limit that
-- evictions consult, and the parser of byte sizes. A `u64` is a number below 2 ^ 64.
pub mod Gauge
pub mod Limit
use seedstone.Base.{
  ℕ, zero, suc, ◌+◌, ◌-◌, ◌*◌, ◌%◌, ◌^◌, ◌==◌, ltb, leb, Bool, true, false, ◌&&◌, Bytes, bytes_eq,
  codes, Option, some, none, List, [], ◌∷◌, length, take, drop, if◌then◌else◌,
}

-- `MemoryGauge::apply`. The atomic addition and subtraction wrap around.
unfoldable pub apply : ℕ → ℕ → ℕ → ℕ
apply gauge before after =
    if ltb before after
    then (gauge + (after - before)) % 2 ^ 64
    else if ltb after before
    then (gauge + (2 ^ 64 - (before - after))) % 2 ^ 64
    else gauge

pub data EvictionMode : Type 0 where
  all_keys_lru : EvictionMode
  no_eviction : EvictionMode

unfoldable pub name : EvictionMode → Bytes
name all_keys_lru = codes "allkeys-lru"
name no_eviction = codes "noeviction"

-- `.into_iter().find(..)` over the two modes
unfoldable pub from_name : Bytes → Option EvictionMode
unfolding name
from_name text =
    if bytes_eq (name all_keys_lru) text
    then some all_keys_lru
    else if bytes_eq (name no_eviction) text
    then some no_eviction
    else none

pub record MemoryLimit : Type 0 where
  pub ceiling : Option ℕ
  pub mode : EvictionMode

unfoldable pub past_ceiling : ℕ → Option ℕ → Bool
past_ceiling used none = false
past_ceiling used (some ceiling) = ltb ceiling used

unfoldable pub exceeded : MemoryLimit → ℕ → Bool
unfolding past_ceiling
exceeded limit used = past_ceiling used limit.ceiling

abbrev pub suffixes : List (Bytes × ℕ)
suffixes =
    (codes "gb", 2 ^ 30)
    ∷ (codes "mb", 2 ^ 20)
    ∷ (codes "kb", 2 ^ 10)
    ∷ (codes "g", 1000000000)
    ∷ (codes "m", 1000000)
    ∷ (codes "k", 1000)
    ∷ (codes "b", 1)
    ∷ []

-- `to_ascii_lowercase`
unfoldable pub lowered : Bytes → Bytes
lowered [] = []
lowered (c ∷ rest) = (if leb 65 c && leb c 90 then c + 32 else c) ∷ lowered rest

unfoldable pub strip_suffix : Bytes → Bytes → Option Bytes
strip_suffix text suffix =
    let start = length text - length suffix in
    if leb (length suffix) (length text) && bytes_eq (drop start text) suffix
    then some (take start text)
    else none

-- `find_map` over the suffixes, and `unwrap_or`
unfoldable pub split_scale : List (Bytes × ℕ) → Bytes → Bytes × ℕ
unfolding strip_suffix
split_scale [] text = (text, 1)
split_scale ((suffix, scale) ∷ rest) text = elim (strip_suffix text suffix) [
  | some digits ↦ (digits, scale)
  | none ↦ split_scale rest text
]

-- `str::parse::<u64>`: digits after an optional plus sign, and no overflow
unfoldable pub push_digit : ℕ → ℕ → Option ℕ
push_digit acc c =
    if leb 48 c && leb c 57
    then (if ltb (acc * 10 + (c - 48)) (2 ^ 64) then some (acc * 10 + (c - 48)) else none)
    else none

unfoldable pub parse_digits : ℕ → Bytes → Option ℕ
unfolding push_digit
parse_digits acc [] = some acc
parse_digits acc (c ∷ rest) = elim (push_digit acc c) [
  | none ↦ none
  | some next ↦ parse_digits next rest
]

unfoldable pub parse_unsigned : Bytes → Option ℕ
unfolding parse_digits
parse_unsigned [] = none
parse_unsigned (c ∷ rest) = parse_digits 0 (c ∷ rest)

unfoldable pub parse_u64 : Bytes → Option ℕ
unfolding parse_unsigned
parse_u64 [] = none
parse_u64 (c ∷ rest) = if c == 43 then parse_unsigned rest else parse_unsigned (c ∷ rest)

unfoldable pub checked_mul : ℕ → ℕ → Option ℕ
checked_mul a b = if ltb (a * b) (2 ^ 64) then some (a * b) else none

unfoldable pub parse_bytes : Bytes → Option ℕ
unfolding lowered split_scale parse_u64 checked_mul
parse_bytes text =
    let (digits, scale) = split_scale suffixes (lowered text) in
    elim (parse_u64 digits) [ none ↦ none | some n ↦ checked_mul n scale ]
