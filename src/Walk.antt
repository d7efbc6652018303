-- ===== src/Walk.antt =====
-- crates/seedstone-core/src/dict.rs: the walk of a keyspace by a cursor that a client holds between
-- calls, and the two walks that the shard makes on it, for expiry and for eviction. What a walk
-- hands to `visit` is the list of the slots visited, in order.
pub mod Order
pub mod Expansion
pub mod Step
pub mod Position
pub mod Cycle
pub mod End
pub mod Anywhere
use mathlib.Core.Option
use seedstone.Base.{
  ℕ, zero, suc, ◌+◌, ◌-◌, ◌%◌, ◌^◌, bit_and, bit_or, bit_xor, reverse_bits, ◌==◌, ltb, leb, Bool,
  true, false, not, ◌||◌, ◌&&◌, Bytes, bytes_eq, Option, none, some, List, [], ◌∷◌, ◌++◌, length,
  get_or, if◌then◌else◌,
}
use seedstone.Dict.{Dict}
use seedstone.Dict.Buckets.{Slot, Bucket, Table}

unfoldable pub mask_of : Table → ℕ
mask_of table = length table - 1

unfoldable pub visit_bucket : Table → ℕ → Bucket
unfolding mask_of
visit_bucket table cursor = get_or table (bit_and cursor (mask_of table)) []

-- `!mask` in a `u64` is `2 ^ 64 - 1 - mask`.
unfoldable pub reverse_increment : ℕ → ℕ → ℕ
reverse_increment cursor mask =
    let widened = bit_or cursor (2 ^ 64 - 1 - mask) in
    reverse_bits 64 ((reverse_bits 64 widened + 1) % 2 ^ 64)

-- the trait: the cursor after one, under a mask
abbrev pub WalkOrder : Type 0
WalkOrder = ℕ → ℕ → ℕ

abbrev pub visited_first : Bucket → ℕ × Bucket → ℕ × Bucket
visited_first bucket (cursor, visited) = (cursor, bucket ++ visited)

-- The loop over the buckets of the larger table. It runs on fuel, and `none` is no fuel left.
unfoldable pub visit_expansion : ℕ → WalkOrder → Table → ℕ → ℕ → Option (ℕ × Bucket)
unfolding visit_bucket
visit_expansion zero advance new small v = none
visit_expansion (suc fuel) advance new small v =
    let next = advance v (mask_of new) in
    let rest = visit_expansion fuel advance new small next in
    if bit_and next (bit_xor small (mask_of new)) == 0
    then some (next, visit_bucket new v)
    else Option.map (visited_first (visit_bucket new v)) rest

unfoldable pub scan_tables : WalkOrder → Table → Option Table → ℕ → Option (ℕ × Bucket)
unfolding visit_expansion
scan_tables advance old none cursor = some (advance cursor (mask_of old), visit_bucket old cursor)
scan_tables advance old (some new) cursor =
    Option.map (visited_first (visit_bucket old cursor))
      (visit_expansion (length new) advance new (mask_of old) cursor)

unfoldable pub scan_in_order : WalkOrder → Dict → ℕ → Option (ℕ × Bucket)
unfolding scan_tables
scan_in_order advance d cursor =
    if d.len == 0 then some (0, []) else scan_tables advance d.old d.new cursor

unfoldable pub scan : Dict → ℕ → Option (ℕ × Bucket)
unfolding scan_in_order reverse_increment
scan d cursor = scan_in_order reverse_increment d cursor
