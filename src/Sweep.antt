-- ===== src/Sweep.antt =====
-- The two walks that a shard makes over its keyspace, of crates/seedstone-core/src/dict.rs:
-- expire_step, with the policy of crates/seedstone-core/src/shard/policy.rs, and sample_oldest.
pub mod Expiry
pub mod Eviction
pub mod Candidates
use mathlib.Core.Option
use seedstone.Base.{
  ℕ, zero, suc, ◌+◌, ◌==◌, ltb, leb, Bool, true, false, not, ◌||◌, ◌&&◌, Bytes, bytes_eq, Option,
  none, some, List, [], ◌∷◌, ◌++◌, length, if◌then◌else◌,
}
use seedstone.Dict.{Dict}
use seedstone.Dict.Buckets.{Slot, Bucket, Table}
use seedstone.Walk.{scan}

-- the trait: what its implementors answer
pub record ExpiryPolicy : Type 0 where
  pub due_on_read : Option ℕ → ℕ → Bool
  pub due_on_sweep : Option ℕ → ℕ → Bool
  pub takes_undated : Bool

unfoldable pub reached : Option ℕ → ℕ → Bool
reached none now = false
reached (some at) now = leb at now

-- `Deadlines`, the policy that production has
abbrev pub deadlines : ExpiryPolicy
deadlines = record { due_on_read = reached; due_on_sweep = reached; takes_undated = false }

-- what the visitor of `expire_step` pushes
unfoldable pub due_keys : ExpiryPolicy → ℕ → Bucket → List Bytes
due_keys expiry now [] = []
due_keys expiry now (slot ∷ rest) =
    let later = due_keys expiry now rest in
    if expiry.due_on_sweep slot.entry.expires_at now then slot.key ∷ later else later

abbrev pub with_dead : List Bytes → ℕ × List Bytes → ℕ × List Bytes
with_dead dead (next, later) = (next, dead ++ later)

-- `for _ in 0..budget_buckets`
unfoldable pub sweep : ℕ → ExpiryPolicy → ℕ → Dict → ℕ → Option (ℕ × List Bytes)
unfolding due_keys
sweep zero expiry now d next = some (next, [])
sweep (suc budget) expiry now d cursor = elim (scan d cursor) [
  | none ↦ none
  | some (next, visited) ↦
      let later = sweep budget expiry now d next in
      if next == 0
      then some (next, due_keys expiry now visited)
      else Option.map (with_dead (due_keys expiry now visited)) later
]

unfoldable pub expire_step : Dict → ℕ → ℕ → ℕ → ExpiryPolicy → Option (ℕ × List Bytes)
unfolding sweep
expire_step d cursor budget_buckets now expiry =
    if not d.may_hold_deadlines && not expiry.takes_undated
    then some (cursor, [])
    else sweep budget_buckets expiry now d cursor

unfoldable pub is_spared : Option Bytes → Bytes → Bool
is_spared none key = false
is_spared (some spared) key = bytes_eq spared key

-- the candidate after one more entry met
unfoldable pub older : Option (ℕ × Bytes) → Slot → Option (ℕ × Bytes)
older none slot = some (slot.entry.touched, slot.key)
older (some (stamp, key)) slot =
    if ltb slot.entry.touched stamp then some (slot.entry.touched, slot.key) else some (stamp, key)

-- what the visitor of `sample_oldest` does: the entries seen and the candidate
unfoldable pub meet : Option Bytes → Bucket → ℕ → Option (ℕ × Bytes) → ℕ × Option (ℕ × Bytes)
unfolding is_spared older
meet spared [] seen oldest = (seen, oldest)
meet spared (slot ∷ rest) seen oldest = elim (is_spared spared slot.key) [
  | true ↦ meet spared rest seen oldest
  | false ↦ meet spared rest (seen + 1) (older oldest slot)
]

abbrev pub key_of : Option (ℕ × Bytes) → Option Bytes
key_of none = none
key_of (some (stamp, key)) = some key

-- `while seen < samples && steps < bound`, on the steps that are left
unfoldable pub sample :
    ℕ → ℕ → Option Bytes → Dict → ℕ → ℕ → Option (ℕ × Bytes) → Option (ℕ × Option Bytes)
unfolding meet
sample zero samples spared d cursor seen oldest = some (cursor, key_of oldest)
sample (suc steps) samples spared d cursor seen oldest = elim (ltb seen samples) [
  | false ↦ some (cursor, key_of oldest)
  | true ↦ elim (scan d cursor) [
    | none ↦ none
    | some (next, visited) ↦
        let (seen', oldest') = meet spared visited seen oldest in
        sample steps samples spared d next seen' oldest'
  ]
]

abbrev pub new_length : Option Table → ℕ
new_length none = 0
new_length (some new) = length new

-- the cursor that it leaves, and what it returns
unfoldable pub sample_oldest : Dict → ℕ → ℕ → Option Bytes → Option (ℕ × Option Bytes)
unfolding sample
sample_oldest d cursor samples spared =
    if d.len == 0
    then some (cursor, none)
    else sample (length d.old + new_length d.new) samples spared d cursor 0 none
