-- ===== src/Shard/Scan.antt =====
-- `scan_step` of crates/seedstone-core/src/shard/apply.rs: one step of a client's walk.
use mathlib.Core.Option
use seedstone.Base.{
  ℕ, zero, suc, ◌+◌, ◌==◌, max, Bool, Bytes, Option, some, none, List, [], ◌∷◌, ◌++◌, if◌then◌else◌,
}
use seedstone.Dict.{Dict}
use seedstone.Dict.Buckets.{Bucket}
use seedstone.Walk.{WalkOrder, scan_in_order}
use seedstone.Sweep.{ExpiryPolicy}
use seedstone.Glob.{matches}
use seedstone.Log.Effect.{and_then}
use seedstone.Shard.Reply.{Reply}

-- the keys that the visitor of `scan_step` reports
unfoldable pub live_keys : ExpiryPolicy → ℕ → Option Bytes → Bucket → Option (List Bytes)
unfolding matches
live_keys expiry now pattern [] = some []
live_keys expiry now pattern (slot ∷ rest) =
    and_then (live_keys expiry now pattern rest) (λ (later : List Bytes).
      if expiry.due_on_read slot.entry.expires_at now then some later else elim pattern [
        | none ↦ some (slot.key ∷ later)
        | some glob ↦
            and_then (matches glob slot.key)
              (λ (yes_key : Bool). some (if yes_key then slot.key ∷ later else later))
      ])

abbrev pub with_step : List Bytes → ℕ × List Bytes × ℕ → ℕ × List Bytes × ℕ
with_step keys (next, later, visited) = (next, keys ++ later, visited + 1)

-- `for _ in 0..count.max(1)`: the cursor, the keys and the buckets visited
unfoldable pub scan_loop :
    ℕ → WalkOrder → ExpiryPolicy → Dict → Option Bytes → ℕ → ℕ → Option (ℕ × List Bytes × ℕ)
unfolding live_keys
scan_loop zero order expiry d pattern now cursor = some (cursor, [], 0)
scan_loop (suc count) order expiry d pattern now cursor = elim (scan_in_order order d cursor) [
  | none ↦ none
  | some (next, visited) ↦
      let rest = scan_loop count order expiry d pattern now next in
      and_then (live_keys expiry now pattern visited) (λ (keys : List Bytes).
        if next == 0 then some (next, keys, 1) else Option.map (with_step keys) rest)
]

unfoldable pub scan_step : WalkOrder → ExpiryPolicy → Dict → ℕ → ℕ → Option Bytes → ℕ → Option Reply
unfolding scan_loop
scan_step order expiry d cursor count pattern now =
    Option.map (λ (p : ℕ × List Bytes × ℕ). Reply.scan p.0 p.1 p.2)
      (scan_loop (max count 1) order expiry d pattern now cursor)
