-- ===== src/Shard/Replay.antt =====
-- `replay_into` of crates/seedstone-core/src/shard/executor.rs: a recovered prefix of a shard's log,
-- applied to its keyspace.
pub mod Due
pub mod Effects
pub mod Rebuilding
pub mod Recovery
use mathlib.Core.Option
use seedstone.Base.{
  ℕ, ◌+◌, leb, Bool, true, false, ◌&&◌, Bytes, Option, none, some, List, [], ◌∷◌, ◌++◌,
  if◌then◌else◌,
}
use seedstone.Dict
use seedstone.Dict.{Dict}
use seedstone.Dict.Buckets.{Entry}
use seedstone.Log.Effect
use seedstone.Log.Effect.{Effect}
use seedstone.Shard.Clock.{Now, Replayed, past, at, replay_deadline}

-- the variables of the loop
pub record Rebuilt : Type 0 where
  pub dict : Dict
  pub seq : ℕ
  pub due : List Bytes

abbrev pub resolved : Now → Replayed → Option ℕ × Bool
resolved now (at due) = (due, false)
resolved now past = (some now.instant, true)

unfoldable pub is_dead : Now → Option Entry → Bool
is_dead now none = false
is_dead now (some entry) = elim entry.expires_at [ none ↦ false | some due ↦ leb due now.instant ]

module _ (sip_hash : ℕ → ℕ → Bytes → ℕ) (now : Now) where
  unfoldable pub remove_due : List Bytes → Dict → Dict
  unfolding is_dead
  remove_due [] d = d
  remove_due (k ∷ rest) d =
      remove_due rest
        (if is_dead now (Dict.get sip_hash d k) then (Dict.remove sip_hash d k).1 else d)

module _ (sip_hash : ℕ → ℕ → Bytes → ℕ) (latest : ℕ) (now : Now) where
  -- the deadline that a record's comes to, and whether it has passed
  unfoldable pub resolve : Option ℕ → Option ℕ × Bool
  unfolding replay_deadline
  resolve none = (none, false)
  resolve (some millis) = resolved now (replay_deadline latest now millis)

  -- the match on an effect
  unfoldable pub replay_effect : Effect → Dict → List Bytes → Dict × List Bytes
  unfolding resolve
  replay_effect (Effect.put k v millis) d due =
      let (expires_at, passed) = resolve millis in
      (
        Dict.insert sip_hash d k (record { value = v; expires_at = expires_at; touched = 0 }),
        if passed then due ++ k ∷ [] else due,
      )
  replay_effect (Effect.del k) d due = ((Dict.remove sip_hash d k).1, due)
  replay_effect (Effect.deadline k millis) d due =
      let (expires_at, passed) = resolve millis in
      let (there, d') = Dict.set_deadline sip_hash d k expires_at in
      (d', if there && passed then due ++ k ∷ [] else due)
  replay_effect Effect.flush d due = (Dict.clear d, due)
  replay_effect Effect.rebase d due = (d, due)

  unfoldable pub replay_records : List (ℕ × Effect) → Rebuilt → Rebuilt
  unfolding replay_effect
  replay_records [] b = b
  replay_records ((position, e) ∷ rest) b =
      let (d, due) = replay_effect e b.dict b.due in
      replay_records rest (record { dict = d; seq = position + 1; due = due })

  -- the keyspace and the position after it
  unfoldable pub replay_into : Dict → ℕ → List (ℕ × Effect) → List Bytes → Dict × ℕ
  unfolding replay_records remove_due
  replay_into d seq records due =
      let b = replay_records records (record { dict = d; seq = seq; due = due }) in
      (remove_due sip_hash now b.due b.dict, b.seq)
