-- ===== src/Shard/Logged/Keyspace.antt =====
-- The changes of a keyspace that handlers make, as effects on the map that the log describes.
use mathlib.Core.Option
use seedstone.Base.{
  arith, ℕ, Bytes, bytes_eq, Option, none, some, ◌≡◌, refl, ap, Bool-cases, inl, inr,
}
use seedstone.Dict
use seedstone.Dict.{Dict}
use seedstone.Dict.Buckets.{Entry}
use seedstone.Dict.Growth.{IsSound}
use seedstone.Dict.Refines.{with_seed_lem, insert_lem, remove_lem, set_deadline_lem, touch_lem}
use seedstone.Log.Effect.{Effect}
use seedstone.Log.Effect.Codec.{DeadlineInRange, InRange}
use seedstone.Shard.Clock.{Now, deadline_millis}
use seedstone.Shard.Handlers.{stored}
use seedstone.Shard.Logged.{held, held_of, effect_step, moved}

module _ (sip_hash : ℕ → ℕ → Bytes → ℕ) (now : Now) where
  -- A keyspace after a change: sound, and what the effect makes of the one before.
  abbrev pub IsAfter : Dict → Effect → Dict → Type 0
  IsAfter d e d' =
      IsSound sip_hash d'
      × DeadlineInRange e
      × ((q : Bytes) → held sip_hash now d' q ≡ effect_step (held sip_hash now d) e q)

  pub remove-IsAfter :
      (d : Dict) (k : Bytes)
      → IsSound sip_hash d
      → IsAfter d (Effect.del k) (Dict.remove sip_hash d k).1
  remove-IsAfter d k sound =
      let (sound', returned, answers) = remove_lem sip_hash d k sound in
      (
        sound',
        tt,
        λ q. elim (Bool-cases (bytes_eq k q)) [
          | inl e ↦ rw (answers q, e)
          | inr e ↦ rw (answers q, e)
        ],
      )

  moved-held :
      (at : Option ℕ) (o : Option Entry)
      → Option.map (held_of now) (Option.map (λ (e : Entry). record e { expires_at = at }) o)
        ≡ Option.map (moved (deadline_millis now at)) (Option.map (held_of now) o)
  moved-held at none = refl
  moved-held at (some e) = refl

  stamped-held :
      (stamp : ℕ) (o : Option Entry)
      → Option.map (held_of now) (Option.map (λ (e : Entry). record e { touched = stamp }) o)
        ≡ Option.map (held_of now) o
  stamped-held stamp none = refl
  stamped-held stamp (some e) = refl

  deadline_millis-InRange : (at : Option ℕ) → InRange (deadline_millis now at)
  unfolding deadline_millis
  deadline_millis-InRange none = tt
  deadline_millis-InRange (some at) = omega arith

  pub set_deadline-IsAfter :
      (d : Dict) (k : Bytes) (at : Option ℕ)
      → IsSound sip_hash d
      → IsAfter d (Effect.deadline k (deadline_millis now at)) (Dict.set_deadline sip_hash d k at).1
  set_deadline-IsAfter d k at sound =
      let (sound', there, answers) = set_deadline_lem sip_hash d k at sound in
      (
        sound',
        deadline_millis-InRange at,
        λ q. elim (Bool-cases (bytes_eq k q)) [
          | inl e ↦ rw (answers q, e) (moved-held at (Dict.get sip_hash d q))
          | inr e ↦ rw (answers q, e)
        ],
      )

  pub clear-IsAfter : (d : Dict) → IsAfter d Effect.flush (Dict.clear d)
  unfolding Dict.clear
  clear-IsAfter d =
      let (sound', answers) = with_seed_lem sip_hash d.seed in
      (sound', tt, λ q. ap (Option.map (held_of now)) (answers q))

  pub touch-held :
      (d : Dict) (k : Bytes)
      → IsSound sip_hash d
      → IsSound sip_hash (Dict.touch sip_hash d k)
        × ((q : Bytes) → held sip_hash now (Dict.touch sip_hash d k) q ≡ held sip_hash now d q)
  touch-held d k sound =
      let (sound', answers) = touch_lem sip_hash d k sound in
      (
        sound',
        λ q. elim (Bool-cases (bytes_eq k q)) [
          | inl e ↦ rw (answers q, e) (stamped-held _ (Dict.get sip_hash d q))
          | inr e ↦ rw (answers q, e)
        ],
      )

  pub stored-IsAfter :
      (d : Dict) (k v : Bytes) (at : Option ℕ)
      → IsSound sip_hash d
      → IsAfter d (Effect.put k v (deadline_millis now at)) (stored sip_hash d k v at)
  unfolding stored
  stored-IsAfter d k v at sound =
      let entry : Entry = record { value = v; expires_at = at; touched = 0 } in
      let (inserted, answers) = insert_lem sip_hash d k entry sound in
      let (sound', same) = touch-held (Dict.insert sip_hash d k entry) k inserted in
      (
        sound',
        deadline_millis-InRange at,
        λ q. elim (Bool-cases (bytes_eq k q)) [
          | inl e ↦ rw (same q, answers q, e)
          | inr e ↦ rw (same q, answers q, e)
        ],
      )
