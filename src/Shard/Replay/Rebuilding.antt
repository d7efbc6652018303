-- ===== src/Shard/Replay/Rebuilding.antt =====
-- What a keyspace shows once `replay_into` has removed the keys whose deadline has come.
use mathlib.Core.Option
use seedstone.Base.{
  ℕ, ◌+◌, ◌-◌, ◌*◌, leb, Bool, true, false, Bytes, Option, none, some, List, ◌≡◌, refl, ◌∙◌, ap,
  sym, subst, arith, some-inj, Bool-cases, inl, inr, if◌then◌else◌,
}
use seedstone.Dict
use seedstone.Dict.{Dict}
use seedstone.Dict.Buckets.{Entry}
use seedstone.Dict.Growth.{IsSound}
use seedstone.Dict.Run.{Content, content}
use seedstone.Log.Effect.{Effect, and_then}
use seedstone.Shard.Clock.{Now, replay_deadline}
use seedstone.Shard.Logged.{Held, HeldMap, effect_run}
use seedstone.Shard.Replay.{resolved, resolve, is_dead, replay_records, replay_into}
use seedstone.Shard.Replay.Effects.{
  millis_at, has_passed, revived, entries_of, Mirrors, replay_records-Mirrors,
}
use seedstone.Shard.Replay.Due.{contains, kept, remove_due_lem}

module _ (sip_hash : ℕ → ℕ → Bytes → ℕ) (latest : ℕ) (now : Now) where
  -- A deadline that has not passed keeps its key, and one that has does not.
  alive_entry :
      (due : Option ℕ) (entry : Entry)
      → entry.expires_at ≡ millis_at sip_hash latest now due
      → is_dead now (some entry) ≡ has_passed sip_hash latest now due
  unfolding is_dead resolve replay_deadline
  alive_entry none entry h =
      subst (λ (t : Option ℕ). is_dead now (some (record entry { expires_at = t })) ≡ false) (sym h)
        refl
  alive_entry (some millis) entry h =
      let r = replay_deadline latest now millis in
      let verdict : is_dead now (some (record entry { expires_at = (resolved now r).0 }))
          ≡ (resolved now r).1 =
        elim (Bool-cases (leb millis now.unix_millis)) [
          | inl gone ↦ rw (gone, replay_deadline) (ground arith)
          | inr left ↦
              elim (Bool-cases (leb (now.instant + (millis - now.unix_millis) * 1000000) latest)) [
                | inl fits ↦ rw (left, fits, replay_deadline) (ground arith)
                | inr beyond ↦ rw (left, beyond, replay_deadline) refl
              ]
        ] in
      subst
        (λ (t : Option ℕ).
          is_dead now (some (record entry { expires_at = t })) ≡ (resolved now r).1)
        (sym h) verdict

  -- What a key shows once the log is replayed.
  abbrev pub after_replay : Held → Option Content
  after_replay h =
      if has_passed sip_hash latest now h.deadline
      then none
      else some (revived sip_hash latest now h)

  shown :
      (listed : Bool) (o : Option Entry) (p : Option Held)
      → Option.map content o ≡ Option.map (revived sip_hash latest now) p
      → ((h : Held) → p ≡ some h → has_passed sip_hash latest now h.deadline ≡ true → listed ≡ true)
      → Option.map content (kept sip_hash now listed o) ≡ and_then p after_replay
  unfolding is_dead
  shown true none none same due = refl
  shown false none none same due = refl
  shown listed none (some h) same due = cc
  shown listed (some e) none same due = cc
  shown listed (some e) (some h) same due =
      let alike = some-inj {a = content e} {b = revived sip_hash latest now h} same in
      let dead = alive_entry h.deadline e (ap (λ (c : Content). c.expires_at) alike) in
      elim (Bool-cases (has_passed sip_hash latest now h.deadline)) [
        | inl passed ↦ rw (due h refl passed, dead, passed)
        | inr ahead ↦ elim (Bool-cases listed) [
          | inl on_list ↦ rw (on_list, dead, ahead) same
          | inr off_list ↦ rw (off_list, ahead) same
        ]
      ]

  -- Over a keyspace that mirrors a map of values with Unix deadlines, the keys whose deadline has
  -- come among them listed as due, `replay_into` leaves a sound keyspace that shows under each key
  -- what the map holds there after the effects: the value with its deadline on the shard's clock,
  -- or none where the deadline has come.
  pub replay_into_lem :
      (d : Dict) (seq : ℕ) (records : List (ℕ × Effect)) (due : List Bytes) (m : HeldMap)
      → Mirrors sip_hash latest now d due m
      → let (d', seq') = replay_into sip_hash latest now d seq records due in
        IsSound sip_hash d'
        × ((q : Bytes)
            → Option.map content (Dict.get sip_hash d' q)
              ≡ and_then (effect_run m (entries_of records) q) after_replay)
  unfolding replay_into
  replay_into_lem d seq records due m h =
      let b =
        replay_records sip_hash latest now records (record { dict = d; seq = seq; due = due }) in
      let end =
        replay_records-Mirrors sip_hash latest now records
          (record { dict = d; seq = seq; due = due }) m h in
      let (sound', answers) = remove_due_lem sip_hash now b.due b.dict end.sound in
      (
        sound',
        λ q.
            ap (Option.map content) (answers q)
            ∙ shown (contains b.due q) (Dict.get sip_hash b.dict q)
                (effect_run m (entries_of records) q) (end.same q) (end.listed q),
      )
