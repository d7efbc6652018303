-- ===== src/Shard/Logged/Handlers.antt =====
-- Each handler of crates/seedstone-core/src/shard/apply.rs logs the change that it makes.
use seedstone.Base.{
  ℕ, ◌==◌, Bytes, ℤ, pos, Option, none, some, Result, ok, err, is_some, ◌≡◌, refl, subst, Bool,
  true, false, Bool-cases, Option-cases, inl, inr, if◌then◌else◌,
}
use seedstone.Dict
use seedstone.Dict.{Dict}
use seedstone.Dict.Growth.{IsSound}
use seedstone.Log.Effect.{Effect}
use seedstone.Resp.{signed}
use seedstone.Sweep.{ExpiryPolicy}
use seedstone.Shard.Clock.{Now, SpanDeadline, lands, passed, deadline, deadline_millis}
use seedstone.Shard.Reply.{Reply, bulk, removed, integer, error, log_write_failed}
use seedstone.Shard.State.{ReplicationLog, ShardState, commit}
use seedstone.Shard.Handlers.{
  SetArgs, unmet, checked_add_i64, counter, expires_of, value_of, expiry_effect, stored, is_due,
  expiry_dict, set, del, incr_by, set_expiry, persist, flush_db, evict_if_expired,
}
use seedstone.Shard.Logged.{IsLog, IsLogged, IsLogged-quiet, commit-IsLogged}
use seedstone.Shard.Logged.Keyspace.{
  IsAfter, remove-IsAfter, set_deadline-IsAfter, clear-IsAfter, stored-IsAfter,
}

module _ (sip_hash : ℕ → ℕ → Bytes → ℕ) (now : Now) {L : Type 0} (ops : ReplicationLog L)
    (log : IsLog ops) (shard : ℕ) where
  abbrev pub Logged : ShardState L → ShardState L → Type 0
  Logged = IsLogged sip_hash now ops log shard

  pub stays-Logged {ℓ} :
      {A : Type ℓ} (s : ShardState L) (answer a : A) (s' : ShardState L)
      → IsSound sip_hash s.dict
      → ◌≡◌ {A = Option (A × ShardState L)} (some (answer, s)) (some (a, s'))
      → Logged s s'
  stays-Logged s answer a s' sound h =
      let same : s ≡ s' = cc in
      subst (λ t. Logged s t) same
        (IsLogged-quiet sip_hash now ops log shard s s sound (λ q. refl) refl refl refl)

  pub change-Logged {ℓ} :
      {A : Type ℓ} (s : ShardState L) (e : Effect) (d : Dict) (answer failed a : A)
      (s' : ShardState L)
      → IsSound sip_hash s.dict
      → IsAfter sip_hash now s.dict e d
      → commit ops s shard e d answer failed ≡ some (a, s')
      → Logged s s'
  change-Logged s e d answer failed a s' sound (after, fits, step) h =
      commit-IsLogged sip_hash now ops log shard s e d answer failed a s' sound after step fits h

  module _ (s : ShardState L) (sound : IsSound sip_hash s.dict) (reply : Reply)
      (s' : ShardState L) where
    pub set-Logged :
        (latest : ℕ) (args : SetArgs)
        → set sip_hash ops latest s shard now args ≡ some (reply, s')
        → Logged s s'
    unfolding set
    set-Logged latest args h =
        let found = Dict.get sip_hash s.dict args.key in
        let old = if args.get then value_of found else none in
        let due =
          if args.keep_ttl then expires_of found else deadline latest now.instant args.expiry in
        elim (Option-cases (unmet args.cond (is_some found) old)) [
          | inl met ↦
              change-Logged s (Effect.put args.key args.value (deadline_millis now due))
                (stored sip_hash s.dict args.key args.value due)
                (if args.get then bulk old else Reply.ok) (error log_write_failed) reply s' sound
                (stored-IsAfter sip_hash now s.dict args.key args.value due sound)
                (rw (met, set) at h)
          | inr (answer, refusal) ↦ stays-Logged s answer reply s' sound (rw (refusal, set) at h)
        ]

    pub del-Logged : (k : Bytes) → del sip_hash ops s shard k ≡ some (reply, s') → Logged s s'
    unfolding del
    del-Logged k h = elim (Bool-cases (is_some (Dict.get sip_hash s.dict k))) [
      | inl there ↦
          change-Logged s (Effect.del k) (Dict.remove sip_hash s.dict k).1 (removed true)
            (error log_write_failed) reply s' sound (remove-IsAfter sip_hash now s.dict k sound)
            (rw there at h)
      | inr absent ↦ stays-Logged s (removed false) reply s' sound (rw absent at h)
    ]

    pub incr_by-Logged :
        (k : Bytes) (delta : ℤ)
        → incr_by sip_hash ops s shard now k delta ≡ some (reply, s')
        → Logged s s'
    unfolding incr_by
    incr_by-Logged k delta h = elim (Option-cases (counter (Dict.get sip_hash s.dict k))) [
      | inl text ↦ stays-Logged s _ reply s' sound (rw (text, incr_by) at h)
      | inr ((current, due), number) ↦ elim (Option-cases (checked_add_i64 current delta)) [
        | inl over ↦ stays-Logged s _ reply s' sound (rw (number, over, incr_by) at h)
        | inr (next, sum) ↦
            change-Logged s (Effect.put k (signed next) (deadline_millis now due))
              (stored sip_hash s.dict k (signed next) due) (integer next) (error log_write_failed)
              reply s' sound (stored-IsAfter sip_hash now s.dict k (signed next) due sound)
              (rw (number, sum, incr_by) at h)
      ]
    ]

    expiry-IsAfter :
        (k : Bytes) (at : SpanDeadline)
        → IsAfter sip_hash now s.dict (expiry_effect now k at) (expiry_dict sip_hash s.dict k at)
    expiry-IsAfter k (lands due) = set_deadline-IsAfter sip_hash now s.dict k due sound
    expiry-IsAfter k passed = remove-IsAfter sip_hash now s.dict k sound

    pub set_expiry-Logged :
        (k : Bytes) (at : SpanDeadline)
        → set_expiry sip_hash ops s shard now k at ≡ some (reply, s')
        → Logged s s'
    unfolding set_expiry
    set_expiry-Logged k at h = elim (Bool-cases (is_some (Dict.get sip_hash s.dict k))) [
      | inl there ↦
          change-Logged s (expiry_effect now k at) (expiry_dict sip_hash s.dict k at)
            (integer (pos 1)) (error log_write_failed) reply s' sound (expiry-IsAfter k at)
            (rw there at h)
      | inr absent ↦ stays-Logged s (integer (pos 0)) reply s' sound (rw absent at h)
    ]

    pub persist-Logged :
        (k : Bytes) → persist sip_hash ops s shard k ≡ some (reply, s') → Logged s s'
    unfolding persist deadline_millis
    persist-Logged k h = elim (Bool-cases (is_some (expires_of (Dict.get sip_hash s.dict k)))) [
      | inl dated ↦
          change-Logged s (Effect.deadline k none) (Dict.set_deadline sip_hash s.dict k none).1
            (integer (pos 1)) (error log_write_failed) reply s' sound
            (set_deadline-IsAfter sip_hash now s.dict k none sound) (rw dated at h)
      | inr undated ↦ stays-Logged s (integer (pos 0)) reply s' sound (rw undated at h)
    ]

    pub flush_db-Logged : flush_db sip_hash ops s shard ≡ some (reply, s') → Logged s s'
    unfolding flush_db
    flush_db-Logged h = elim (Bool-cases (s.dict.len == 0)) [
      | inl empty ↦ stays-Logged s Reply.ok reply s' sound (rw empty at h)
      | inr filled ↦
          change-Logged s Effect.flush (Dict.clear s.dict) Reply.ok (error log_write_failed) reply
            s' sound (clear-IsAfter sip_hash now s.dict) (rw filled at h)
    ]

  pub evict_if_expired-Logged :
      (s : ShardState L) (k : Bytes) (at : ℕ) (expiry : ExpiryPolicy) (r : Result Bool Reply)
      (s' : ShardState L)
      → IsSound sip_hash s.dict
      → evict_if_expired sip_hash ops s shard k at expiry ≡ some (r, s')
      → Logged s s'
  unfolding evict_if_expired
  evict_if_expired-Logged s k at expiry r s' sound h =
      elim (Bool-cases (is_due sip_hash s.dict k at expiry)) [
        | inl due ↦
            change-Logged s (Effect.del k) (Dict.remove sip_hash s.dict k).1 (ok true)
              (err (error log_write_failed)) r s' sound (remove-IsAfter sip_hash now s.dict k sound)
              (rw due at h)
        | inr alive ↦ stays-Logged s (ok false) r s' sound (rw alive at h)
      ]
