-- ===== src/Shard/Meaning/Applied.antt =====
-- `apply` of crates/seedstone-core/src/shard/apply.rs on a command for one key: the lazy expiry of the
-- key, and the command's match.
use seedstone.Base.{
  ℕ, ◌+◌, Bytes, bytes_eq, ◌++◌, bytes_eq_iff, bytes_eq_refl, Option, none, some, [], ◌≡◌, refl,
  ◌∙◌, ap, subst, Bool, true, false, to_nat, Bool-cases, inl, inr, ◌⊎◌, Result, ok, err,
  if◌then◌else◌,
}
use seedstone.Dict
use seedstone.Dict.{Dict}
use seedstone.Dict.Growth.{IsSound}
use seedstone.Dict.Run.{Content, view}
use seedstone.Log.Effect.{Effect, and_then}
use seedstone.Sweep.{reached, deadlines}
use seedstone.Walk.{WalkOrder}
use seedstone.Shard.Clock.{Now}
use seedstone.Shard.Command.{Command, key, route}
use seedstone.Shard.Reply.{Reply, error, log_write_failed}
use seedstone.Shard.State.{ReplicationLog, ShardState, commit}
use seedstone.Shard.Handlers.{is_due, remove_if_expired, evict_if_expired}
use seedstone.Shard.Apply.{reclaim, after_reclaim, routed, apply}
use seedstone.Shard.Meaning.{Outcome, alive, meaning}
use seedstone.Shard.Meaning.Keyspace.{Becomes, remove-Becomes, alive-view}
use seedstone.Shard.Meaning.Writes.{
  Accepts-trans, AllAccepted, LastRefused, IsWritable, Meets, commit-Meets, stays-Meets,
}
use seedstone.Shard.Meaning.Commands.{ValueIsWritable, OnKey, dispatch-OnKey}

alive_again : (now : ℕ) (c : Option Content) → alive now (alive now c) ≡ alive now c
alive_again now none = refl
alive_again now (some c) = elim (Bool-cases (reached c.expires_at now)) [
  | inl gone ↦ rw gone refl
  | inr here ↦ rw (here, here) refl
]

module _ (sip_hash : ℕ → ℕ → Bytes → ℕ) where
  Becomes-trans :
      (d d1 d2 : Dict) (k : Bytes) (c c' : Option Content)
      → Becomes sip_hash d k c d1
      → Becomes sip_hash d1 k c' d2
      → Becomes sip_hash d k c' d2
  Becomes-trans d d1 d2 k c c' (sound1, one) (sound2, two) = (
    sound2,
    λ q. elim (Bool-cases (bytes_eq k q)) [
      | inl e ↦ rw (two q, e) refl
      | inr e ↦ rw (two q, e, one q, e) refl
    ],
  )

  -- No key that is alive has changed, and none has come alive.
  abbrev pub Unchanged : ℕ → Dict → Dict → Type 0
  Unchanged now d d' =
      IsSound sip_hash d'
      × ((q : Bytes) → alive now (view sip_hash d' q) ≡ alive now (view sip_hash d q))

  Becomes-Unchanged :
      (now : ℕ) (d d' : Dict) (k : Bytes) (c : Option Content)
      → alive now c ≡ alive now (view sip_hash d k)
      → Becomes sip_hash d k c d'
      → Unchanged now d d'
  Becomes-Unchanged now d d' k c same (sound, views) = (
    sound,
    λ q. elim (Bool-cases (bytes_eq k q)) [
      | inl e ↦
          rw (views q, e) (same ∙ ap (λ j. alive now (view sip_hash d j)) ((bytes_eq_iff k q).0 e))
      | inr e ↦ rw (views q, e) refl
    ],
  )

module _ (sip_hash : ℕ → ℕ → Bytes → ℕ) (latest : ℕ) (now : Now) {L : Type 0}
    (ops : ReplicationLog L) (shard : ℕ) where
  removal-Meets :
      (s : ShardState L) (k : Bytes) (refusing due : Bool)
      → IsSound sip_hash s.dict
      → IsWritable k
      → Meets sip_hash latest now ops shard {A = Result Bool Reply} s k
          (ok due)
          (err (error log_write_failed))
          (if due then none else view sip_hash s.dict k)
          (if refusing
            then (let gone : Bool × Dict =
                  if due then (true, (Dict.remove sip_hash s.dict k).1) else (false, s.dict) in
                some (ok gone.0, record s { dict = gone.1 }))
            else (if due
                then commit ops s shard
                    (Effect.del k)
                    (Dict.remove sip_hash s.dict k).1
                    (ok true)
                    (err (error log_write_failed))
                else some (ok false, s)))
  removal-Meets s k true true sound short = record {
    answered = ok true;
    after = record s { dict = (Dict.remove sip_hash s.dict k).1 };
    returns = refl;
    refusing = refl;
    outcome = inl (refl, ([], (refl, refl)), remove-Becomes sip_hash s.dict k sound);
  }
  removal-Meets s k true false sound short =
      stays-Meets sip_hash latest now ops shard s k (ok false) _ sound
  removal-Meets s k false true sound short =
      commit-Meets sip_hash latest now ops shard s k (Effect.del k)
        (Dict.remove sip_hash s.dict k).1 (ok true) (err (error log_write_failed)) none sound short
        (remove-Becomes sip_hash s.dict k sound)
  removal-Meets s k false false sound short =
      stays-Meets sip_hash latest now ops shard s k (ok false) _ sound

  reclaim-Meets :
      (order : WalkOrder) (s : ShardState L) (k : Bytes)
      → IsSound sip_hash s.dict
      → IsWritable k
      → Meets sip_hash latest now ops shard {A = Result Bool Reply} s k
          (ok (is_due sip_hash s.dict k now.instant deadlines))
          (err (error log_write_failed))
          (alive now.instant (view sip_hash s.dict k))
          (reclaim sip_hash latest ops order deadlines s shard k now.instant)
  unfolding reclaim remove_if_expired evict_if_expired
  reclaim-Meets order s k sound short =
      let due = is_due sip_hash s.dict k now.instant deadlines in
      rw (alive-view sip_hash s.dict k now.instant sound)
        (removal-Meets s k s.refusing due sound short)

  -- The answer of `apply`, and the keyspace after it.
  abbrev pub Applied : ShardState L → Bytes → Outcome → Option (Reply × ShardState L) → Type 0
  Applied s k out result =
      (reply : Reply) × (s' : ShardState L) × (result ≡ some (reply, s'))
      × (((reply ≡ out.reply)
            × AllAccepted sip_hash latest now ops shard s s'
            × Becomes sip_hash s.dict k out.content s'.dict)
          ⊎ ((reply ≡ error log_write_failed)
              × LastRefused sip_hash latest now ops shard s s'
              × Unchanged sip_hash now.instant s.dict s'.dict))

  routed-Applied :
      (order : WalkOrder) (s : ShardState L) (k : Bytes) (cmd : Command)
      → IsSound sip_hash s.dict
      → IsWritable k
      → ((t : ShardState L)
          → IsSound sip_hash t.dict
          → OnKey sip_hash latest now ops shard order t cmd (key k))
      → Applied s k
          (meaning latest now cmd (alive now.instant (view sip_hash s.dict k)))
          (routed sip_hash latest ops order deadlines s shard now cmd (key k))
  unfolding routed after_reclaim
  routed-Applied order s k cmd sound short does =
      let c = alive now.instant (view sip_hash s.dict k) in
      let due = is_due sip_hash s.dict k now.instant deadlines in
      let m = reclaim-Meets order s k sound short in
      let run =
        ap
          (λ r.
            and_then r
              (λ p. after_reclaim sip_hash latest ops order deadlines shard cmd now p.0 p.1))
          m.returns in
      elim m.outcome [
        | inl (reclaimed, (rs, accepted), becomes) ↦
            let t = record m.after { expired = m.after.expired + to_nat due } in
            let m2 = does t becomes.0 short in
            let here : view sip_hash m.after.dict k ≡ c =
              becomes.1 k ∙ (rw (bytes_eq_refl k) refl) in
            (
              m2.answered,
              m2.after,
              run
                  ∙ ap
                      (λ a.
                        after_reclaim sip_hash latest ops order deadlines shard cmd now a m.after)
                      reclaimed
                  ∙ m2.returns,
              elim m2.outcome [
                | inl (same, (us, stored_log), stored) ↦ inl (
                  same ∙ ap (λ c. (meaning latest now cmd c).reply) here,
                  (
                    rs ++ us,
                    Accepts-trans sip_hash latest now ops shard rs us s.log m.after.log m2.after.log
                        s.seq m.after.seq m2.after.seq accepted stored_log,
                  ),
                  subst
                      (λ c.
                        Becomes sip_hash s.dict k (meaning latest now cmd c).content m2.after.dict)
                      here
                      (Becomes-trans sip_hash s.dict m.after.dict m2.after.dict k c _ becomes
                        stored),
                )
                | inr (same, (us, l, r, before, shard_is, seq_is, refuses, log_is), kept) ↦ inr (
                  same,
                  (
                    rs ++ us,
                    l,
                    r,
                    Accepts-trans sip_hash latest now ops shard rs us s.log m.after.log l s.seq
                        m.after.seq m2.after.seq accepted before,
                    shard_is,
                    seq_is,
                    refuses,
                    log_is,
                  ),
                  Becomes-Unchanged sip_hash now.instant s.dict m2.after.dict k
                      (view sip_hash m.after.dict k)
                      (ap (alive now.instant) here
                        ∙ alive_again now.instant (view sip_hash s.dict k))
                      (Becomes-trans sip_hash s.dict m.after.dict m2.after.dict k c _ becomes kept),
                )
              ],
            )
        | inr (failed, refusal, becomes) ↦ (
          error log_write_failed,
          m.after,
          run
              ∙ ap (λ a. after_reclaim sip_hash latest ops order deadlines shard cmd now a m.after)
                  failed,
          inr (
            refl,
            refusal,
            Becomes-Unchanged sip_hash now.instant s.dict m.after.dict k (view sip_hash s.dict k)
                refl becomes,
          ),
        )
      ]

  -- From a sound keyspace, under the production policy, `apply` of a command for one key returns,
  -- if the key and the command's value are shorter than 2^32 bytes. Either the log has accepted
  -- every record that it was offered, numbered from the shard's position to the position after
  -- them: then the answer is what `meaning` says from what the key holds once its deadline is
  -- heeded, the key holds what `meaning` says, and no other key has changed. Or the log accepted
  -- the records before the last and refused the last: then the answer is that refusal, the
  -- position counts those accepted, and no key has changed but one whose deadline has come.
  pub apply_lem :
      (order : WalkOrder) (s : ShardState L) (cmd : Command) (k : Bytes)
      → IsSound sip_hash s.dict
      → route cmd ≡ key k
      → IsWritable k
      → ValueIsWritable cmd
      → Applied s k
          (meaning latest now cmd (alive now.instant (view sip_hash s.dict k)))
          (apply sip_hash latest ops order deadlines s shard now cmd)
  unfolding apply
  apply_lem order s cmd k sound at short fits = rw at (
      routed-Applied order s k cmd sound short (λ t sound_t.
        subst (λ r. OnKey sip_hash latest now ops shard order t cmd r) at
          (dispatch-OnKey sip_hash latest now ops shard order t cmd sound_t fits)))
