-- ===== src/Shard/Logged.antt =====
-- What it means that a shard's log describes its keyspace: the effects of the records that are
-- appended, run on the keyspace as a map to values and absolute deadlines, make the keyspace after
-- them.
pub mod Keyspace
pub mod Handlers
pub mod Commands
pub mod Reclaim
use mathlib.Core.Option
use mathlib.Core.Path.{fun_ext}
use seedstone.Log.Effect.Codec.{DeadlineInRange}
use seedstone.Base.{
  All, All-append, ℕ, zero, suc, ◌+◌, Bool, true, false, Bytes, bytes_eq, Option, none, some, List,
  [], ◌∷◌, ◌++◌, length, append-nil, append_assoc, length-append, ◌≡◌, refl, sym, ap, ◌∙◌, subst,
  arith, Bool-cases, Option-cases, inl, inr, some-inj, none≢some, if◌then◌else◌,
}
use seedstone.Dict
use seedstone.Dict.{Dict}
use seedstone.Dict.Buckets.{Entry}
use seedstone.Dict.Growth.{IsSound}
use seedstone.Log.Effect
use seedstone.Log.Effect.{Effect, and_then}
use seedstone.Shard.Clock.{Now, deadline_millis}
use seedstone.Shard.State.{LogRecord, ReplicationLog, ShardState, payload_of, append, commit}

-- a value with its deadline in Unix milliseconds
pub record Held : Type 0 where
  pub value : Bytes
  pub deadline : Option ℕ

abbrev pub HeldMap : Type 0
HeldMap = Bytes → Option Held

abbrev pub moved : Option ℕ → Held → Held
moved due h = record h { deadline = due }

abbrev pub effect_step : HeldMap → Effect → HeldMap
effect_step m (Effect.put k v due) q =
    if bytes_eq k q then some (record { value = v; deadline = due }) else m q
effect_step m (Effect.del k) q = if bytes_eq k q then none else m q
effect_step m (Effect.deadline k due) q = if bytes_eq k q then Option.map (moved due) (m q) else m q
effect_step m Effect.flush q = none
effect_step m Effect.rebase q = m q

abbrev pub effect_run : HeldMap → List Effect → HeldMap
effect_run m [] = m
effect_run m (e ∷ es) = effect_run (effect_step m e) es

effect_run-append :
    (m : HeldMap) (es fs : List Effect) → effect_run m (es ++ fs) ≡ effect_run (effect_run m es) fs
effect_run-append m [] fs = refl
effect_run-append m (e ∷ es) fs = effect_run-append (effect_step m e) es fs

abbrev pub held_of : Now → Entry → Held
held_of now e = record { value = e.value; deadline = deadline_millis now e.expires_at }

-- What the trait documents of `append`: a record is kept exactly when it is accepted.
pub record IsLog {L : Type 0} (ops : ReplicationLog L) : Type 0 where
  pub records : L → List LogRecord
  pub accepted :
      (l : L) (r : LogRecord)
      → (ops.append l r).0 ≡ true
      → records (ops.append l r).1 ≡ records l ++ r ∷ []
  pub refused :
      (l : L) (r : LogRecord) → (ops.append l r).0 ≡ false → records (ops.append l r).1 ≡ records l

abbrev pub AllInRange : List Effect → Type 0
AllInRange = All DeadlineInRange

module _ {L : Type 0} (ops : ReplicationLog L) (shard : ℕ) where
  -- The records of effects, in the shard's order from a position on.
  abbrev pub Written : ℕ → List Effect → List LogRecord → Type 0
  Written seq [] [] = Unit {0}
  Written seq [] (r ∷ rs) = ⊥
  Written seq (e ∷ es) [] = ⊥
  Written seq (e ∷ es) (r ∷ rs) =
      (r.shard ≡ shard)
      × (r.seq ≡ seq)
      × (payload_of ops e ≡ some r.payload)
      × Written (suc seq) es rs

  Written-append :
      (seq : ℕ) (es fs : List Effect) (rs us : List LogRecord)
      → Written seq es rs
      → Written (seq + length es) fs us
      → Written seq (es ++ fs) (rs ++ us)
  Written-append seq [] fs [] us w v = subst (λ n. Written n fs us) (omega arith) v
  Written-append seq [] fs (r ∷ rs) us w v = elim w [ ]
  Written-append seq (e ∷ es) fs [] us w v = elim w [ ]
  Written-append seq (e ∷ es) fs (r ∷ rs) us (a, b, c, w) v = (
    a,
    b,
    c,
    Written-append (suc seq) es fs rs us w (subst (λ n. Written n fs us) (omega arith) v),
  )

module _ (sip_hash : ℕ → ℕ → Bytes → ℕ) (now : Now) where
  abbrev pub held : Dict → HeldMap
  held d q = Option.map (held_of now) (Dict.get sip_hash d q)

  module _ {L : Type 0} (ops : ReplicationLog L) (log : IsLog ops) (shard : ℕ) where
    pub record Logs (s s' : ShardState L) (es : List Effect) (rs : List LogRecord) : Type 0 where
      pub sound : IsSound sip_hash s'.dict
      pub describes : (q : Bytes) → held s'.dict q ≡ effect_run (held s.dict) es q
      pub appended : log.records s'.log ≡ log.records s.log ++ rs
      pub written : Written ops shard s.seq es rs
      pub seq : s'.seq ≡ s.seq + length es
      pub in_range : AllInRange es
      pub refusing : s'.refusing ≡ s.refusing

    -- A change of a shard's state is the one that the records it has appended describe.
    abbrev pub IsLogged : ShardState L → ShardState L → Type 0
    IsLogged s s' = (es : List Effect) × (rs : List LogRecord) × Logs s s' es rs

    pub IsLogged-quiet :
        (s s' : ShardState L)
        → IsSound sip_hash s'.dict
        → ((q : Bytes) → held s'.dict q ≡ held s.dict q)
        → s'.log ≡ s.log
        → s'.seq ≡ s.seq
        → s'.refusing ≡ s.refusing
        → IsLogged s s'
    IsLogged-quiet s s' sound same log_same seq_same refusing_same = (
      [],
      [],
      record {
        sound = sound;
        describes = same;
        appended = rw (log_same, append-nil);
        written = tt;
        seq = omega arith;
        in_range = tt;
        refusing = refusing_same;
      },
    )

    pub IsLogged-trans : (s t u : ShardState L) → IsLogged s t → IsLogged t u → IsLogged s u
    IsLogged-trans s t u (es, rs, a) (fs, us, b) = (
      es ++ fs,
      rs ++ us,
      record {
        sound = b.sound;
        describes = λ q.
            b.describes q
            ∙ ap (λ (m : HeldMap). effect_run m fs q) (fun_ext a.describes)
            ∙ ap (λ (m : HeldMap). m q) (sym (effect_run-append (held s.dict) es fs));
        appended = b.appended ∙ rw (a.appended, append_assoc);
        written =
            Written-append ops shard s.seq es fs rs us a.written
              (subst (λ n. Written ops shard n fs us) a.seq b.written);
        seq = omega (arith, a.seq, b.seq, length-append es fs);
        in_range = All-append DeadlineInRange es fs a.in_range b.in_range;
        refusing = b.refusing ∙ a.refusing;
      },
    )

    -- A record in front of the change that it describes.
    pub commit-IsLogged {ℓ} :
        {A : Type ℓ} (s : ShardState L) (e : Effect) (d : Dict) (answer failed a : A)
        (s' : ShardState L)
        → IsSound sip_hash s.dict
        → IsSound sip_hash d
        → ((q : Bytes) → held d q ≡ effect_step (held s.dict) e q)
        → DeadlineInRange e
        → commit ops s shard e d answer failed ≡ some (a, s')
        → IsLogged s s'
    unfolding commit append
    commit-IsLogged s e d answer failed a s' before after step fits h =
        elim (Option-cases (payload_of ops e)) [
          | inl panic ↦ absurd (none≢some (rw panic at h))
          | inr (payload, p) ↦
              let r : LogRecord = record { shard = shard; seq = s.seq; payload = payload } in
              elim (Bool-cases (ops.append s.log r).0) [
                | inl yes_written ↦
                    let found = rw (p, yes_written) at h in
                    let same : record s { log = (ops.append s.log r).1; seq = s.seq + 1; dict = d }
                        ≡ s' =
                      cc in
                    subst (λ t. IsLogged s t) same
                      (
                        e ∷ [],
                        r ∷ [],
                        record {
                          sound = after;
                          describes = step;
                          appended = log.accepted s.log r yes_written;
                          written = (refl, refl, p, tt);
                          seq = refl;
                          in_range = (fits, tt);
                          refusing = refl;
                        },
                      )
                | inr not_written ↦
                    let found = rw (p, not_written) at h in
                    let same : record s { log = (ops.append s.log r).1 } ≡ s' = cc in
                    subst (λ t. IsLogged s t) same
                      (
                        [],
                        [],
                        record {
                          sound = before;
                          describes = λ q. refl;
                          appended = rw (log.refused s.log r not_written, append-nil);
                          written = tt;
                          seq = omega arith;
                          in_range = tt;
                          refusing = refl;
                        },
                      )
              ]
        ]
