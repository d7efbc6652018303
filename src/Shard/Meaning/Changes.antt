-- ===== src/Shard/Meaning/Changes.antt =====
-- SETNX, INCRBY, the expiries and PERSIST of crates/seedstone-core/src/shard/apply.rs do what their
-- commands mean, and change nothing where the log refuses the record.
use mathlib.Core.Option
use seedstone.Base.{
  ℕ, suc, ltb→lt, Bytes, ℤ, pos, negsuc, is_i64, ◌+ℤ◌, Option, none, some, length-decimal, ◌≡◌,
  refl, ◌∙◌, ap, subst, arith, true, false, Bool-cases, inl, inr, is_some, if◌then◌else◌, none≢some,
  some-inj,
}
use seedstone.Dict
use seedstone.Dict.{Dict}
use seedstone.Dict.Buckets.{Entry}
use seedstone.Dict.Growth.{IsSound}
use seedstone.Dict.Run.{Content, content, view}
use seedstone.Log.Effect.{Effect, and_then}
use seedstone.Resp.{signed}
use seedstone.Shard.Integer.{parse_i64}
use seedstone.Shard.Clock.{Now, SpanDeadline, lands, passed, deadline, deadline_millis}
use seedstone.Shard.Command.{nx}
use seedstone.Shard.Reply.{
  Reply, bulk, integer, error, not_an_integer, would_overflow, log_write_failed,
}
use seedstone.Shard.State.{ReplicationLog, ShardState, commit}
use seedstone.Shard.Handlers.{
  as_integer, checked_add_i64, counter, stored, set_nx_of, incr_by, set_expiry, persist,
}
use seedstone.Shard.Meaning.{
  Outcome, gives, holding, due_of, summed, without_deadline, expired_to, persisted, added,
  number_of,
}
use seedstone.Shard.Meaning.Keyspace.{remove-Becomes, deadline-Becomes}
use seedstone.Shard.Meaning.Writes.{IsWritable, Meets, commit-Meets, stays, writes, set-Meets}

sum_is_i64 : (a b next : ℤ) → checked_add_i64 a b ≡ some next → is_i64 next ≡ true
unfolding checked_add_i64
sum_is_i64 a b next h = elim (Bool-cases (is_i64 (a +ℤ b))) [
  | inl fits ↦
      let same : a +ℤ b ≡ next = some-inj (rw fits at h) in subst (λ n. is_i64 n ≡ true) same fits
  | inr over ↦ absurd (none≢some (rw over at h))
]

signed-IsWritable : (n : ℤ) → is_i64 n ≡ true → IsWritable (signed n)
unfolding signed
signed-IsWritable (pos n) h =
    let bound = ltb→lt n 9223372036854775808 h in
    let short = length-decimal 18 n (omega arith) in omega arith
signed-IsWritable (negsuc n) h =
    let bound = ltb→lt n 9223372036854775808 h in
    let short = length-decimal 18 (suc n) (omega arith) in omega arith

module _ (sip_hash : ℕ → ℕ → Bytes → ℕ) (latest : ℕ) (now : Now) {L : Type 0}
    (ops : ReplicationLog L) (shard : ℕ) where
  mapped-Meets :
      {A B : Type 0} (f : A → B) (s : ShardState L) (k : Bytes) (answer failed : A)
      (c : Option Content) (result : Option (A × ShardState L))
      → Meets sip_hash latest now ops shard s k answer failed c result
      → Meets sip_hash latest now ops shard s k
          (f answer)
          (f failed)
          c
          (Option.map (λ (p : A × ShardState L). (f p.0, p.1)) result)
  mapped-Meets f s k answer failed c result m = record {
    answered = f m.answered;
    after = m.after;
    returns = ap (Option.map (λ p. (f p.0, p.1))) m.returns;
    refusing = m.refusing;
    outcome = elim m.outcome [
      | inl (same, log, becomes) ↦ inl (ap f same, log, becomes)
      | inr (same, log, becomes) ↦ inr (ap f same, log, becomes)
    ];
  }

  module _ (s : ShardState L) (k : Bytes) (sound : IsSound sip_hash s.dict)
      (short : IsWritable k) where
    abbrev Answers : Outcome → Option (Reply × ShardState L) → Type 0
    Answers out result =
        Meets sip_hash latest now ops shard s k out.reply (error log_write_failed) out.content
          result

    rests :
        (c : Option Content) (answer : Reply)
        → view sip_hash s.dict k ≡ c
        → Answers (gives answer c) (some (answer, s))
    rests c answer found = stays sip_hash latest now ops shard s k sound short c answer found

    pub set_nx-Meets :
        (v : Bytes) (o : Option Entry)
        → IsWritable v
        → Dict.get sip_hash s.dict k ≡ o
        → Answers
            (if is_some (Option.map content o)
              then gives (integer (pos 0)) (Option.map content o)
              else gives (integer (pos 1)) (holding v none))
            (set_nx_of sip_hash ops latest s shard now k v)
    unfolding set_nx_of deadline
    set_nx-Meets v none short_v found = mapped-Meets as_integer s k Reply.ok _ _ _ (
        set-Meets sip_hash latest now ops shard s k sound short v none (some nx) false false none
          short_v found)
    set_nx-Meets v (some x) short_v found = mapped-Meets as_integer s k (bulk none) _ _ _ (
        set-Meets sip_hash latest now ops shard s k sound short v none (some nx) false false
          (some x) short_v found)

    sum-Meets :
        (c : Option Content) (current : ℤ) (delta : ℤ) (sum : Option ℤ)
        → view sip_hash s.dict k ≡ c
        → checked_add_i64 current delta ≡ sum
        → Answers (summed c sum) (elim sum [
          | none ↦ some (error would_overflow, s)
          | some next ↦
              commit ops s shard
                (Effect.put k (signed next) (deadline_millis now (due_of c)))
                (stored sip_hash s.dict k (signed next) (due_of c))
                (integer next)
                (error log_write_failed)
        ])
    sum-Meets c current delta none held e = rests c (error would_overflow) held
    sum-Meets c current delta (some next) held e =
        writes sip_hash latest now ops shard s k sound short (signed next) (due_of c)
          (deadline_millis now (due_of c)) (integer next)
          (signed-IsWritable next (sum_is_i64 current delta next e))

    integer-Meets :
        (delta : ℤ) (x : Entry) (n : Option ℤ)
        → view sip_hash s.dict k ≡ some (content x)
        → Answers
            (added (some (content x)) n delta)
            (elim (and_then {B = ℤ × Option ℕ} n (λ n. some (n, x.expires_at))) [
              | none ↦ some (error not_an_integer, s)
              | some (current, expires_at) ↦ elim (checked_add_i64 current delta) [
                | none ↦ some (error would_overflow, s)
                | some next ↦
                    commit ops s shard
                      (Effect.put k (signed next) (deadline_millis now expires_at))
                      (stored sip_hash s.dict k (signed next) expires_at)
                      (integer next)
                      (error log_write_failed)
              ]
            ])
    integer-Meets delta x none held = rests (some (content x)) (error not_an_integer) held
    integer-Meets delta x (some current) held =
        sum-Meets (some (content x)) current delta (checked_add_i64 current delta) held refl

    pub incr_by-Meets :
        (delta : ℤ) (o : Option Entry)
        → Dict.get sip_hash s.dict k ≡ o
        → Answers
            (added (Option.map content o) (number_of (Option.map content o)) delta)
            (incr_by sip_hash ops s shard now k delta)
    unfolding incr_by counter
    incr_by-Meets delta none found =
        rw (incr_by, found)
          (sum-Meets none (pos 0) delta (checked_add_i64 (pos 0) delta)
            (ap (Option.map content) found) refl)
    incr_by-Meets delta (some x) found =
        rw (incr_by, found)
          (integer-Meets delta x (parse_i64 x.value) (ap (Option.map content) found))

    pub set_expiry-Meets :
        (at : SpanDeadline) (o : Option Entry)
        → Dict.get sip_hash s.dict k ≡ o
        → Answers (expired_to at (Option.map content o)) (set_expiry sip_hash ops s shard now k at)
    unfolding set_expiry
    set_expiry-Meets at none found =
        rw found (rests none (integer (pos 0)) (ap (Option.map content) found))
    set_expiry-Meets passed (some x) found = rw found (
        commit-Meets sip_hash latest now ops shard s k (Effect.del k)
          (Dict.remove sip_hash s.dict k).1 (integer (pos 1)) (error log_write_failed) none sound
          short (remove-Becomes sip_hash s.dict k sound))
    set_expiry-Meets (lands due) (some x) found = rw found (
        commit-Meets sip_hash latest now ops shard s k (Effect.deadline k (deadline_millis now due))
          (Dict.set_deadline sip_hash s.dict k due).1 (integer (pos 1)) (error log_write_failed)
          (holding x.value due) sound short (deadline-Becomes sip_hash s.dict k due x sound found))

    dated-Meets :
        (x : Entry) (due : Option ℕ)
        → Dict.get sip_hash s.dict k ≡ some x
        → x.expires_at ≡ due
        → Answers (without_deadline x.value due) (
            if is_some due
            then commit ops s shard
                (Effect.deadline k none)
                (Dict.set_deadline sip_hash s.dict k none).1
                (integer (pos 1))
                (error log_write_failed)
            else some (integer (pos 0), s))
    dated-Meets x none found e =
        rests (holding x.value none) (integer (pos 0))
          (ap (Option.map content) found ∙ ap (holding x.value) e)
    dated-Meets x (some due) found e =
        commit-Meets sip_hash latest now ops shard s k (Effect.deadline k none)
          (Dict.set_deadline sip_hash s.dict k none).1 (integer (pos 1)) (error log_write_failed)
          (holding x.value none) sound short (deadline-Becomes sip_hash s.dict k none x sound found)

    pub persist-Meets :
        (o : Option Entry)
        → Dict.get sip_hash s.dict k ≡ o
        → Answers (persisted (Option.map content o)) (persist sip_hash ops s shard k)
    unfolding persist
    persist-Meets none found =
        rw found (rests none (integer (pos 0)) (ap (Option.map content) found))
    persist-Meets (some x) found = rw found (dated-Meets x x.expires_at found refl)
