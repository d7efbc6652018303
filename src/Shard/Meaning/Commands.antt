-- ===== src/Shard/Meaning/Commands.antt =====
-- `apply` of crates/seedstone-core/src/shard/apply.rs on a command for one key, after the lazy expiry
-- of that key.
use mathlib.Core.Option
use seedstone.Base.{
  ℕ, Bytes, codes, ℤ, pos, negate, Option, none, some, [], length, ◌≡◌, refl, ◌∙◌, ap, false,
  to_nat, inl, is_some, if◌then◌else◌,
}
use seedstone.Dict
use seedstone.Dict.{Dict}
use seedstone.Dict.Buckets.{Entry}
use seedstone.Dict.Growth.{IsSound}
use seedstone.Dict.Run.{content, view}
use seedstone.Sweep.{deadlines}
use seedstone.Walk.{WalkOrder}
use seedstone.Shard.Clock.{Now, span_deadline, remaining_seconds, remaining_millis}
use seedstone.Shard.Command.{Command, Route, key, ex, px, route}
use seedstone.Shard.Reply.{Reply, bulk, status, integer, error, log_write_failed}
use seedstone.Shard.State.{ReplicationLog, ShardState}
use seedstone.Shard.Handlers.{to_i64, value_of}
use seedstone.Shard.Apply.{dispatch}
use seedstone.Shard.Meaning.{Outcome, gives, bytes_of, length_of, left_of, ttl_of, meaning}
use seedstone.Shard.Meaning.Keyspace.{same-Becomes, touch-view}
use seedstone.Shard.Meaning.Writes.{IsWritable, Meets, del-Meets, set-Meets}
use seedstone.Shard.Meaning.Changes.{set_nx-Meets, incr_by-Meets, set_expiry-Meets, persist-Meets}

-- The value of a command is one that the log can write.
abbrev pub ValueIsWritable : Command → Type 0
ValueIsWritable (Command.set k v life cond keep_ttl get) = IsWritable v
ValueIsWritable (Command.set_ex k n v) = IsWritable v
ValueIsWritable (Command.set_nx k v) = IsWritable v
ValueIsWritable (Command.pset_ex k n v) = IsWritable v
ValueIsWritable other = Unit {0}

bytes_of_content : (o : Option Entry) → value_of o ≡ bytes_of (Option.map content o)
bytes_of_content none = refl
bytes_of_content (some x) = refl

is_some_content : (o : Option Entry) → is_some o ≡ is_some (Option.map content o)
is_some_content none = refl
is_some_content (some x) = refl

length_of_content :
    (o : Option Entry)
    → elim o [ none ↦ pos 0 | some entry ↦ to_i64 (length entry.value) ]
      ≡ length_of (Option.map content o)
length_of_content none = refl
length_of_content (some x) = refl

left_of_lem :
    (remaining : ℕ → ℕ → ℤ) (now : ℕ) (due : Option ℕ)
    → elim due [ none ↦ integer (negate 1) | some at ↦ integer (remaining at now) ]
      ≡ integer (left_of remaining now due)
left_of_lem remaining now none = refl
left_of_lem remaining now (some due) = refl

ttl_of_content :
    (remaining : ℕ → ℕ → ℤ) (now : ℕ) (o : Option Entry)
    → elim o [
      | none ↦ integer (negate 2)
      | some entry ↦ elim entry.expires_at [
        | none ↦ integer (negate 1)
        | some at ↦ integer (remaining at now)
      ]
    ]
      ≡ integer (ttl_of remaining now (Option.map content o))
ttl_of_content remaining now none = refl
ttl_of_content remaining now (some x) = left_of_lem remaining now x.expires_at

module _ (sip_hash : ℕ → ℕ → Bytes → ℕ) (latest : ℕ) (now : Now) {L : Type 0}
    (ops : ReplicationLog L) (shard : ℕ) where
  abbrev pub Does : ShardState L → Bytes → Outcome → Option (Reply × ShardState L) → Type 0
  Does s k out result =
      Meets sip_hash latest now ops shard s k out.reply (error log_write_failed) out.content result

  module _ (s : ShardState L) (sound : IsSound sip_hash s.dict) where
    -- A read leaves the state as it is, or stamps its key.
    reads :
        (k : Bytes) (reply reply' : Reply)
        → reply ≡ reply'
        → Does s k (gives reply' (view sip_hash s.dict k)) (some (reply, s))
    reads k reply reply' same = record {
      answered = reply;
      after = s;
      returns = refl;
      refusing = refl;
      outcome =
          inl (same, ([], (refl, refl)), same-Becomes sip_hash s.dict s.dict k sound (λ q. refl));
    }

    touches :
        (k : Bytes) (reply reply' : Reply)
        → reply ≡ reply'
        → Does s k
            (gives reply' (view sip_hash s.dict k))
            (some (reply, record s { dict = Dict.touch sip_hash s.dict k }))
    touches k reply reply' same =
        let (sound', views) = touch-view sip_hash s.dict k sound in
        record {
          answered = reply;
          after = record s { dict = Dict.touch sip_hash s.dict k };
          returns = refl;
          refusing = refl;
          outcome = inl (
            same,
            ([], (refl, refl)),
            same-Becomes sip_hash s.dict (Dict.touch sip_hash s.dict k) k sound' views,
          );
        }

  -- What the match of `apply` does to the key of a command, if it has one.
  abbrev pub OnKey : WalkOrder → ShardState L → Command → Route → Type 0
  OnKey order s cmd (key k) =
      IsWritable k
      → Does s k (meaning latest now cmd (view sip_hash s.dict k))
          (dispatch sip_hash latest ops order deadlines s shard now cmd)
  OnKey order s cmd other = Unit {0}

  pub dispatch-OnKey :
      (order : WalkOrder) (s : ShardState L) (cmd : Command)
      → IsSound sip_hash s.dict
      → ValueIsWritable cmd
      → OnKey order s cmd (route cmd)
  unfolding dispatch meaning
  dispatch-OnKey order s (Command.get k) sound fits = λ short. touches s sound k _ _ (
      ap bulk (
        bytes_of_content (Dict.get sip_hash (Dict.touch sip_hash s.dict k) k)
        ∙ ap bytes_of ((touch-view sip_hash s.dict k sound).1 k)))
  dispatch-OnKey order s (Command.set k v life cond keep_ttl get) sound fits = λ short.
      set-Meets sip_hash latest now ops shard s k sound short v life cond keep_ttl get
        (Dict.get sip_hash s.dict k) fits refl
  dispatch-OnKey order s (Command.set_ex k n v) sound fits = λ short.
      set-Meets sip_hash latest now ops shard s k sound short v (some (ex n)) none false false
        (Dict.get sip_hash s.dict k) fits refl
  dispatch-OnKey order s (Command.set_nx k v) sound fits = λ short.
      set_nx-Meets sip_hash latest now ops shard s k sound short v (Dict.get sip_hash s.dict k) fits
        refl
  dispatch-OnKey order s (Command.pset_ex k n v) sound fits = λ short.
      set-Meets sip_hash latest now ops shard s k sound short v (some (px n)) none false false
        (Dict.get sip_hash s.dict k) fits refl
  dispatch-OnKey order s (Command.del k) sound fits = λ short.
      del-Meets sip_hash latest now ops shard s k sound short (Dict.get sip_hash s.dict k) refl
  dispatch-OnKey order s (Command.incr_by k delta) sound fits = λ short.
      incr_by-Meets sip_hash latest now ops shard s k sound short delta (Dict.get sip_hash s.dict k)
        refl
  dispatch-OnKey order s (Command.expire k n) sound fits = λ short.
      set_expiry-Meets sip_hash latest now ops shard s k sound short
        (span_deadline latest now.instant n ex) (Dict.get sip_hash s.dict k) refl
  dispatch-OnKey order s (Command.pexpire k n) sound fits = λ short.
      set_expiry-Meets sip_hash latest now ops shard s k sound short
        (span_deadline latest now.instant n px) (Dict.get sip_hash s.dict k) refl
  dispatch-OnKey order s (Command.expire_at k n) sound fits = λ short.
      set_expiry-Meets sip_hash latest now ops shard s k sound short
        (span_deadline latest now.instant n px) (Dict.get sip_hash s.dict k) refl
  dispatch-OnKey order s (Command.pexpire_at k n) sound fits = λ short.
      set_expiry-Meets sip_hash latest now ops shard s k sound short
        (span_deadline latest now.instant n px) (Dict.get sip_hash s.dict k) refl
  dispatch-OnKey order s (Command.ttl k) sound fits = λ short.
      reads s sound k _ _
        (ttl_of_content remaining_seconds now.instant (Dict.get sip_hash s.dict k))
  dispatch-OnKey order s (Command.pttl k) sound fits = λ short.
      reads s sound k _ _ (ttl_of_content remaining_millis now.instant (Dict.get sip_hash s.dict k))
  dispatch-OnKey order s (Command.persist k) sound fits = λ short.
      persist-Meets sip_hash latest now ops shard s k sound short (Dict.get sip_hash s.dict k) refl
  dispatch-OnKey order s (Command.exists k) sound fits = λ short.
      reads s sound k _ _
        (ap (λ there. integer (pos (to_nat there))) (is_some_content (Dict.get sip_hash s.dict k)))
  dispatch-OnKey order s (Command.type_of k) sound fits = λ short. reads s sound k _ _ (
      ap (λ there. status (if there then codes "string" else codes "none"))
        (is_some_content (Dict.get sip_hash s.dict k)))
  dispatch-OnKey order s (Command.str_len k) sound fits = λ short. touches s sound k _ _ (
      ap integer (
        length_of_content (Dict.get sip_hash (Dict.touch sip_hash s.dict k) k)
        ∙ ap length_of ((touch-view sip_hash s.dict k sound).1 k)))
  dispatch-OnKey order s Command.flush_db sound fits = tt
  dispatch-OnKey order s Command.db_size sound fits = tt
  dispatch-OnKey order s (Command.scan_step cursor count pattern) sound fits = tt
  dispatch-OnKey order s Command.stats sound fits = tt
  dispatch-OnKey order s (Command.snapshot wait) sound fits = tt
