-- ===== src/Shard/Meaning/Writes.antt =====
-- The handlers of crates/seedstone-core/src/shard/apply.rs do what their commands mean, and change
-- nothing where the log refuses the record.
use mathlib.Core.Option
use seedstone.Base.{
  ℕ, ◌+◌, ◌^◌, ◌<◌, lt→ltb, Bytes, Option, none, some, List, [], ◌∷◌, ◌++◌, length, ◌≡◌, refl, sym,
  ap, subst, Bool, true, false, Bool-cases, inl, inr, ◌⊎◌, is_some, if◌then◌else◌,
}
use seedstone.Dict
use seedstone.Dict.{Dict}
use seedstone.Dict.Buckets.{Entry}
use seedstone.Dict.Growth.{IsSound}
use seedstone.Dict.Run.{Content, content, view}
use seedstone.Log.Effect.{Effect, put_bytes, put_deadline, to_le_bytes, encode}
use seedstone.Shard.Clock.{Now, deadline}
use seedstone.Shard.Command.{Lifetime, Cond, nx, xx}
use seedstone.Shard.Reply.{Reply, bulk, removed, error, log_write_failed}
use seedstone.Shard.State.{LogRecord, ReplicationLog, ShardState, payload_of, append, commit}
use seedstone.Shard.Handlers.{SetArgs, unmet, stored, set, del}
use seedstone.Shard.Meaning.{holding, due_of, set_outcome}
use seedstone.Shard.Meaning.Keyspace.{Becomes, same-Becomes, remove-Becomes, stored-Becomes}

-- a length that the log can write
abbrev pub IsWritable : Bytes → Type 0
IsWritable bytes = length bytes < 2 ^ 32

put_bytes-some : (bytes : Bytes) → IsWritable bytes → (p : Bytes) × (put_bytes bytes ≡ some p)
unfolding put_bytes
put_bytes-some bytes short =
    (to_le_bytes 4 (length bytes) ++ bytes, rw (lt→ltb (length bytes) (2 ^ 32) short))

-- the lengths of an effect, as the log can write them
abbrev pub EffectIsWritable : Effect → Type 0
EffectIsWritable (Effect.put k v due) = IsWritable k × IsWritable v
EffectIsWritable (Effect.del k) = IsWritable k
EffectIsWritable (Effect.deadline k due) = IsWritable k
EffectIsWritable Effect.flush = Unit {0}
EffectIsWritable Effect.rebase = Unit {0}

encode-some : (e : Effect) → EffectIsWritable e → (p : Bytes) × (encode e ≡ some p)
unfolding encode
encode-some (Effect.put k v due) (short_k, short_v) =
    let (p, key_put) = put_bytes-some k short_k in
    let (q, value_put) = put_bytes-some v short_v in
    (1 ∷ (p ++ (q ++ put_deadline due)), rw (key_put, value_put))
encode-some (Effect.del k) short = let (p, key_put) = put_bytes-some k short in (2 ∷ p, rw key_put)
encode-some (Effect.deadline k due) short =
    let (p, key_put) = put_bytes-some k short in (3 ∷ (p ++ put_deadline due), rw key_put)
encode-some Effect.flush short = (4 ∷ [], refl)
encode-some Effect.rebase short = (5 ∷ [], refl)

pub payload_of-some :
    {L : Type 0} (ops : ReplicationLog L) (e : Effect)
    → EffectIsWritable e
    → (p : Bytes) × (payload_of ops e ≡ some p)
unfolding payload_of
payload_of-some ops e short =
    let (p, written) = encode-some e short in
    elim (Bool-cases ops.keeps_payloads) [
      | inl keeps ↦ (p, rw keeps written)
      | inr drops ↦ ([], rw drops)
    ]

module _ (sip_hash : ℕ → ℕ → Bytes → ℕ) (latest : ℕ) (now : Now) {L : Type 0}
    (ops : ReplicationLog L) (shard : ℕ) where
  -- The log accepts these records, one after the other, numbered from a position on: the log and
  -- the position after them.
  abbrev pub Accepts : L → ℕ → List LogRecord → L → ℕ → Type 0
  Accepts l seq [] l' seq' = (l ≡ l') × (seq ≡ seq')
  Accepts l seq (r ∷ rs) l' seq' =
      (r.shard ≡ shard)
      × (r.seq ≡ seq)
      × ((ops.append l r).0 ≡ true)
      × Accepts (ops.append l r).1 (seq + 1) rs l' seq'

  pub Accepts-trans :
      (rs us : List LogRecord) (l m n : L) (a b c : ℕ)
      → Accepts l a rs m b
      → Accepts m b us n c
      → Accepts l a (rs ++ us) n c
  Accepts-trans [] us l m n a b c (same, at) h =
      subst (λ x. Accepts x a us n c) (sym same) (subst (λ x. Accepts m x us n c) (sym at) h)
  Accepts-trans (r ∷ rs) us l m n a b c (shard_is, seq_is, taken, later) h =
      (shard_is, seq_is, taken, Accepts-trans rs us (ops.append l r).1 m n (a + 1) b c later h)

  -- Every record that a step has offered to the log was accepted.
  abbrev pub AllAccepted : ShardState L → ShardState L → Type 0
  AllAccepted s s' = (rs : List LogRecord) × Accepts s.log s.seq rs s'.log s'.seq

  -- The log refused the last record that a step has offered, and the position is not moved for it.
  abbrev pub LastRefused : ShardState L → ShardState L → Type 0
  LastRefused s s' =
      (rs : List LogRecord) × (l : L) × (r : LogRecord) × Accepts s.log s.seq rs l s'.seq
      × (r.shard ≡ shard)
      × (r.seq ≡ s'.seq)
      × ((ops.append l r).0 ≡ false)
      × (s'.log ≡ (ops.append l r).1)

  -- A step on a key returns: with the answer and the keyspace after the change, where the log has
  -- accepted every record, or, where it refused the last one, with the refusal and the keyspace as
  -- it was.
  pub record Meets {A : Type 0} (s : ShardState L) (k : Bytes) (answer failed : A)
      (c : Option Content) (result : Option (A × ShardState L)) : Type 0 where
    pub answered : A
    pub after : ShardState L
    pub returns : result ≡ some (answered, after)
    pub refusing : after.refusing ≡ s.refusing
    pub outcome :
        ((answered ≡ answer) × AllAccepted s after × Becomes sip_hash s.dict k c after.dict)
        ⊎ ((answered ≡ failed)
            × LastRefused s after
            × Becomes sip_hash s.dict k (view sip_hash s.dict k) after.dict)

  pub commit-Meets :
      {A : Type 0} (s : ShardState L) (k : Bytes) (e : Effect) (d : Dict) (answer failed : A)
      (c : Option Content)
      → IsSound sip_hash s.dict
      → EffectIsWritable e
      → Becomes sip_hash s.dict k c d
      → Meets s k answer failed c (commit ops s shard e d answer failed)
  unfolding commit append
  commit-Meets s k e d answer failed c sound short becomes =
      let (payload, p) = payload_of-some ops e short in
      let r : LogRecord = record { shard = shard; seq = s.seq; payload = payload } in
      elim (Bool-cases (ops.append s.log r).0) [
        | inl accepts ↦ record {
          answered = answer;
          after = record s { log = (ops.append s.log r).1; seq = s.seq + 1; dict = d };
          returns = rw (p, accepts);
          refusing = refl;
          outcome = inl (refl, (r ∷ [], (refl, refl, accepts, (refl, refl))), becomes);
        }
        | inr refuses ↦ record {
          answered = failed;
          after = record s { log = (ops.append s.log r).1 };
          returns = rw (p, refuses);
          refusing = refl;
          outcome = inr (
            refl,
            ([], s.log, r, (refl, refl), refl, refl, refuses, refl),
            same-Becomes sip_hash s.dict s.dict k sound (λ q. refl),
          );
        }
      ]

  pub stays-Meets :
      {A : Type 0} (s : ShardState L) (k : Bytes) (answer failed : A)
      → IsSound sip_hash s.dict
      → Meets s k answer failed (view sip_hash s.dict k) (some (answer, s))
  stays-Meets s k answer failed sound = record {
    answered = answer;
    after = s;
    returns = refl;
    refusing = refl;
    outcome =
        inl (refl, ([], (refl, refl)), same-Becomes sip_hash s.dict s.dict k sound (λ q. refl));
  }

  module _ (s : ShardState L) (k : Bytes) (sound : IsSound sip_hash s.dict)
      (short : IsWritable k) where
    abbrev pub refused : Reply
    refused = error log_write_failed

    -- The key holds what `c` is, and nothing is done.
    pub stays :
        (c : Option Content) (answer : Reply)
        → view sip_hash s.dict k ≡ c
        → Meets s k answer refused c (some (answer, s))
    stays c answer found =
        subst (λ c. Meets s k answer refused c (some (answer, s))) found
          (stays-Meets s k answer refused sound)

    pub writes :
        (v : Bytes) (due millis : Option ℕ) (answer : Reply)
        → IsWritable v
        → Meets s k answer refused (holding v due) (
            commit ops s shard
              (Effect.put k v millis)
              (stored sip_hash s.dict k v due)
              answer
              refused)
    writes v due millis answer short_v =
        commit-Meets s k (Effect.put k v millis) (stored sip_hash s.dict k v due) answer refused
          (holding v due) sound (short, short_v) (stored-Becomes sip_hash s.dict k v due sound)

    pub del-Meets :
        (o : Option Entry)
        → Dict.get sip_hash s.dict k ≡ o
        → Meets s k
            (removed (is_some (Option.map content o)))
            refused
            none
            (del sip_hash ops s shard k)
    unfolding del
    del-Meets none found = rw found (stays none (removed false) (ap (Option.map content) found))
    del-Meets (some x) found = rw found (
        commit-Meets s k (Effect.del k) (Dict.remove sip_hash s.dict k).1 (removed true) refused
          none sound short (remove-Becomes sip_hash s.dict k sound))

    abbrev pub args_of : Bytes → Option Lifetime → Option Cond → Bool → Bool → SetArgs
    args_of v life cond keep_ttl get = record {
      key = k;
      value = v;
      expiry = life;
      cond = cond;
      keep_ttl = keep_ttl;
      get = get;
    }

    abbrev pub due_at : Option Lifetime → Bool → Option Content → Option ℕ
    due_at life keep_ttl c = if keep_ttl then due_of c else deadline latest now.instant life

    same_reply :
        (get : Bool) (old : Option Bytes)
        → (if get then bulk (if get then old else none) else Reply.ok)
          ≡ (if get then bulk old else Reply.ok)
    same_reply true old = refl
    same_reply false old = refl

    no_value : (get : Bool) → ◌≡◌ {A = Option Bytes} (if get then none else none) none
    no_value true = refl
    no_value false = refl

    -- The handler of SET does what its outcome says.
    pub set-Meets :
        (v : Bytes) (life : Option Lifetime) (cond : Option Cond) (keep_ttl get : Bool)
        (o : Option Entry)
        → IsWritable v
        → Dict.get sip_hash s.dict k ≡ o
        → let out =
            set_outcome cond v
              (due_at life keep_ttl (Option.map content o))
              get
              (Option.map content o) in
          Meets s k out.reply refused out.content
            (set sip_hash ops latest s shard now (args_of v life cond keep_ttl get))
    unfolding set unmet
    set-Meets v life none keep_ttl get none short_v found =
        rw (found, same_reply get none) (writes v (due_at life keep_ttl none) _ _ short_v)
    set-Meets v life none keep_ttl get (some x) short_v found =
        rw (found, same_reply get (some x.value))
          (writes v (due_at life keep_ttl (some (content x))) _ _ short_v)
    set-Meets v life (some nx) keep_ttl get none short_v found =
        rw (found, set, found, same_reply get none)
          (writes v (due_at life keep_ttl none) _ _ short_v)
    set-Meets v life (some nx) keep_ttl get (some x) short_v found =
        rw (found, set) (stays (some (content x)) _ (ap (Option.map content) found))
    set-Meets v life (some xx) keep_ttl get none short_v found =
        rw (found, set, no_value get) (stays none _ (ap (Option.map content) found))
    set-Meets v life (some xx) keep_ttl get (some x) short_v found =
        rw (found, set, found, same_reply get (some x.value))
          (writes v (due_at life keep_ttl (some (content x))) _ _ short_v)
