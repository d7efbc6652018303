-- ===== src/Shard/Replay/Recovery.antt =====
-- From the records that a shard appended to the keyspace that replaying them rebuilds. `bucketed` is
-- the decoding of a shard's records in `item` of crates/seedstone-core/src/log/recovery.rs.
use mathlib.Core.Option
use seedstone.Base.{
  ℕ, suc, ◌+◌, Bool, true, All, Bytes, Option, none, some, List, [], ◌∷◌, ◌++◌, length, get_elem?,
  ◌≡◌, refl, sym, ap, ◌∙◌, subst, arith, if◌then◌else◌,
}
use seedstone.Dict
use seedstone.Dict.{Dict}
use seedstone.Dict.Run.{content}
use seedstone.Log.Effect.{Effect, encode, decode, and_then}
use seedstone.Log.Effect.Codec.{DeadlineInRange, decode-encode}
use seedstone.Memory.{MemoryLimit}
use seedstone.Shard.Clock.{Now}
use seedstone.Shard.Reply.{Reply}
use seedstone.Shard.State.{LogRecord, ReplicationLog, ShardState, payload_of}
use seedstone.Shard.Executor.{ShardPolicy, Executor, Asked, serve_all}
use seedstone.Sweep.{deadlines}
use seedstone.Shard.Executor.Batch.{AllServe}
use seedstone.Shard.Executor.Served.{Served, CanEvict, serve_all_lem}
use seedstone.Shard.Logged.{IsLog, Written, Held, held, effect_run}
use seedstone.Shard.Replay.{Rebuilt, replay_effect, replay_records, replay_into}
use seedstone.Shard.Replay.Effects.{Mirrors, entries_of}
use seedstone.Shard.Replay.Rebuilding.{after_replay, replay_into_lem}

-- A record that is no effect is left out.
unfoldable pub bucketed : List LogRecord → List (ℕ × Effect)
unfolding decode
bucketed [] = []
bucketed (r ∷ rs) = elim (decode r.payload) [
  | none ↦ bucketed rs
  | some e ↦ (r.seq, e) ∷ bucketed rs
]

abbrev numbered : ℕ → List Effect → List (ℕ × Effect)
numbered seq [] = []
numbered seq (e ∷ es) = (seq, e) ∷ numbered (suc seq) es

entries_of-numbered : (seq : ℕ) (es : List Effect) → entries_of (numbered seq es) ≡ es
entries_of-numbered seq [] = refl
entries_of-numbered seq (e ∷ es) = ap (λ l. e ∷ l) (entries_of-numbered (suc seq) es)

module _ {L : Type 0} (ops : ReplicationLog L) (keeps : ops.keeps_payloads ≡ true) (shard : ℕ) where
  decode-payload_of :
      (e : Effect) (payload : Bytes)
      → DeadlineInRange e
      → payload_of ops e ≡ some payload
      → decode payload ≡ some e
  unfolding payload_of
  decode-payload_of e payload fits written =
      decode-encode e payload fits
        (subst (λ b. (if b then encode e else some []) ≡ some payload) keeps written)

  -- The records of a shard decode to the effects, each at its position.
  bucketed-Written :
      (seq : ℕ) (es : List Effect) (rs : List LogRecord)
      → Written ops shard seq es rs
      → All DeadlineInRange es
      → bucketed rs ≡ numbered seq es
  unfolding bucketed
  bucketed-Written seq [] [] written fits = refl
  bucketed-Written seq [] (r ∷ rs) written fits = elim written [ ]
  bucketed-Written seq (e ∷ es) [] written fits = elim written [ ]
  bucketed-Written seq (e ∷ es) (r ∷ rs) (at, position, payload, rest) (fit, fits) =
      rw (decode-payload_of e r.payload fit payload, bucketed)
        (rw position (ap (λ l. (seq, e) ∷ l) (bucketed-Written (suc seq) es rs rest fits)))

module _ (sip_hash : ℕ → ℕ → Bytes → ℕ) (latest : ℕ) (now : Now) where
  replay_records-seq :
      (seq : ℕ) (es : List Effect) (b : Rebuilt)
      → b.seq ≡ seq
      → (replay_records sip_hash latest now (numbered seq es) b).seq ≡ seq + length es
  unfolding replay_records
  replay_records-seq seq [] b h = omega (arith, h)
  replay_records-seq seq (e ∷ es) b h =
      let (d, due) = replay_effect sip_hash latest now e b.dict b.due in
      replay_records-seq (suc seq) es (record { dict = d; seq = seq + 1; due = due }) (omega arith)
      ∙ omega arith

-- Take an executor whose shards have sound keyspaces and do not refuse, over a log that keeps
-- payloads, with the production policy on deadlines, and an envelope of commands other than SCAN
-- for its shards, whose keys and values are shorter than 2^32 bytes. Either nothing is ever
-- evicted, or what each command of the run leaves, before its eviction, is a shard with a byte
-- figure and an eviction cursor below 2^64 and keys shorter than 2^32 bytes. Then the loop of
-- `serve` returns, and each of the shards has a state afterwards with further records in its log;
-- and replaying these records, decoded, over a keyspace that mirrors what the shard held before
-- them ends at the shard's next position, with under every key the value that the shard holds
-- there, its deadline carried over Unix time from the first clock to the second, or none where
-- that deadline has come.
pub recovered_lem :
    (sip_hash : ℕ → ℕ → Bytes → ℕ) (latest : ℕ) {L : Type 0} (ops : ReplicationLog L)
    (log : IsLog ops) (policy : ShardPolicy) (limit : MemoryLimit) (acks : Bool) (now later : Now)
    (asked : List Asked) (e : Executor L) (last : ℕ) (i : ℕ) (s : ShardState L) (d : Dict)
    (due : List Bytes)
    → (production : policy.expiry ≡ deadlines) → ops.keeps_payloads ≡ true
    → AllServe sip_hash latest ops log policy limit acks now e
    → get_elem? e.states i ≡ some s
    → Mirrors sip_hash latest later d due (held sip_hash now s.dict)
    → All (Served sip_hash latest ops log policy limit acks now production e) asked
    → CanEvict sip_hash latest ops log policy limit acks now production asked e last
    → (given : List (Reply × Bool)) × (e' : Executor L) × (serve_all sip_hash latest ops policy
          limit acks now asked e last
        ≡ some (given, e'))
      × (s' : ShardState L) × (rs : List LogRecord) × (get_elem? e'.states i ≡ some s')
      × (log.records s'.log ≡ log.records s.log ++ rs)
      × ((replay_into sip_hash latest later d s.seq (bucketed rs) due).1 ≡ s'.seq)
      × ((q : Bytes)
          → Option.map content
              (Dict.get sip_hash (replay_into sip_hash latest later d s.seq (bucketed rs) due).0 q)
            ≡ and_then (held sip_hash now s'.dict q) (after_replay sip_hash latest later))
recovered_lem sip_hash latest ops log policy limit acks now later asked e last i s d due production
      keeps serve at mirrors served fits =
    let (given, e', run, (same, logged, absent)) =
      serve_all_lem sip_hash latest ops log policy limit acks now production asked e last serve
        served fits in
    let (s', after, (es, rs, logs)) = logged i s at in
    let records =
      bucketed-Written ops keeps (e.first_shard + i) s.seq es rs logs.written logs.in_range in
    let (sound, shows) =
      replay_into_lem sip_hash latest later d s.seq (numbered s.seq es) due
        (held sip_hash now s.dict) mirrors in
    (
      given,
      e',
      run,
      s',
      rs,
      after,
      logs.appended,
      rw records (
          unfold replay_into in
          replay_records-seq sip_hash latest later s.seq es _ refl ∙ sym logs.seq),
      λ q. rw records (
          shows q
          ∙ ap (λ (o : Option Held). and_then o (after_replay sip_hash latest later))
              (ap (λ l. effect_run (held sip_hash now s.dict) l q) (entries_of-numbered s.seq es)
                ∙ sym (logs.describes q))),
    )
