-- ===== src/Tests/ShardRuns.antt =====
-- Runs of a shard: commands applied, an envelope served, a sweep, and a log replayed. The log keeps
-- its records in a list, and the clock starts at one second, with Unix time at 1000000 ms.
use seedstone.Base.{
  ℕ, zero, suc, ◌+ℤ◌, decimal, ◌≡◌, refl, ◌≢◌, arith, Bool, true, false, Bytes, codes, Option, none,
  some, List, [], ◌∷◌, ◌++◌, get_elem?, replicate, pos, some-inj, none≢some, subst, All, inl,
}
use mathlib.Core.Option
use seedstone.Dict
use seedstone.Dict.{with_seed}
use seedstone.Dict.Run.{content, view}
use seedstone.Dict.Growth.{IsSound}
use seedstone.Dict.Refines.{with_seed_lem, insert_lem}
use seedstone.Log.Effect
use seedstone.Dict.Buckets.{find, bucket_index, assign}
use seedstone.Resp.{signed}
use seedstone.Shard.Apply.{apply}
use seedstone.Log.Effect.{and_then}
use seedstone.Memory.{exceeded, MemoryLimit, no_eviction, past_ceiling}
use seedstone.Sweep.{reached, deadlines}
use seedstone.Walk.{reverse_increment}
use seedstone.Shard.Clock.{remaining_seconds, Now}
use seedstone.Shard.Command
use seedstone.Shard.Command.{ex}
use seedstone.Shard.Reply.{Reply, integer}
use seedstone.Shard.State.{LogRecord, ReplicationLog, ShardState, commit}
use seedstone.Shard.Executor.{ShardPolicy, Executor, Asked, serving, serve_all}
use seedstone.Shard.Executor.Batch.{AllServe}
use seedstone.Shard.Executor.Served.{Served}
use seedstone.Shard.Logged.{IsLog, held, effect_run}
use seedstone.Shard.Logged.Handlers.{Logged}
use seedstone.Base.{reverse_bits}
use seedstone.Sweep.{expire_step}
use seedstone.Walk.{scan}
use seedstone.Shard.Logged.Reclaim.{sweep_expired-Logged}
use seedstone.Shard.Reclaim.{sweep_expired}
use seedstone.Shard.Meaning.{alive, meaning}
use seedstone.Shard.Meaning.Applied.{Applied, apply_lem}
use seedstone.Shard.Replay.{replay_into}
use seedstone.Shard.Replay.Effects.{Mirrors}
use seedstone.Shard.Replay.Rebuilding.{after_replay, replay_into_lem}
use seedstone.Shard.Replay.Recovery.{bucketed, recovered_lem}
use seedstone.Tests.DictRuns.{sum_hash, fresh}

abbrev pub list_log : ReplicationLog (List LogRecord)
list_log = record { append = λ log r. (true, log ++ r ∷ []); keeps_payloads = true }

pub true≢false : ◌≢◌ {A = Bool} true false
true≢false e = cc

abbrev pub list_log_laws : IsLog list_log
list_log_laws = record {
  records = λ log. log;
  accepted = λ l r e. refl;
  refused = λ l r e. absurd (true≢false e);
}

abbrev pub now : Now
now = record { instant = 1000000000; unix_millis = 1000000 }

abbrev pub far : ℕ
far = 1000000000000000000000000

abbrev pub policy : ShardPolicy
policy = record { expiry = deadlines; order = reverse_increment; must_evict = past_ceiling }

abbrev pub unlimited : MemoryLimit
unlimited = record { ceiling = none; mode = no_eviction }

abbrev pub one_shard : ShardState (List LogRecord)
one_shard = record {
  dict = fresh;
  seq = 0;
  log = [];
  expire_cursor = 0;
  evict_cursor = 0;
  evicted = 0;
  hits = 0;
  misses = 0;
  expired = 0;
  calls = replicate 23 0;
  usec = replicate 23 0;
  lossy = false;
  image_unix_millis = none;
  refusing = false;
}

abbrev pub executor : Executor (List LogRecord)
executor = record { first_shard = 3; states = one_shard ∷ []; moves = []; mode = serving }

abbrev pub asked : List Asked
asked =
    record {
      shard = 3;
      cmd = Command.set (codes "k") (codes "v") (some (ex 10)) none false false;
      used = λ n. 0;
      after = 1000005000;
    }
    ∷ record {
      shard = 3;
      cmd = Command.incr_by (codes "n") (pos 5);
      used = λ n. 0;
      after = 1000007000;
    }
    ∷ record { shard = 3; cmd = Command.ttl (codes "k"); used = λ n. 0; after = 1000009000 }
    ∷ []

abbrev pub served : Option (List (Reply × Bool) × Executor (List LogRecord))
served = serve_all sum_hash far list_log policy unlimited false now asked executor now.instant

abbrev replies : Option (List (Reply × Bool) × Executor (List LogRecord)) → List (Reply × Bool)
replies none = []
replies (some (given, e)) = given

abbrev executor_after :
    Option (List (Reply × Bool) × Executor (List LogRecord)) → Executor (List LogRecord)
executor_after none = executor
executor_after (some (given, e)) = e

three_answers :
    replies served ≡ (Reply.ok, true) ∷ (integer (pos 5), true) ∷ (integer (pos 10), false) ∷ []
unfolding serve_all exceeded apply with_seed commit Effect.encode Dict.touch find Dict.insert
    bucket_index Dict.get assign ◌+ℤ◌ signed decimal reached remaining_seconds
three_answers = refl

answered : served ≡ some (replies served, executor_after served)
unfolding serve_all exceeded apply with_seed commit Effect.encode Dict.touch find Dict.insert
    bucket_index Dict.get assign ◌+ℤ◌ signed decimal reached remaining_seconds
answered = refl

abbrev replayed : List LogRecord → Dict.Dict
replayed rs = (replay_into sum_hash far now fresh 0 (bucketed rs) []).0

fresh-Mirrors : Mirrors sum_hash far now fresh [] (held sum_hash now fresh)
fresh-Mirrors =
    let (sound, empty) = with_seed_lem sum_hash (record { k0 = 7; k1 = 11 }) in
    record {
      sound = sound;
      same = λ q. rw (empty q) refl;
      listed = λ q h found passed. absurd (none≢some (rw (empty q) at found));
    }

all_serve : AllServe sum_hash far list_log list_log_laws policy unlimited false now executor
all_serve zero s at =
    subst (λ (t : ShardState (List LogRecord)). IsSound sum_hash t.dict × (t.refusing ≡ false))
      (some-inj at) ((with_seed_lem sum_hash (record { k0 = 7; k1 = 11 })).0, refl)
all_serve (suc i) s at = absurd (none≢some at)

all-Served :
    All (Served sum_hash far list_log list_log_laws policy unlimited false now refl executor) asked
all-Served = (
  record {
    within = omega arith;
    state = one_shard;
    at = refl;
    servable = (omega arith, omega arith);
  },
  (
    record { within = omega arith; state = one_shard; at = refl; servable = (omega arith, tt) },
    (
      record { within = omega arith; state = one_shard; at = refl; servable = (omega arith, tt) },
      tt,
    ),
  ),
)

recovered_lem_example :
    (given : List (Reply × Bool)) × (e' : Executor (List LogRecord)) × (served ≡ some (given, e'))
    × (s' : ShardState (List LogRecord)) × (rs : List LogRecord) × (get_elem? e'.states 0 ≡ some s')
    × (s'.log ≡ rs)
    × ((replay_into sum_hash far now fresh 0 (bucketed rs) []).1 ≡ s'.seq)
    × ((q : Bytes)
        → Option.map content (Dict.get sum_hash (replayed rs) q)
          ≡ and_then (held sum_hash now s'.dict q) (after_replay sum_hash far now))
recovered_lem_example =
    recovered_lem sum_hash far list_log list_log_laws policy unlimited false now now asked executor
      now.instant 0 one_shard fresh [] refl refl all_serve refl fresh-Mirrors all-Served (inl refl)

abbrev pub dated : Dict.Dict
dated =
    Dict.insert sum_hash fresh (codes "k")
      (record { value = codes "v"; expires_at = some 1500000000; touched = 0 })

-- a shard with a key whose deadline has come at two seconds
abbrev pub expiring : ShardState (List LogRecord)
expiring = record one_shard { dict = dated; seq = 5 }

pub expiring-IsSound : IsSound sum_hash dated
expiring-IsSound =
    (insert_lem sum_hash fresh (codes "k")
      (record { value = codes "v"; expires_at = some 1500000000; touched = 0 })
      (with_seed_lem sum_hash (record { k0 = 7; k1 = 11 })).0).0

abbrev state_or : Option (ShardState (List LogRecord)) → ShardState (List LogRecord)
state_or none = one_shard
state_or (some s) = s

abbrev swept_state : ShardState (List LogRecord)
swept_state = state_or (sweep_expired sum_hash list_log 3 expiring 2000000000 deadlines)

swept : sweep_expired sum_hash list_log 3 expiring 2000000000 deadlines ≡ some swept_state
unfolding sweep_expired with_seed commit Effect.encode Dict.insert bucket_index Dict.get reached
    expire_step find scan reverse_bits
swept = refl

swept_log :
    swept_state.log ≡ record { shard = 3; seq = 5; payload = 2 ∷ 1 ∷ 0 ∷ 0 ∷ 0 ∷ 107 ∷ [] } ∷ []
unfolding sweep_expired with_seed commit Effect.encode Dict.insert bucket_index Dict.get reached
    expire_step find scan reverse_bits
swept_log = refl

sweep_expired-Logged_example : Logged sum_hash now list_log list_log_laws 3 expiring swept_state
sweep_expired-Logged_example =
    sweep_expired-Logged sum_hash now list_log list_log_laws 3 expiring 2000000000 deadlines
      swept_state expiring-IsSound swept

replay_into_lem_example :
    let (d, seq) =
      replay_into sum_hash far now fresh 4
        ((4, Effect.put (codes "k") (codes "v") (some 1000)) ∷ (5, Effect.del (codes "q")) ∷ [])
        [] in
    IsSound sum_hash d
    × ((q : Bytes)
        → Option.map content (Dict.get sum_hash d q)
          ≡ and_then
              (effect_run
                (held sum_hash now fresh)
                (Effect.put (codes "k") (codes "v") (some 1000) ∷ Effect.del (codes "q") ∷ [])
                q)
              (after_replay sum_hash far now))
replay_into_lem_example =
    replay_into_lem sum_hash far now fresh 4
      ((4, Effect.put (codes "k") (codes "v") (some 1000)) ∷ (5, Effect.del (codes "q")) ∷ []) []
      (held sum_hash now fresh) fresh-Mirrors

apply_lem_example :
    Applied sum_hash far now list_log 3 one_shard
      (codes "n")
      (meaning far now
        (Command.incr_by (codes "n") (pos 5))
        (alive now.instant (view sum_hash fresh (codes "n"))))
      (apply sum_hash far list_log reverse_increment deadlines one_shard 3 now
        (Command.incr_by (codes "n") (pos 5)))
apply_lem_example =
    apply_lem sum_hash far now list_log 3 reverse_increment one_shard
      (Command.incr_by (codes "n") (pos 5)) (codes "n")
      (with_seed_lem sum_hash (record { k0 = 7; k1 = 11 })).0 refl (omega arith) tt
