-- ===== src/Shard/Executor.antt =====
-- crates/seedstone-core/src/shard/executor.rs: how an executor answers one command of an envelope.
-- The trace sink, which only observes, is left out, and a reading of the clock after a command is
-- an argument.
pub mod Answer
pub mod Batch
pub mod Evicted
pub mod Removed
pub mod Returns
pub mod Served
use seedstone.Base.{
  ltb, get_elem?, set, List, [], ◌∷◌, ℕ, zero, suc, ◌+◌, ◌-◌, ◌/◌, ◌==◌, min, Bool, true, false,
  not, ◌&&◌, ◌||◌, Bytes, bytes_eq, codes, ℤ, pos, negsuc, Option, none, some, is_some, get_or,
  if◌then◌else◌,
}
use seedstone.Dict
use seedstone.Dict.{Dict}
use seedstone.Log.Effect
use seedstone.Log.Effect.{Effect, and_then}
use seedstone.Memory
use seedstone.Memory.{MemoryLimit, EvictionMode, all_keys_lru, no_eviction, exceeded}
use seedstone.Sweep.{ExpiryPolicy, expire_step, sample_oldest}
use seedstone.Walk.{WalkOrder}
use seedstone.Shard.Clock.{Now, u64_max}
use seedstone.Shard.Command
use seedstone.Shard.Command.{
  Command, Route, route, key, every, unaddressed, kind, writes_the_log, denied_when_full,
}
use seedstone.Shard.Reply
use seedstone.Shard.Reply.{
  Reply, ShardStats, bulk, status, integer, error, log_write_failed, out_of_memory,
}
use seedstone.Shard.State.{ReplicationLog, ShardState, commit}
use seedstone.Shard.Handlers.{keyspace_stats}
use seedstone.Shard.Apply.{apply}
use seedstone.Shard.Counters.{stats_of, count_call}
use seedstone.Shard.Reclaim.{evict_until_fits}

-- `ShardPolicy`: the three policies that a shard consults
pub record ShardPolicy : Type 0 where
  pub expiry : ExpiryPolicy
  pub order : WalkOrder
  pub must_evict : ℕ → Option ℕ → Bool

-- whether the executor serves writes, with the writes refused and the ticks since it does not
pub data Mode : Type 0 where
  serving : Mode
  refusing : ℕ → ℕ → Mode

abbrev pub is_refusing : Mode → Bool
is_refusing serving = false
is_refusing (refusing refused ticks) = true

abbrev pub one_more_refused : Mode → Mode
one_more_refused serving = serving
one_more_refused (refusing refused ticks) = refusing (refused + 1) ticks

abbrev pub is_stats : Command → Bool
is_stats Command.stats = true
is_stats other = false

abbrev pub spared_key : Route → Option Bytes
spared_key (key k) = some k
spared_key (Route.shard index) = none
spared_key every = none
spared_key unaddressed = none

abbrev pub is_no_eviction : EvictionMode → Bool
is_no_eviction no_eviction = true
is_no_eviction all_keys_lru = false

-- What `answer` changes. The gauge is the node's, and any executor moves it: `moves` lists what this
-- one hands to `memory.gauge.apply`, latest first, as the used bytes before and after.
pub record Serving (L : Type 0) : Type 0 where
  pub state : ShardState L
  pub moves : List (ℕ × ℕ)
  pub mode : Mode

module _ (sip_hash : ℕ → ℕ → Bytes → ℕ) (latest : ℕ) {L : Type 0} (ops : ReplicationLog L)
    (policy : ShardPolicy) (limit : MemoryLimit) (acks_while_refusing : Bool) where
  -- the eviction after a command, on one round more than the shard has keys
  unfoldable pub make_fit :
      ℕ
      → Command
      → ShardState L
      → (ℕ → ℕ)
      → List (ℕ × ℕ)
      → Mode
      → Option (ShardState L × List (ℕ × ℕ))
  unfolding evict_until_fits
  make_fit shard cmd s used moves mode =
      if not (is_no_eviction limit.mode) && not (is_refusing mode)
      then evict_until_fits sip_hash ops shard (suc s.dict.len) s used moves limit.ceiling
          policy.must_evict (spared_key (route cmd))
      else some (s, moves)

  -- the branch of `answer` that runs a handler
  unfoldable pub handle : Serving L → ℕ → Command → (ℕ → ℕ) → Now → Option (Reply × Serving L)
  unfolding make_fit
  handle v shard cmd used now =
      and_then (apply sip_hash latest ops policy.order policy.expiry v.state shard now cmd)
        (λ (p : Reply × ShardState L).
          and_then
            (make_fit shard cmd p.1 used ((v.state.dict.used_bytes, p.1.dict.used_bytes) ∷ v.moves)
              v.mode)
            (λ (fit : ShardState L × List (ℕ × ℕ)).
              some (p.0, record { state = fit.0; moves = fit.1; mode = v.mode })))

  -- the three ways that a command is answered
  unfoldable pub answer_with : Serving L → ℕ → Command → (ℕ → ℕ) → Now → Option (Reply × Serving L)
  unfolding handle stats_of
  answer_with v shard cmd used now =
      if is_stats cmd
      then some (Reply.stats (stats_of v.state), v)
      else if is_refusing v.mode && writes_the_log cmd && not acks_while_refusing
      then some (error log_write_failed, record v { mode = one_more_refused v.mode })
      else if is_no_eviction limit.mode && denied_when_full cmd && exceeded limit (used 0)
      then some (error out_of_memory, v)
      else handle v shard cmd used now

  -- The reply, whether a record was appended, and what has changed. `used` has what the gauge reads
  -- each time that the command asks it, in order. `last` and `after` are the clock
  -- at the command's start and end.
  unfoldable pub answer :
      Serving L → ℕ → Command → (ℕ → ℕ) → Now → ℕ → ℕ → Option (Reply × Bool × Serving L)
  unfolding answer_with count_call
  answer v shard cmd used now last after =
      and_then (answer_with v shard cmd used now) (λ (p : Reply × Serving L). some (
        p.0,
        not (p.1.state.seq == v.state.seq),
        record p.1 {
          state = count_call sip_hash p.1.state cmd p.0 (min ((after - last) / 1000) u64_max);
        },
      ))

-- An executor: the shards from `first_shard` on.
pub record Executor (L : Type 0) : Type 0 where
  pub first_shard : ℕ
  pub states : List (ShardState L)
  pub moves : List (ℕ × ℕ)
  pub mode : Mode

-- a command of an envelope, with its shard, the readings of the gauge in it and of the clock after it
pub record Asked : Type 0 where
  pub shard : ℕ
  pub cmd : Command
  pub used : ℕ → ℕ
  pub after : ℕ

module _ (sip_hash : ℕ → ℕ → Bytes → ℕ) (latest : ℕ) {L : Type 0} (ops : ReplicationLog L)
    (policy : ShardPolicy) (limit : MemoryLimit) (acks_while_refusing : Bool) (now : Now) where
  abbrev pub put_back : Executor L → ℕ → Serving L → Executor L
  put_back e offset v = record e {
    states = set e.states offset v.state;
    moves = v.moves;
    mode = v.mode;
  }

  -- `answer` on the shard that a command names. None is also the panic on a shard of another executor.
  unfoldable pub answer_at : Executor L → Asked → ℕ → Option ((Reply × Bool) × Executor L)
  unfolding answer
  answer_at e asked last =
      let offset = asked.shard - e.first_shard in
      if ltb asked.shard e.first_shard
      then none
      else and_then (get_elem? e.states offset) (λ (s : ShardState L).
        and_then
          (answer sip_hash latest ops policy limit acks_while_refusing
            (record { state = s; moves = e.moves; mode = e.mode }) asked.shard asked.cmd asked.used
            now last asked.after)
          (λ (p : Reply × Bool × Serving L). some ((p.0, p.1), put_back e offset p.2)))

  -- `for (shard, cmd) in &mut cmds`: what is answered, and the executor after it
  unfoldable pub serve_all : List Asked → Executor L → ℕ → Option (List (Reply × Bool) × Executor L)
  unfolding answer_at
  serve_all [] e last = some ([], e)
  serve_all (asked ∷ rest) e last = elim (answer_at e asked last) [
    | none ↦ none
    | some (first, e1) ↦ elim (serve_all rest e1 asked.after) [
      | none ↦ none
      | some (later, e2) ↦ some (first ∷ later, e2)
    ]
  ]
