-- ===== src/Shard/Counters.antt =====
-- The counters that a shard keeps for INFO, of crates/seedstone-core/src/shard/executor.rs.
use seedstone.Base.{
  ℕ, ◌+◌, ◌==◌, ltb, Bool, true, false, not, ◌||◌, Bytes, bytes_eq, codes, ℤ, pos, negsuc, Option,
  none, some, is_some, List, get_or, set, if◌then◌else◌,
}
use seedstone.Dict
use seedstone.Dict.{Dict}
use seedstone.Shard.Command.{Command, Route, route, key, every, unaddressed, kind}
use seedstone.Shard.Reply.{Reply, ShardStats, bulk, status, integer}
use seedstone.Shard.State.{ShardState}
use seedstone.Shard.Handlers.{keyspace_stats}

abbrev pub reaches_every : Route → Bool
reaches_every every = true
reaches_every (key k) = false
reaches_every (Route.shard index) = false
reaches_every unaddressed = false

abbrev pub is_value : ℤ → ℤ → Bool
is_value (pos a) (pos b) = a == b
is_value (pos a) (negsuc b) = false
is_value (negsuc a) (pos b) = false
is_value (negsuc a) (negsuc b) = a == b

abbrev pub is_positive : ℤ → Bool
is_positive (pos n) = ltb 0 n
is_positive (negsuc n) = false

-- adds to the counter of a kind
abbrev pub add_at : List ℕ → ℕ → ℕ → List ℕ
add_at counters index n = set counters index (get_or counters index 0 + n)

module _ {L : Type 0} where
  unfoldable pub stats_of : ShardState L → ShardStats
  unfolding keyspace_stats
  stats_of s = record (keyspace_stats s.dict) {
    evicted = s.evicted;
    hits = s.hits;
    misses = s.misses;
    expired = s.expired;
    calls = s.calls;
    usec = s.usec;
  }

module _ (sip_hash : ℕ → ℕ → Bytes → ℕ) where
  unfoldable pub read_outcome : Dict → Command → Reply → Option Bool
  read_outcome d (Command.get k) (bulk value) = some (is_some value)
  read_outcome d (Command.exists k) (integer found) = some (is_value found (pos 1))
  read_outcome d (Command.ttl k) (integer remaining) = some (not (is_value remaining (negsuc 1)))
  read_outcome d (Command.pttl k) (integer remaining) = some (not (is_value remaining (negsuc 1)))
  read_outcome d (Command.type_of k) (status name) = some (not (bytes_eq name (codes "none")))
  read_outcome d (Command.str_len k) (integer len) =
      some (is_positive len || is_some (Dict.get sip_hash d k))
  read_outcome d cmd reply = none

  module _ {L : Type 0} where
    abbrev pub counted_outcome : ShardState L → Option Bool → ShardState L
    counted_outcome s none = s
    counted_outcome s (some true) = record s { hits = s.hits + 1 }
    counted_outcome s (some false) = record s { misses = s.misses + 1 }

    unfoldable pub count_call : ShardState L → Command → Reply → ℕ → ShardState L
    unfolding read_outcome
    count_call s cmd reply spent =
        counted_outcome
          (if reaches_every (route cmd) then s else record s {
            calls = add_at s.calls (kind cmd) 1;
            usec = add_at s.usec (kind cmd) spent;
          })
          (read_outcome s.dict cmd reply)
