-- ===== src/Shard/Command.antt =====
-- crates/seedstone-core/src/shard/command.rs: the commands, how each is routed, its kind, and which
-- of them write.
use seedstone.Base.{ℕ, Bool, true, false, Bytes, ℤ, Option}

-- `Expiry`, a span in the unit of the client
pub data Lifetime : Type 0 where
  ex : ℕ → Lifetime
  px : ℕ → Lifetime

pub data Cond : Type 0 where
  nx : Cond
  xx : Cond

pub data Command : Type 0 where
  get : Bytes → Command
  -- key, value, expiry, cond, keep_ttl, get
  set : Bytes → Bytes → Option Lifetime → Option Cond → Bool → Bool → Command
  set_ex : Bytes → ℕ → Bytes → Command
  set_nx : Bytes → Bytes → Command
  pset_ex : Bytes → ℕ → Bytes → Command
  pttl : Bytes → Command
  expire_at : Bytes → ℤ → Command
  pexpire_at : Bytes → ℤ → Command
  del : Bytes → Command
  incr_by : Bytes → ℤ → Command
  expire : Bytes → ℤ → Command
  pexpire : Bytes → ℤ → Command
  ttl : Bytes → Command
  persist : Bytes → Command
  exists : Bytes → Command
  type_of : Bytes → Command
  str_len : Bytes → Command
  flush_db : Command
  db_size : Command
  -- cursor, count, pattern
  scan_step : ℕ → ℕ → Option Bytes → Command
  stats : Command
  snapshot : Bool → Command

pub data Route : Type 0 where
  key : Bytes → Route
  shard : ℕ → Route
  every : Route
  unaddressed : Route

abbrev pub route : Command → Route
route (get k) = key k
route (set k value expiry cond keep_ttl old) = key k
route (set_ex k seconds value) = key k
route (set_nx k value) = key k
route (pset_ex k millis value) = key k
route (pttl k) = key k
route (expire_at k millis) = key k
route (pexpire_at k millis) = key k
route (del k) = key k
route (incr_by k delta) = key k
route (expire k seconds) = key k
route (pexpire k millis) = key k
route (ttl k) = key k
route (persist k) = key k
route (exists k) = key k
route (type_of k) = key k
route (str_len k) = key k
route flush_db = every
route db_size = every
route (scan_step cursor count pattern) = unaddressed
route stats = every
route (snapshot wait) = every

abbrev pub kind : Command → ℕ
kind (get k) = 1
kind (set k value expiry cond keep_ttl old) = 2
kind (del k) = 3
kind (incr_by k delta) = 4
kind (expire k seconds) = 5
kind (ttl k) = 6
kind (exists k) = 7
kind flush_db = 8
kind db_size = 9
kind (scan_step cursor count pattern) = 10
kind (pexpire k millis) = 11
kind (persist k) = 12
kind (type_of k) = 13
kind (str_len k) = 14
kind stats = 15
kind (set_ex k seconds value) = 16
kind (set_nx k value) = 17
kind (pset_ex k millis value) = 18
kind (pttl k) = 19
kind (expire_at k millis) = 20
kind (pexpire_at k millis) = 21
kind (snapshot wait) = 22

abbrev pub denied_when_full : Command → Bool
denied_when_full (set k value expiry cond keep_ttl old) = true
denied_when_full (set_ex k seconds value) = true
denied_when_full (set_nx k value) = true
denied_when_full (pset_ex k millis value) = true
denied_when_full (incr_by k delta) = true
denied_when_full other = false

abbrev pub writes_the_log : Command → Bool
writes_the_log (set k value expiry cond keep_ttl old) = true
writes_the_log (set_ex k seconds value) = true
writes_the_log (set_nx k value) = true
writes_the_log (pset_ex k millis value) = true
writes_the_log (incr_by k delta) = true
writes_the_log (del k) = true
writes_the_log (expire k seconds) = true
writes_the_log (pexpire k millis) = true
writes_the_log (expire_at k millis) = true
writes_the_log (pexpire_at k millis) = true
writes_the_log (persist k) = true
writes_the_log flush_db = true
writes_the_log other = false
