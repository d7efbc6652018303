-- ===== src/Shard/Meaning.antt =====
-- What a command on a key means: its reply and what the key holds after it, from what the key held.
-- `apply` of crates/seedstone-core/src/shard/apply.rs is proved to do this in the modules below.
pub mod Keyspace
pub mod Writes
pub mod Changes
pub mod Commands
pub mod Applied
use mathlib.Core.Option
use seedstone.Base.{
  ℕ, Bool, true, false, Bytes, codes, ℤ, pos, negsuc, Option, none, some, length, is_some, not,
  to_nat, if◌then◌else◌,
}
use seedstone.Dict.Run.{Content}
use seedstone.Resp.{signed}
use seedstone.Sweep.{reached}
use seedstone.Shard.Integer.{parse_i64}
use seedstone.Shard.Clock.{
  Now, SpanDeadline, lands, passed, deadline, span_deadline, remaining_seconds, remaining_millis,
}
use seedstone.Shard.Command
use seedstone.Shard.Command.{Command, Lifetime, ex, px, Cond, nx, xx}
use seedstone.Shard.Reply
use seedstone.Shard.Reply.{
  Reply, bulk, status, removed, integer, error, not_an_integer, would_overflow,
}
use seedstone.Shard.Handlers.{to_i64, checked_add_i64}

pub record Outcome : Type 0 where
  pub reply : Reply
  pub content : Option Content

abbrev pub gives : Reply → Option Content → Outcome
gives r c = record { reply = r; content = c }

abbrev pub holding : Bytes → Option ℕ → Option Content
holding v due = some (record { value = v; expires_at = due })

-- A key whose deadline has come is not there.
abbrev pub alive : ℕ → Option Content → Option Content
alive now none = none
alive now (some c) = if reached c.expires_at now then none else some c

abbrev pub bytes_of : Option Content → Option Bytes
bytes_of none = none
bytes_of (some c) = some c.value

abbrev pub due_of : Option Content → Option ℕ
due_of none = none
due_of (some c) = c.expires_at

-- whether the condition of a SET allows it
abbrev pub allows : Option Cond → Option Content → Bool
allows none c = true
allows (some nx) c = not (is_some c)
allows (some xx) c = is_some c

abbrev pub length_of : Option Content → ℤ
length_of none = pos 0
length_of (some c) = to_i64 (length c.value)

-- what is left of a lifetime: -1 without one, and -2 without the key
abbrev pub left_of : (ℕ → ℕ → ℤ) → ℕ → Option ℕ → ℤ
left_of remaining now none = negsuc 0
left_of remaining now (some due) = remaining due now

abbrev pub ttl_of : (ℕ → ℕ → ℤ) → ℕ → Option Content → ℤ
ttl_of remaining now none = negsuc 1
ttl_of remaining now (some c) = left_of remaining now c.expires_at

abbrev pub expired_to : SpanDeadline → Option Content → Outcome
expired_to at none = gives (integer (pos 0)) none
expired_to passed (some c) = gives (integer (pos 1)) none
expired_to (lands due) (some c) = gives (integer (pos 1)) (holding c.value due)

-- what PERSIST leaves of a value with a deadline or none
abbrev pub without_deadline : Bytes → Option ℕ → Outcome
without_deadline v none = gives (integer (pos 0)) (holding v none)
without_deadline v (some due) = gives (integer (pos 1)) (holding v none)

abbrev pub persisted : Option Content → Outcome
persisted none = gives (integer (pos 0)) none
persisted (some c) = without_deadline c.value c.expires_at

-- an increment of a key that holds `c`, with the sum if it is an i64
abbrev pub summed : Option Content → Option ℤ → Outcome
summed c none = gives (error would_overflow) c
summed c (some sum) = gives (integer sum) (holding (signed sum) (due_of c))

-- the same from the key's integer, if it holds one
abbrev pub added : Option Content → Option ℤ → ℤ → Outcome
added c none delta = gives (error not_an_integer) c
added c (some n) delta = summed c (checked_add_i64 n delta)

abbrev pub number_of : Option Content → Option ℤ
number_of none = some (pos 0)
number_of (some c) = parse_i64 c.value

abbrev pub set_outcome : Option Cond → Bytes → Option ℕ → Bool → Option Content → Outcome
set_outcome cond v due get c =
    if allows cond c
    then gives (if get then bulk (bytes_of c) else Reply.ok) (holding v due)
    else gives (bulk (if get then bytes_of c else none)) c

module _ (latest : ℕ) (now : Now) where
  pub meaning : Command → Option Content → Outcome
  meaning (Command.get k) c = gives (bulk (bytes_of c)) c
  meaning (Command.set k v life cond keep_ttl get) c =
      set_outcome cond v (if keep_ttl then due_of c else deadline latest now.instant life) get c
  meaning (Command.set_ex k n v) c =
      gives Reply.ok (holding v (deadline latest now.instant (some (ex n))))
  meaning (Command.pset_ex k n v) c =
      gives Reply.ok (holding v (deadline latest now.instant (some (px n))))
  meaning (Command.set_nx k v) c =
      if is_some c then gives (integer (pos 0)) c else gives (integer (pos 1)) (holding v none)
  meaning (Command.del k) c = gives (removed (is_some c)) none
  meaning (Command.incr_by k delta) c = added c (number_of c) delta
  meaning (Command.expire k n) c = expired_to (span_deadline latest now.instant n ex) c
  meaning (Command.pexpire k n) c = expired_to (span_deadline latest now.instant n px) c
  meaning (Command.expire_at k n) c = expired_to (span_deadline latest now.instant n px) c
  meaning (Command.pexpire_at k n) c = expired_to (span_deadline latest now.instant n px) c
  meaning (Command.ttl k) c = gives (integer (ttl_of remaining_seconds now.instant c)) c
  meaning (Command.pttl k) c = gives (integer (ttl_of remaining_millis now.instant c)) c
  meaning (Command.persist k) c = persisted c
  meaning (Command.exists k) c = gives (integer (pos (to_nat (is_some c)))) c
  meaning (Command.type_of k) c =
      gives (status (if is_some c then codes "string" else codes "none")) c
  meaning (Command.str_len k) c = gives (integer (length_of c)) c
  meaning other c = gives Reply.ok c
