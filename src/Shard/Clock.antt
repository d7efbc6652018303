-- ===== src/Shard/Clock.antt =====
-- The clocks of a shard: `Now` and `Replayed` of crates/seedstone-core/src/shard/executor.rs, and the
-- deadlines of shard/apply.rs. An instant is a number of nanoseconds, and `latest` is the last one
-- that the clock can represent, so that `checked_add` past it is none.
use seedstone.Base.{
  ℕ, ◌+◌, ◌-◌, ◌*◌, ◌/◌, leb, min, Option, some, none, ℤ, pos, negsuc, suc, zero, if◌then◌else◌,
}
use seedstone.Shard.Command.{Lifetime, ex, px}

pub record Now : Type 0 where
  pub instant : ℕ
  pub unix_millis : ℕ

pub data Replayed : Type 0 where
  past : Replayed
  at : Option ℕ → Replayed

abbrev pub u64_max : ℕ
u64_max = 18446744073709551615

abbrev pub i64_max : ℕ
i64_max = 9223372036854775807

abbrev pub millis_of : ℕ → ℕ
millis_of nanos = nanos / 1000000

unfoldable pub deadline_millis : Now → Option ℕ → Option ℕ
deadline_millis now none = none
deadline_millis now (some due) =
    some (min (now.unix_millis + min (millis_of (due - now.instant)) u64_max) u64_max)

unfoldable pub remaining_seconds : ℕ → ℕ → ℤ
remaining_seconds expires_at now = pos (min ((millis_of (expires_at - now) + 500) / 1000) i64_max)

unfoldable pub remaining_millis : ℕ → ℕ → ℤ
remaining_millis expires_at now = pos (min (millis_of (expires_at - now)) i64_max)

-- the enum `Deadline`: what a span turned out to mean
pub data SpanDeadline : Type 0 where
  lands : Option ℕ → SpanDeadline
  passed : SpanDeadline

module _ (latest : ℕ) where
  abbrev pub checked_add : ℕ → ℕ → Option ℕ
  checked_add instant nanos = if leb (instant + nanos) latest then some (instant + nanos) else none

  unfoldable pub replay_deadline : Now → ℕ → Replayed
  replay_deadline now millis =
      if leb millis now.unix_millis
      then past
      else at (checked_add now.instant ((millis - now.unix_millis) * 1000000))

  unfoldable pub deadline : ℕ → Option Lifetime → Option ℕ
  deadline now none = none
  deadline now (some (ex seconds)) = checked_add now (seconds * 1000000000)
  deadline now (some (px millis)) = checked_add now (millis * 1000000)

  unfoldable pub span_deadline : ℕ → ℤ → (ℕ → Lifetime) → SpanDeadline
  unfolding deadline
  span_deadline now (pos zero) unit = passed
  span_deadline now (pos (suc n)) unit = lands (deadline now (some (unit (suc n))))
  span_deadline now (negsuc n) unit = passed
