-- ===== src/Slot/Partition.antt =====
-- `shard_of` and `executor_of` of slot.rs: where a key goes, and the contiguous ranges of shards.
use seedstone.Base.{
  ℕ, zero, suc, Bytes, some, refl, ◌%◌, ◌+◌, ◌-◌, ◌*◌, ◌/◌, ◌^◌, ◌≤◌, ◌<◌, ◌≡◌, ◌↔◌, arith,
  mul-lt-mul, div-le_iff, le-div_iff, div-eq_iff, ceil-le_iff, ceil-add_bounds, lt-ceil_iff,
}
use native.Mathlib.Nat.{mod-eq_of_lt, mod-lt}
use seedstone.Slot.{crc16_xmodem, shard_of, executor_of}

-- The first shard of executor `e`: the least number whose product reaches `e * shards`.
unfoldable pub first_shard : ℕ → ℕ → ℕ → ℕ
first_shard shards executors e = (e * shards + (executors - 1)) / executors

shard_of_lem :
    (key : Bytes) (shards : ℕ) → 0 < shards → shard_of key shards ≡ some (crc16_xmodem key % shards)
unfolding shard_of
shard_of_lem key zero h = absurd (omega arith)
shard_of_lem key (suc n) h = refl

mul_below : (a b n : ℕ) → a < n → 0 < b → a * b < (b - 1 + 1) * n
mul_below a b n h hb = let whole : b - 1 + 1 ≡ b = omega arith in rw whole (grind arith)

module _ (shards executors : ℕ) (some_executor : 0 < executors) (enough : executors ≤ shards)
    (fits : shards < 2 ^ 16) where
  -- Within 16-bit operands neither the product nor the cast wraps.
  executor_of_lem :
      (shard : ℕ) → shard < shards → executor_of shard shards executors ≡ shard * executors / shards
  unfolding executor_of
  executor_of_lem shard h =
      let small : shard * executors < 2 ^ 32 =
        grind (arith, mul-lt-mul shard executors 65536 65536 (omega arith) (omega arith)) in
      let quotient : shard * executors / shards < 2 ^ 16 =
        omega
          (arith, (div-le_iff (shard * executors) shards 65535 (omega arith)).1 (grind arith)) in
      rw (mod-eq_of_lt small, mod-eq_of_lt quotient)

  -- With at least one executor, no more executors than shards, and fewer than 2^16 shards, a shard
  -- in range is hosted by `e` exactly when it lies between the first shard of `e` and that of the
  -- next executor.
  pub executor_of_iff :
      (shard e : ℕ)
      → shard < shards
      → (executor_of shard shards executors ≡ e) ↔ (
          (first_shard shards executors e ≤ shard) × (shard < first_shard shards executors (e + 1)))
  unfolding first_shard
  executor_of_iff shard e h =
      let quotient = div-eq_iff (shard * executors) shards e (omega arith) in
      let from = ceil-le_iff (e * shards) executors shard some_executor in
      let to = lt-ceil_iff ((e + 1) * shards) executors shard some_executor in
      rw (executor_of_lem shard h) (
        λ p. (from.1 (quotient.0 p).0, to.1 (quotient.0 p).1),
        λ p. quotient.1 (from.0 p.0, to.0 p.1),
      )

  range_step :
      (e : ℕ)
      → (first_shard shards executors e < first_shard shards executors (e + 1))
        × (first_shard shards executors e + shards / executors
            ≤ first_shard shards executors (e + 1))
        × (first_shard shards executors (e + 1)
            ≤ first_shard shards executors e + shards / executors + 1)
  unfolding first_shard
  range_step e =
      let (lower, upper) = ceil-add_bounds (e * shards) shards executors some_executor in
      let next : (e + 1) * shards ≡ e * shards + shards = omega arith in
      let some_shard : 1 ≤ shards / executors =
        (le-div_iff shards executors 1 some_executor).1 (omega arith) in
      rw next (omega arith, lower, upper)

  -- The ranges start at shard 0 and end at the last shard. None is empty, and each has the rounded
  -- quotient of shards by executors, or one shard more.
  pub ranges_partition :
      (first_shard shards executors 0 ≡ 0)
      × (first_shard shards executors executors ≡ shards)
      × ((e : ℕ)
          → (first_shard shards executors e < first_shard shards executors (e + 1))
            × (first_shard shards executors e + shards / executors
                ≤ first_shard shards executors (e + 1))
            × (first_shard shards executors (e + 1)
                ≤ first_shard shards executors e + shards / executors + 1))
  unfolding first_shard
  ranges_partition = (
    (div-eq_iff (0 * shards + (executors - 1)) executors 0 some_executor).1
        (omega arith, omega arith),
    (div-eq_iff (executors * shards + (executors - 1)) executors shards some_executor).1
        (omega arith, omega arith),
    range_step,
  )

  -- With at least one executor, no more executors than shards, and fewer than 2^16 shards, every
  -- key has a shard in range, hosted by an executor in range.
  pub routing_lem :
      (key : Bytes)
      → (shard : ℕ) × (shard_of key shards ≡ some shard)
        × (shard < shards)
        × (executor_of shard shards executors < executors)
  routing_lem key =
      let shard = crc16_xmodem key % shards in
      let within : shard < shards = mod-lt (crc16_xmodem key) (omega arith) in
      let hosted : shard * executors / shards < executors = omega (
        arith,
        (div-le_iff (shard * executors) shards (executors - 1) (omega arith)).1
            (mul_below shard executors shards within some_executor),
      ) in
      (
        shard,
        shard_of_lem key shards (omega arith),
        within,
        rw (executor_of_lem shard within) hosted,
      )
