-- ===== src/Tests/SlotRuns.antt =====
-- Runs of crates/seedstone-core/src/slot.rs: the golden vectors of its own tests among them.
use seedstone.Base.{ℕ, ◌+◌, ◌≤◌, ◌<◌, ◌≡◌, ◌↔◌, refl, some, none, [], codes, arith}
use seedstone.Slot.{crc16_xmodem, shard_of, executor_of}
use seedstone.Slot.Partition.{first_shard, executor_of_iff, routing_lem}

crc16_check_value : crc16_xmodem (codes "123456789") ≡ 0x31c3
unfolding crc16_xmodem
crc16_check_value = refl

shard_of_golden : shard_of (codes "foo") 1024 ≡ some 918
unfolding shard_of
shard_of_golden = refl

shard_of_golden_key : shard_of (codes "key:1") 1024 ≡ some 513
unfolding shard_of
shard_of_golden_key = refl

shard_of_no_shards : shard_of [] 0 ≡ none
unfolding shard_of
shard_of_no_shards = refl

executor_of_iff_example :
    (executor_of 300 1024 10 ≡ 2)
    ↔ ((first_shard 1024 10 2 ≤ 300) × (300 < first_shard 1024 10 (2 + 1)))
executor_of_iff_example =
    executor_of_iff 1024 10 (omega arith) (omega arith) (omega arith) 300 2 (omega arith)

routing_lem_example :
    (shard : ℕ) × (shard_of (codes "foo") 1024 ≡ some shard)
    × (shard < 1024)
    × (executor_of shard 1024 10 < 10)
routing_lem_example = routing_lem 1024 10 (omega arith) (omega arith) (omega arith) (codes "foo")
