-- ===== src/Slot.antt =====
-- crates/seedstone-core/src/slot.rs: the shard that a key belongs to, and the executor that hosts
-- a shard. A `u16` is a number below 2 ^ 16; each shift writes its wrap-around out.
pub mod Checksum
pub mod Partition
use seedstone.Base.{
  ℕ, zero, suc, ◌+◌, ◌*◌, ◌/◌, ◌%◌, ◌^◌, bit_and, bit_xor, Bytes, Option, none, some, [], ◌∷◌,
  if◌then◌else◌, ◌==◌,
}

-- one of the eight rounds on a byte
unfoldable pub crc_round : ℕ → ℕ
crc_round crc =
    if bit_and crc 0x8000 == 0 then crc * 2 % 2 ^ 16 else bit_xor (crc * 2 % 2 ^ 16) 0x1021

-- `for _ in 0..8`
unfoldable pub crc_rounds : ℕ → ℕ → ℕ
unfolding crc_round
crc_rounds zero crc = crc
crc_rounds (suc n) crc = crc_rounds n (crc_round crc)

unfoldable pub crc_bytes : ℕ → Bytes → ℕ
unfolding crc_rounds
crc_bytes crc [] = crc
crc_bytes crc (byte ∷ rest) = crc_bytes (crc_rounds 8 (bit_xor crc (byte * 2 ^ 8 % 2 ^ 16))) rest

unfoldable pub crc16_xmodem : Bytes → ℕ
unfolding crc_bytes
crc16_xmodem key = crc_bytes 0 key

-- `none` is the panic on a shard count of zero.
unfoldable pub shard_of : Bytes → ℕ → Option ℕ
unfolding crc16_xmodem
shard_of key zero = none
shard_of key (suc n) = some (crc16_xmodem key % suc n)

-- The product is computed in `u32`, and the quotient is cast to `u16`.
unfoldable pub executor_of : ℕ → ℕ → ℕ → ℕ
executor_of shard shards executors = shard * executors % 2 ^ 32 / shards % 2 ^ 16
