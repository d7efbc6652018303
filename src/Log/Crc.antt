-- ===== src/Log/Crc.antt =====
-- The checksum of crates/seedstone-core/src/log.rs, CRC-32/ISO-HDLC by sixteen tables.
pub mod Bitwise
pub mod Tables
pub mod Blocks
pub mod Checksum
use mathlib.Core.List.{reverse}
use seedstone.Base.{
  ℕ, zero, suc, ◌+◌, ◌-◌, ◌/◌, ◌%◌, ◌^◌, ◌==◌, bit_and, bit_xor, Bytes, List, [], ◌∷◌, length, take,
  drop, get_or, if◌then◌else◌,
}
use seedstone.Log.Effect.{to_le_bytes}

abbrev pub CrcRow : Type 0
CrcRow = List ℕ

-- one of the eight rounds on a byte
unfoldable pub crc32_round : ℕ → ℕ
crc32_round crc = if bit_and crc 1 == 0 then crc / 2 else bit_xor (crc / 2) 0xEDB88320

unfoldable pub crc32_rounds : ℕ → ℕ → ℕ
unfolding crc32_round
crc32_rounds zero crc = crc
crc32_rounds (suc n) crc = crc32_rounds n (crc32_round crc)

-- `for byte in 0..=u8::MAX`, on the bytes that are left
unfoldable pub first_row : ℕ → ℕ → CrcRow
unfolding crc32_rounds
first_row zero byte = []
first_row (suc left) byte = crc32_rounds 8 byte ∷ first_row left (byte + 1)

-- A row of the tables after the first, from the one before it.
unfoldable pub next_row : CrcRow → CrcRow → CrcRow
next_row first [] = []
next_row first (prev ∷ rest) =
    bit_xor (get_or first (prev % 256) 0) (prev / 256) ∷ next_row first rest

unfoldable pub rows_after : ℕ → CrcRow → CrcRow → List CrcRow
unfolding next_row
rows_after zero first prev = []
rows_after (suc n) first prev = let row = next_row first prev in row ∷ rows_after n first row

unfoldable pub crc_tables : List CrcRow
unfolding first_row rows_after
crc_tables = let first = first_row 256 0 in first ∷ rows_after 15 first first

-- `for (byte, folded) in bytes.iter_mut().zip(..) { *byte ^= folded; }`
unfoldable pub fold_in : Bytes → Bytes → Bytes
fold_in [] folded = []
fold_in (byte ∷ bytes) [] = byte ∷ bytes
fold_in (byte ∷ bytes) (f ∷ folded) = bit_xor byte f ∷ fold_in bytes folded

-- `bytes.iter().zip(rows).fold(acc, |acc, (&byte, row)| acc ^ row[byte])`
unfoldable pub fold_rows : ℕ → Bytes → List CrcRow → ℕ
fold_rows acc [] rows = acc
fold_rows acc (byte ∷ bytes) [] = acc
fold_rows acc (byte ∷ bytes) (row ∷ rows) = fold_rows (bit_xor acc (get_or row byte 0)) bytes rows

-- `for &byte in blocks.remainder()`
unfoldable pub crc_rest : List CrcRow → ℕ → Bytes → ℕ
crc_rest tables crc [] = crc
crc_rest tables crc (byte ∷ rest) =
    crc_rest tables (bit_xor (get_or (get_or tables 0 []) (bit_xor crc byte % 256) 0) (crc / 256))
      rest

-- `for block in &mut blocks`, on the blocks of sixteen bytes that are left
unfoldable pub crc_blocks : ℕ → List CrcRow → ℕ → Bytes → ℕ
unfolding fold_in fold_rows crc_rest to_le_bytes
crc_blocks zero tables crc bytes = crc_rest tables crc bytes
crc_blocks (suc n) tables crc bytes =
    crc_blocks n tables (fold_rows 0 (fold_in (take 16 bytes) (to_le_bytes 4 crc)) (reverse tables))
      (drop 16 bytes)

-- `!crc` in a `u32` is `2 ^ 32 - 1 - crc`.
unfoldable pub crc32_iso_hdlc : Bytes → ℕ
unfolding crc_tables crc_blocks
crc32_iso_hdlc bytes = 2 ^ 32 - 1 - crc_blocks (length bytes / 16) crc_tables (2 ^ 32 - 1) bytes
