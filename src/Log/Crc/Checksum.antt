-- ===== src/Log/Crc/Checksum.antt =====
-- The checksum by blocks of sixteen bytes is that of the loop over bits.
use mathlib.Core.List.{reverse}
use seedstone.Base.{
  ℕ, zero, suc, ◌+◌, ◌-◌, ◌*◌, ◌/◌, ◌%◌, ◌^◌, ◌≤◌, ◌<◌, ◌≡◌, refl, sym, ap, ◌∙◌, subst, arith,
  bit_xor, bit_xor-lt, xor_comm, xor_assoc, zero_xor, xor_disjoint, Bytes, List, [], ◌∷◌, ◌++◌,
  length, get_or, take, drop, length-drop,
}
use seedstone.Log.Effect.{to_le_bytes}
use seedstone.Log.Effect.Canonical.{AreBytes}
use seedstone.Log.Crc.{
  CrcRow, crc32_round, crc32_rounds, crc_tables, fold_in, fold_rows, crc_rest, crc_blocks,
  crc32_iso_hdlc,
}
use seedstone.Log.Crc.Bitwise.{rounds_byte, round_parts, odd_part}
use seedstone.Log.Crc.Blocks.{crc_bits, fold_rows_lem, fold_in_lem}
use seedstone.Log.Crc.Tables.{IsRow, Rows, crc_tables-Rows, crc_tables-first}
use seedstone.Log.Framing.Canonical.{take-drop, take-AreBytes, drop-AreBytes}
use seedstone.Log.Framing.Torn.{length-take}

length-fold_in : (bytes folded : Bytes) → length (fold_in bytes folded) ≡ length bytes
unfolding fold_in
length-fold_in [] folded = refl
length-fold_in (b ∷ rest) [] = refl
length-fold_in (b ∷ rest) (f ∷ folded) = ap suc (length-fold_in rest folded)

fold_in-AreBytes :
    (bytes folded : Bytes) → AreBytes bytes → AreBytes folded → AreBytes (fold_in bytes folded)
unfolding fold_in
fold_in-AreBytes [] folded h g = h
fold_in-AreBytes (b ∷ rest) [] h g = h
fold_in-AreBytes (b ∷ rest) (f ∷ folded) (p, h) (q, g) =
    (bit_xor-lt 8 b f p q, fold_in-AreBytes rest folded h g)

to_le_bytes-AreBytes : (m n : ℕ) → AreBytes (to_le_bytes m n)
unfolding to_le_bytes
to_le_bytes-AreBytes zero n = tt
to_le_bytes-AreBytes (suc m) n = (omega arith, to_le_bytes-AreBytes m (n / 256))

-- A block of sixteen bytes.
block_lem :
    (crc : ℕ) (block : Bytes)
    → crc < 2 ^ 32
    → AreBytes block
    → length block ≡ 16
    → fold_rows 0 (fold_in block (to_le_bytes 4 crc)) (reverse crc_tables) ≡ crc_bits crc block
block_lem crc block small h sixteen =
    let folded = fold_in block (to_le_bytes 4 crc) in
    let rows : Rows (length folded) (reverse crc_tables) =
      subst (λ n. Rows n (reverse crc_tables))
        (sym (length-fold_in block (to_le_bytes 4 crc) ∙ sixteen)) crc_tables-Rows in
    fold_rows_lem folded (reverse crc_tables) 0 rows
      (fold_in-AreBytes block (to_le_bytes 4 crc) h (to_le_bytes-AreBytes 4 crc))
    ∙ zero_xor (crc_bits 0 folded)
    ∙ sym (fold_in_lem 4 crc 0 block small (omega arith))
    ∙ ap (λ c. crc_bits c block) (zero_xor crc)

rounds-lt : (n x : ℕ) → x < 2 ^ 32 → crc32_rounds n x < 2 ^ 32
unfolding crc32_rounds
rounds-lt zero x h = h
rounds-lt (suc n) x h = rounds-lt n (crc32_round x) (rw (round_parts x) (by_bit (x % 2)))
  where
    by_bit : (bit : ℕ) → bit_xor (x / 2) (odd_part bit) < 2 ^ 32
    by_bit zero = bit_xor-lt 32 (x / 2) 0 (omega arith) (omega arith)
    by_bit (suc bit) = bit_xor-lt 32 (x / 2) 0xEDB88320 (omega arith) (omega arith)

crc_bits-lt :
    (crc : ℕ) (bytes : Bytes) → crc < 2 ^ 32 → AreBytes bytes → crc_bits crc bytes < 2 ^ 32
unfolding crc_bits
crc_bits-lt crc [] small h = small
crc_bits-lt crc (b ∷ rest) small (p, h) =
    crc_bits-lt (crc32_rounds 8 (bit_xor crc b)) rest
      (rounds-lt 8 (bit_xor crc b) (bit_xor-lt 32 crc b small (omega arith))) h

crc_bits-append : (crc : ℕ) (a b : Bytes) → crc_bits (crc_bits crc a) b ≡ crc_bits crc (a ++ b)
unfolding crc_bits
crc_bits-append crc [] b = refl
crc_bits-append crc (x ∷ a) b = crc_bits-append (crc32_rounds 8 (bit_xor crc x)) a b

-- A byte does not reach the digits above it.
xor_high : (c b : ℕ) → b < 256 → bit_xor c b / 256 ≡ c / 256
xor_high c b h =
    let low = c % 256 in
    let parts : c ≡ bit_xor low (c / 256 * 2 ^ 8) =
      omega (arith, xor_disjoint 8 low (c / 256) (omega arith)) in
    let mixed = bit_xor-lt 8 b low h (omega arith) in
    let sum : bit_xor c b ≡ bit_xor b low + c / 256 * 2 ^ 8 =
      ap (λ c. bit_xor c b) parts
      ∙ xor_comm (bit_xor low (c / 256 * 2 ^ 8)) b
      ∙ sym (xor_assoc b low (c / 256 * 2 ^ 8))
      ∙ xor_disjoint 8 (bit_xor b low) (c / 256) mixed in
    omega (arith, sum, mixed)

crc_rest_lem :
    (tables : List CrcRow) (crc : ℕ) (bytes : Bytes)
    → IsRow 0 (get_or tables 0 [])
    → AreBytes bytes
    → crc_rest tables crc bytes ≡ crc_bits crc bytes
unfolding crc_rest crc_bits
crc_rest_lem tables crc [] row h = refl
crc_rest_lem tables crc (b ∷ rest) row (p, h) =
    let mixed = bit_xor crc b in
    let step : bit_xor (get_or (get_or tables 0 []) (mixed % 256) 0) (crc / 256)
        ≡ crc32_rounds 8 mixed =
      ap (λ e. bit_xor e (crc / 256)) (row.at (mixed % 256) (omega arith))
      ∙ ap (bit_xor (crc32_rounds 8 (mixed % 256))) (sym (xor_high crc b p))
      ∙ sym (rounds_byte mixed) in
    ap (λ c. crc_rest tables c rest) step ∙ crc_rest_lem tables (crc32_rounds 8 mixed) rest row h

crc_blocks_lem :
    (n crc : ℕ) (bytes : Bytes)
    → crc < 2 ^ 32
    → AreBytes bytes
    → n * 16 ≤ length bytes
    → crc_blocks n crc_tables crc bytes ≡ crc_bits crc bytes
unfolding crc_blocks
crc_blocks_lem zero crc bytes small h long = crc_rest_lem crc_tables crc bytes crc_tables-first h
crc_blocks_lem (suc n) crc bytes small h long =
    let block = take 16 bytes in
    let bytes_in = take-AreBytes 16 bytes h in
    let sixteen = length-take 16 bytes (omega arith) in
    let left = length-drop 16 bytes in
    ap (λ c. crc_blocks n crc_tables c (drop 16 bytes)) (block_lem crc block small bytes_in sixteen)
    ∙ crc_blocks_lem n (crc_bits crc block) (drop 16 bytes) (crc_bits-lt crc block small bytes_in)
        (drop-AreBytes 16 bytes h) (omega arith)
    ∙ crc_bits-append crc block (drop 16 bytes)
    ∙ ap (crc_bits crc) (take-drop 16 bytes)

-- On bytes, the checksum by sixteen tables and blocks of sixteen bytes is that of the loop over
-- the eight bits of each byte, from the same start and with the same complement.
pub crc32_iso_hdlc_lem :
    (bytes : Bytes)
    → AreBytes bytes
    → crc32_iso_hdlc bytes ≡ 2 ^ 32 - 1 - crc_bits (2 ^ 32 - 1) bytes
unfolding crc32_iso_hdlc
crc32_iso_hdlc_lem bytes h =
    ap (λ c. 2 ^ 32 - 1 - c)
      (crc_blocks_lem (length bytes / 16) (2 ^ 32 - 1) bytes (omega arith) h (omega arith))
