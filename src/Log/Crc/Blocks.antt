-- ===== src/Log/Crc/Blocks.antt =====
-- The loop over the bits of each byte, and what it makes of a block.
use seedstone.Base.{
  ℕ, zero, suc, ◌+◌, ◌*◌, ◌/◌, ◌%◌, ◌^◌, ◌≤◌, ◌<◌, ◌≡◌, refl, sym, ap, ◌∙◌, arith, bit_xor,
  xor_comm, xor_assoc, xor_zero, zero_xor, xor_disjoint, Bytes, List, [], ◌∷◌, length, get_or,
}
use native.Mathlib.Nat.{pow-suc}
use seedstone.Log.Effect.{to_le_bytes}
use seedstone.Log.Effect.Canonical.{AreBytes}
use seedstone.Log.Crc.{CrcRow, crc32_rounds, fold_in, fold_rows}
use seedstone.Log.Crc.Bitwise.{rounds_xor, rounds_shift}
use seedstone.Log.Crc.Tables.{Rows, rounds-rounds}

-- the loop over the bits of each byte
unfoldable pub crc_bits : ℕ → Bytes → ℕ
unfolding crc32_rounds
crc_bits crc [] = crc
crc_bits crc (byte ∷ rest) = crc_bits (crc32_rounds 8 (bit_xor crc byte)) rest

crc_bits_xor :
    (bytes : Bytes) (x y : ℕ)
    → crc_bits (bit_xor x y) bytes ≡ bit_xor (crc_bits x bytes) (crc32_rounds (length bytes * 8) y)
unfolding crc_bits
crc_bits_xor [] x y = unfold crc32_rounds in refl
crc_bits_xor (b ∷ rest) x y =
    let apart : bit_xor (bit_xor x y) b ≡ bit_xor (bit_xor x b) y =
      xor_assoc x y b ∙ ap (bit_xor x) (xor_comm y b) ∙ sym (xor_assoc x b y) in
    ap (λ c. crc_bits c rest) (ap (crc32_rounds 8) apart ∙ rounds_xor 8 (bit_xor x b) y)
    ∙ crc_bits_xor rest (crc32_rounds 8 (bit_xor x b)) (crc32_rounds 8 y)
    ∙ ap (bit_xor (crc_bits (crc32_rounds 8 (bit_xor x b)) rest)) (
        rounds-rounds (length rest * 8) 8 y
        ∙ ap (λ m. crc32_rounds m y)
            (let same : 8 + length rest * 8 ≡ suc (length rest) * 8 = omega arith in same))

pub fold_rows_lem :
    (bytes : Bytes) (rows : List CrcRow) (acc : ℕ)
    → Rows (length bytes) rows
    → AreBytes bytes
    → fold_rows acc bytes rows ≡ bit_xor acc (crc_bits 0 bytes)
unfolding fold_rows crc_bits
fold_rows_lem [] [] acc rows h = sym (xor_zero acc)
fold_rows_lem [] (row ∷ rows) acc r h = absurd r
fold_rows_lem (b ∷ rest) [] acc r h = absurd r
fold_rows_lem (b ∷ rest) (row ∷ rows) acc (first, r) (p, h) =
    let here = crc32_rounds (8 + length rest * 8) b in
    let entry : get_or row b 0 ≡ here = first.at b p in
    let after : crc_bits (crc32_rounds 8 (bit_xor 0 b)) rest ≡ bit_xor here (crc_bits 0 rest) =
      ap (λ c. crc_bits c rest)
        (ap (crc32_rounds 8) (zero_xor b) ∙ sym (zero_xor (crc32_rounds 8 b)))
      ∙ crc_bits_xor rest 0 (crc32_rounds 8 b)
      ∙ ap (bit_xor (crc_bits 0 rest)) (rounds-rounds (length rest * 8) 8 b)
      ∙ xor_comm (crc_bits 0 rest) here in
    fold_rows_lem rest rows (bit_xor acc (get_or row b 0)) r h
    ∙ ap (λ e. bit_xor (bit_xor acc e) (crc_bits 0 rest)) entry
    ∙ xor_assoc acc here (crc_bits 0 rest)
    ∙ ap (bit_xor acc) (sym after)

fold_in_none : (bytes : Bytes) → fold_in bytes [] ≡ bytes
unfolding fold_in
fold_in_none [] = refl
fold_in_none (b ∷ rest) = refl

-- What is folded into the bytes need not be in the checksum before them.
pub fold_in_lem :
    (m y x : ℕ) (bytes : Bytes)
    → y < 256 ^ m
    → m ≤ length bytes
    → crc_bits (bit_xor x y) bytes ≡ crc_bits x (fold_in bytes (to_le_bytes m y))
unfolding fold_in crc_bits to_le_bytes
fold_in_lem zero y x bytes small long =
    let none : y ≡ 0 = omega arith in
    rw (none, fold_in_none bytes) (ap (λ c. crc_bits c bytes) (xor_zero x))
fold_in_lem (suc m) y x [] small long = absurd (omega arith)
fold_in_lem (suc m) y x (b ∷ rest) small long =
    let low = y % 256 in
    let high = y / 256 in
    let parts : y ≡ bit_xor low (high * 2 ^ 8) =
      omega (arith, xor_disjoint 8 low high (omega arith)) in
    let apart : bit_xor (bit_xor x y) b ≡ bit_xor (bit_xor x (bit_xor b low)) (high * 2 ^ 8) =
      ap (λ y. bit_xor (bit_xor x y) b) parts
      ∙ xor_assoc x (bit_xor low (high * 2 ^ 8)) b
      ∙ ap (bit_xor x)
          (xor_comm (bit_xor low (high * 2 ^ 8)) b ∙ sym (xor_assoc b low (high * 2 ^ 8)))
      ∙ sym (xor_assoc x (bit_xor b low) (high * 2 ^ 8)) in
    ap (λ c. crc_bits c rest)
      (ap (crc32_rounds 8) apart
        ∙ rounds_xor 8 (bit_xor x (bit_xor b low)) (high * 2 ^ 8)
        ∙ ap (bit_xor (crc32_rounds 8 (bit_xor x (bit_xor b low)))) (rounds_shift 8 high))
    ∙ fold_in_lem m high (crc32_rounds 8 (bit_xor x (bit_xor b low))) rest
        (omega (arith, pow-suc 256 m)) (omega arith)
