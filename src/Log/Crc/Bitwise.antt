-- ===== src/Log/Crc/Bitwise.antt =====
-- The tables of the checksum against the loop over the bits of each byte.
use seedstone.Base.{
  ℕ, zero, suc, ◌*◌, ◌/◌, ◌%◌, ◌^◌, ◌<◌, ◌==◌, ◌≡◌, refl, sym, ap, ◌∙◌, arith, bit_and,
  bit_and_mask, bit_xor, xor_parity, xor_half, xor_zero, zero_xor, xor_exchange, xor_disjoint,
  if◌then◌else◌,
}
use Prim.Native.Nat.{differ}
use native.Mathlib.Nat.{pow-suc}
use seedstone.Log.Crc.{crc32_round, crc32_rounds}

abbrev pub odd_part : ℕ → ℕ
odd_part zero = 0
odd_part (suc bit) = 0xEDB88320

pub round_parts : (x : ℕ) → crc32_round x ≡ bit_xor (x / 2) (odd_part (x % 2))
unfolding crc32_round
round_parts x = by_bit (x % 2) refl (omega arith)
  where
    by_bit :
        (bit : ℕ)
        → x % 2 ≡ bit
        → bit < 2
        → (if bit_and x 1 == 0 then x / 2 else bit_xor (x / 2) 0xEDB88320)
          ≡ bit_xor (x / 2) (odd_part bit)
    by_bit zero e h = rw (bit_and_mask 1 x, e) (sym (xor_zero (x / 2)))
    by_bit (suc zero) e h = rw (bit_and_mask 1 x, e) refl
    by_bit (suc (suc bit)) e h = absurd (omega arith)

odd_part-differ :
    (x y : ℕ) → x < 2 → y < 2 → odd_part (differ x y) ≡ bit_xor (odd_part x) (odd_part y)
odd_part-differ zero y p q = sym (zero_xor (odd_part y))
odd_part-differ (suc zero) zero p q = refl
odd_part-differ (suc zero) (suc zero) p q = refl
odd_part-differ (suc zero) (suc (suc y)) p q = absurd (omega arith)
odd_part-differ (suc (suc x)) y p q = absurd (omega arith)

round_xor : (a b : ℕ) → crc32_round (bit_xor a b) ≡ bit_xor (crc32_round a) (crc32_round b)
round_xor a b =
    round_parts (bit_xor a b)
    ∙ rw
        (
          xor_half a b,
          xor_parity a b,
          odd_part-differ (a % 2) (b % 2) (omega arith) (omega arith),
          round_parts a,
          round_parts b,
        )
        (xor_exchange (a / 2) (b / 2) (odd_part (a % 2)) (odd_part (b % 2)))

pub rounds_xor :
    (n a b : ℕ) → crc32_rounds n (bit_xor a b) ≡ bit_xor (crc32_rounds n a) (crc32_rounds n b)
unfolding crc32_rounds
rounds_xor zero a b = refl
rounds_xor (suc n) a b =
    ap (crc32_rounds n) (round_xor a b) ∙ rounds_xor n (crc32_round a) (crc32_round b)

-- Rounds on a word whose low digits are zero take those off.
pub rounds_shift : (n high : ℕ) → crc32_rounds n (high * 2 ^ n) ≡ high
unfolding crc32_rounds
rounds_shift zero high = omega arith
rounds_shift (suc n) high =
    let doubled : high * 2 ^ suc n ≡ 2 * (high * 2 ^ n) = grind (arith, pow-suc 2 n) in
    let even : 2 * (high * 2 ^ n) % 2 ≡ 0 = omega arith in
    let half : 2 * (high * 2 ^ n) / 2 ≡ high * 2 ^ n = omega arith in
    let one : crc32_round (high * 2 ^ suc n) ≡ high * 2 ^ n =
      ap crc32_round doubled
      ∙ round_parts (2 * (high * 2 ^ n))
      ∙ rw (even, half) (xor_zero (high * 2 ^ n)) in
    ap (crc32_rounds n) one ∙ rounds_shift n high

-- Eight rounds shift a byte out, and add what the byte alone becomes.
pub rounds_byte : (x : ℕ) → crc32_rounds 8 x ≡ bit_xor (crc32_rounds 8 (x % 256)) (x / 256)
rounds_byte x =
    let parts : x ≡ bit_xor (x % 256) (x / 256 * 2 ^ 8) =
      omega (arith, xor_disjoint 8 (x % 256) (x / 256) (omega arith)) in
    ap (crc32_rounds 8) parts
    ∙ rounds_xor 8 (x % 256) (x / 256 * 2 ^ 8)
    ∙ ap (bit_xor (crc32_rounds 8 (x % 256))) (rounds_shift 8 (x / 256))
