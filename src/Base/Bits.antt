-- ===== src/Base/Bits.antt =====
-- Laws of `&` and `^` at variables, from the recursion on binary digits that they stand for.
use Prim.Native.Nat.{
  ℕ, zero, suc, ◌+◌, ◌-◌, ◌*◌, ◌/◌, ◌%◌, ◌^◌, ◌≤◌, ◌<◌, min, bit_and, bit_xor, digits, differ,
  bit_and-bitwise, bit_xor-bitwise,
}
use mathlib.Core.Path.{◌≡◌, refl, ap, ◌∙◌}
use native.Mathlib.Decide.{ℕ_discrete}
use native.Mathlib.Nat.{pow-suc, one-le-pow}
use native.Mathlib.Omega.{arith}

-- The recursion's count of digits does not matter, as long as it covers the first number.
module _ (rest : ℕ → ℕ) (f : ℕ → ℕ → ℕ) where
  one_digit_more : (n a b : ℕ) → a ≤ n → digits rest f (suc n) a b ≡ digits rest f n a b
  one_digit_more zero zero b h = refl
  one_digit_more (suc n) zero b h = refl
  one_digit_more zero (suc a) b h = absurd (omega arith)
  one_digit_more (suc n) (suc a) b h =
      ap (λ high. high * 2 + f (suc a % 2) (b % 2))
        (one_digit_more n (suc a / 2) (b / 2) (omega arith))

  pub digits_above : (m n a b : ℕ) → a ≤ n → n ≤ m → digits rest f m a b ≡ digits rest f n a b
  digits_above zero n a b covered above = let none_left : n ≡ 0 = omega arith in rw none_left
  digits_above (suc m) n a b covered above = elim (ℕ_discrete n (suc m)) [
    | yes same ↦ rw same
    | no not_same ↦ one_digit_more m a b (omega arith) ∙ digits_above m n a b covered (omega arith)
  ]

pub bit_and_step : (x y : ℕ) → bit_and x y ≡ min (x % 2) (y % 2) + 2 * bit_and (x / 2) (y / 2)
bit_and_step zero y = simp bit_and-bitwise (omega arith)
bit_and_step (suc x) y = omega (
  arith,
  bit_and-bitwise (suc x) y,
  bit_and-bitwise (suc x / 2) (y / 2),
  digits_above (λ _. zero) min x (suc x / 2) (suc x / 2) (y / 2) (omega arith) (omega arith),
)

bit_and-zero_below : (n a : ℕ) → a ≤ n → bit_and a 0 ≡ 0
bit_and-zero_below n zero h = refl
bit_and-zero_below zero (suc a) h = absurd (omega arith)
bit_and-zero_below (suc n) (suc a) h =
    omega (arith, bit_and_step (suc a) 0, bit_and-zero_below n (suc a / 2) (omega arith))

pub bit_and-zero : (a : ℕ) → bit_and a 0 ≡ 0
bit_and-zero a = bit_and-zero_below a a (omega arith)

mask_step : (p a : ℕ) → 0 < p → a / 2 % p * 2 + a % 2 ≡ a % (p * 2)
mask_step p a h = grind arith

mask_halves : (p a : ℕ) → 0 < p → bit_and a (p * 2 - 1) ≡ bit_and (a / 2) (p - 1) * 2 + a % 2
mask_halves p a h =
    let e : (p * 2 - 1) / 2 ≡ p - 1 = omega arith in
    rw (bit_and_step a (p * 2 - 1), e) (omega arith)

-- `a & (2^k - 1)` is the remainder by `2^k`.
pub bit_and_mask : (k a : ℕ) → bit_and a (2 ^ k - 1) ≡ a % 2 ^ k
bit_and_mask zero a = omega (arith, bit_and-zero a)
bit_and_mask (suc k) a =
    rw (pow-suc 2 k, mask_halves (2 ^ k) a (one-le-pow k 2 (omega arith)), bit_and_mask k (a / 2))
      (mask_step (2 ^ k) a (one-le-pow k 2 (omega arith)))

pub bit_xor_step : (a b : ℕ) → bit_xor a b ≡ differ (a % 2) (b % 2) + 2 * bit_xor (a / 2) (b / 2)
bit_xor_step zero b = omega (arith, bit_xor-bitwise 0 b, bit_xor-bitwise 0 (b / 2))
bit_xor_step (suc a) b = omega (
  arith,
  bit_xor-bitwise (suc a) b,
  bit_xor-bitwise (suc a / 2) (b / 2),
  digits_above (λ c. c) differ a (suc a / 2) (suc a / 2) (b / 2) (omega arith) (omega arith),
)

pub differ-lt : (x y : ℕ) → x < 2 → y < 2 → differ x y < 2
differ-lt zero y p q = q
differ-lt (suc x) zero p q = p
differ-lt (suc x) (suc y) p q = differ-lt x y (omega arith) (omega arith)

-- Exclusive or does not leave the words of k bits.
pub bit_xor-lt : (k a b : ℕ) → a < 2 ^ k → b < 2 ^ k → bit_xor a b < 2 ^ k
bit_xor-lt zero a b p q =
    let ea : a ≡ 0 = omega arith in let eb : b ≡ 0 = omega arith in rw (ea, eb) (omega arith)
bit_xor-lt (suc k) a b p q = omega (
  arith,
  pow-suc 2 k,
  bit_xor_step a b,
  differ-lt (a % 2) (b % 2) (omega arith) (omega arith),
  bit_xor-lt k (a / 2) (b / 2) (omega (arith, pow-suc 2 k)) (omega (arith, pow-suc 2 k)),
)
