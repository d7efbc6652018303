-- ===== src/Base/Masks.antt =====
-- Masks of low and of high binary digits: a word of r + k digits, of which k are low.
use Prim.Native.Nat.{
  ℕ, zero, suc, ◌+◌, ◌-◌, ◌*◌, ◌/◌, ◌%◌, ◌^◌, ◌≤◌, ◌<◌, max, bit_and, bit_or, bit_xor,
  bit_or-bitwise,
}
use mathlib.Core.Path.{◌≡◌, refl}
use native.Mathlib.Nat.{pow-suc, one-le-pow}
use native.Mathlib.Omega.{arith}
use seedstone.Base.Bits.{digits_above, bit_and_step, bit_and-zero, bit_xor_step}

pub bit_or_step : (x y : ℕ) → bit_or x y ≡ max (x % 2) (y % 2) + 2 * bit_or (x / 2) (y / 2)
bit_or_step zero y = omega (arith, bit_or-bitwise 0 y, bit_or-bitwise 0 (y / 2))
bit_or_step (suc x) y = omega (
  arith,
  bit_or-bitwise (suc x) y,
  bit_or-bitwise (suc x / 2) (y / 2),
  digits_above (λ b. b) max x (suc x / 2) (suc x / 2) (y / 2) (omega arith) (omega arith),
)

pub one-le-two_pow : (k : ℕ) → 1 ≤ 2 ^ k
one-le-two_pow k = one-le-pow k 2 (omega arith)

pub two_pow-add : (k r : ℕ) → 2 ^ (r + k) ≡ 2 ^ k * 2 ^ r
two_pow-add zero r = let all : r + 0 ≡ r = omega arith in rw all (omega arith)
two_pow-add (suc k) r = grind (arith, pow-suc 2 k, pow-suc 2 (r + k), two_pow-add k r)

pub mod_two-mod : (p x : ℕ) → 0 < p → x / 2 % p * 2 + x % 2 ≡ x % (p * 2)
mod_two-mod p x h = grind arith

pub div_two-div : (p x : ℕ) → 0 < p → x / 2 / p ≡ x / (p * 2)
div_two-div p x h = grind arith

bit_or_full : (r x : ℕ) → x < 2 ^ r → bit_or x (2 ^ r - 1) ≡ 2 ^ r - 1
bit_or_full zero x h = let none_set : x ≡ 0 = omega arith in rw none_set refl
bit_or_full (suc r) x h =
    let half : (2 ^ suc r - 1) / 2 ≡ 2 ^ r - 1 = omega (arith, pow-suc 2 r, one-le-two_pow r) in
    let odd : (2 ^ suc r - 1) % 2 ≡ 1 = omega (arith, pow-suc 2 r, one-le-two_pow r) in
    rw (bit_or_step x (2 ^ suc r - 1), half, odd)
      (omega
        (arith, pow-suc 2 r, one-le-two_pow r, bit_or_full r (x / 2) (omega (arith, pow-suc 2 r))))

-- Setting the high digits keeps the low ones.
pub bit_or_high :
    (k r x : ℕ)
    → x < 2 ^ (r + k)
    → bit_or x (2 ^ (r + k) - 2 ^ k) ≡ x % 2 ^ k + (2 ^ (r + k) - 2 ^ k)
bit_or_high zero r x h =
    let all : r + 0 ≡ r = omega arith in rw all (omega (arith, bit_or_full r x (rw all at h)))
bit_or_high (suc k) r x h =
    let next : r + suc k ≡ suc (r + k) = omega arith in
    let half : (2 ^ suc (r + k) - 2 ^ suc k) / 2 ≡ 2 ^ (r + k) - 2 ^ k =
      omega (arith, pow-suc 2 k, pow-suc 2 (r + k)) in
    let even : (2 ^ suc (r + k) - 2 ^ suc k) % 2 ≡ 0 =
      omega (arith, pow-suc 2 k, pow-suc 2 (r + k)) in
    let below : x / 2 < 2 ^ (r + k) = omega (arith, pow-suc 2 (r + k), rw next at h) in
    rw
      (
        next,
        bit_or_step x (2 ^ suc (r + k) - 2 ^ suc k),
        half,
        even,
        bit_or_high k r (x / 2) below,
        pow-suc 2 k,
      )
      (omega (arith, pow-suc 2 (r + k), mod_two-mod (2 ^ k) x (one-le-two_pow k)))

-- The masks of two tables, one twice as wide, differ in one digit.
pub bit_xor_masks : (k : ℕ) → bit_xor (2 ^ k - 1) (2 ^ suc k - 1) ≡ 2 ^ k
bit_xor_masks zero = refl
bit_xor_masks (suc k) =
    let small : (2 ^ suc k - 1) / 2 ≡ 2 ^ k - 1 = omega (arith, pow-suc 2 k, one-le-two_pow k) in
    let large : (2 ^ suc (suc k) - 1) / 2 ≡ 2 ^ suc k - 1 =
      omega (arith, pow-suc 2 k, pow-suc 2 (suc k), one-le-two_pow k) in
    let odd : (2 ^ suc k - 1) % 2 ≡ 1 = omega (arith, pow-suc 2 k, one-le-two_pow k) in
    let odd' : (2 ^ suc (suc k) - 1) % 2 ≡ 1 =
      omega (arith, pow-suc 2 (suc k), one-le-two_pow (suc k)) in
    rw (bit_xor_step (2 ^ suc k - 1) (2 ^ suc (suc k) - 1), small, large, odd, odd')
      (omega (arith, pow-suc 2 k, bit_xor_masks k))

-- One digit, selected.
pub bit_and_digit : (k x : ℕ) → bit_and x (2 ^ k) ≡ x / 2 ^ k % 2 * 2 ^ k
bit_and_digit zero x = rw (bit_and_step x 1) (omega (arith, bit_and-zero (x / 2)))
bit_and_digit (suc k) x =
    let half : 2 ^ suc k / 2 ≡ 2 ^ k = omega (arith, pow-suc 2 k) in
    let even : 2 ^ suc k % 2 ≡ 0 = omega (arith, pow-suc 2 k) in
    rw (bit_and_step x (2 ^ suc k), half, even, bit_and_digit k (x / 2))
      (rw (pow-suc 2 k, div_two-div (2 ^ k) x (one-le-two_pow k)) (grind arith))
