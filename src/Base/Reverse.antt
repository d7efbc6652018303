-- ===== src/Base/Reverse.antt =====
-- The reversal of the binary digits of a word, `u64::reverse_bits` for a word of 64 digits.
use Prim.Native.Nat.{ℕ, zero, suc, ◌+◌, ◌-◌, ◌*◌, ◌/◌, ◌%◌, ◌^◌, ◌≤◌, ◌<◌}
use mathlib.Core.Path.{◌≡◌, refl, sym, ap, ◌∙◌}
use native.Mathlib.Nat.{pow-suc, mod-lt, mul-mod_left, mul-div_left}
use native.Mathlib.Omega.{arith}
use seedstone.Base.Masks.{one-le-two_pow, two_pow-add, div_two-div, mod_two-mod}
use seedstone.Base.Division.{div-eq_iff}

unfoldable pub reverse_bits : ℕ → ℕ → ℕ
reverse_bits zero x = 0
reverse_bits (suc w) x = x % 2 * 2 ^ w + reverse_bits w (x / 2)

pub reverse_bits-lt : (w x : ℕ) → reverse_bits w x < 2 ^ w
unfolding reverse_bits
reverse_bits-lt zero x = omega arith
reverse_bits-lt (suc w) x = grind (arith, pow-suc 2 w, reverse_bits-lt w (x / 2))

pub reverse_bits-zero : (w : ℕ) → reverse_bits w 0 ≡ 0
unfolding reverse_bits
reverse_bits-zero zero = refl
reverse_bits-zero (suc w) = omega (arith, reverse_bits-zero w)

pub reverse_bits-full : (w : ℕ) → reverse_bits w (2 ^ w - 1) ≡ 2 ^ w - 1
unfolding reverse_bits
reverse_bits-full zero = refl
reverse_bits-full (suc w) =
    let half : (2 ^ suc w - 1) / 2 ≡ 2 ^ w - 1 = omega (arith, pow-suc 2 w, one-le-two_pow w) in
    let odd : (2 ^ suc w - 1) % 2 ≡ 1 = omega (arith, pow-suc 2 w, one-le-two_pow w) in
    rw (half, odd) (omega (arith, pow-suc 2 w, one-le-two_pow w, reverse_bits-full w))

-- The low digits come out high, reversed on their own.
pub reverse_bits-split :
    (k r x : ℕ) → reverse_bits (r + k) x ≡ reverse_bits k x * 2 ^ r + reverse_bits r (x / 2 ^ k)
unfolding reverse_bits
reverse_bits-split zero r x =
    let all : r + 0 ≡ r = omega arith in
    let same : x / 1 ≡ x = omega arith in rw (all, same) (omega arith)
reverse_bits-split (suc k) r x =
    let next : r + suc k ≡ suc (r + k) = omega arith in
    rw
      (
        next,
        reverse_bits,
        reverse_bits-split k r (x / 2),
        div_two-div (2 ^ k) x (one-le-two_pow k),
        two_pow-add k r,
        pow-suc 2 k,
      )
      (grind arith)

mod-pow_suc_parity : (p x : ℕ) → 0 < p → x % (p * 2) % 2 ≡ x % 2
mod-pow_suc_parity p x h = omega (arith, mod_two-mod p x h)

mod-pow_suc_half : (p x : ℕ) → 0 < p → x % (p * 2) / 2 ≡ x / 2 % p
mod-pow_suc_half p x h = omega (arith, mod_two-mod p x h)

-- Digits above the word take no part.
pub reverse_bits-mod : (k x : ℕ) → reverse_bits k (x % 2 ^ k) ≡ reverse_bits k x
unfolding reverse_bits
reverse_bits-mod zero x = refl
reverse_bits-mod (suc k) x =
    rw
      (
        pow-suc 2 k,
        mod-pow_suc_parity (2 ^ k) x (one-le-two_pow k),
        mod-pow_suc_half (2 ^ k) x (one-le-two_pow k),
        reverse_bits-mod k (x / 2),
      )
      refl

digit_over : (p d y : ℕ) → y < p → (d * p + y) / p ≡ d
digit_over p d y h = (div-eq_iff (d * p + y) p d (omega arith)).1 (grind arith, grind arith)

pub under_digit : (p d y : ℕ) → y < p → (d * p + y) % p ≡ y
under_digit p d y h = grind (arith, digit_over p d y h)

pub reverse_bits_twice : (k x : ℕ) → reverse_bits k (reverse_bits k x) ≡ x % 2 ^ k
reverse_bits_twice zero x = unfold reverse_bits in omega arith
reverse_bits_twice (suc k) x =
    let flip : 1 + k ≡ suc k = omega arith in
    let y = reverse_bits (suc k) x in
    let last = reverse_bits-split k 1 y in
    let step : y ≡ x % 2 * 2 ^ k + reverse_bits k (x / 2) = unfold reverse_bits in refl in
    let small = reverse_bits-lt k (x / 2) in
    let over : y / 2 ^ k ≡ x % 2 =
      rw step (digit_over (2 ^ k) (x % 2) (reverse_bits k (x / 2)) small) in
    let under : reverse_bits k y ≡ x / 2 % 2 ^ k =
      sym (reverse_bits-mod k y)
      ∙ rw (step, under_digit (2 ^ k) (x % 2) (reverse_bits k (x / 2)) small)
          (reverse_bits_twice k (x / 2)) in
    let one : reverse_bits 1 (x % 2) ≡ x % 2 = unfold reverse_bits in omega arith in
    (rw flip at last)
    ∙ rw (over, under, one, pow-suc 2 k) (omega (arith, mod_two-mod (2 ^ k) x (one-le-two_pow k)))

mul-sub_self : (p q : ℕ) → 1 ≤ q → p * q - p ≡ (q - 1) * p
mul-sub_self p zero h = absurd (omega arith)
mul-sub_self p (suc q) h = grind arith

mul-lt_right : (a b q : ℕ) → a < b → 1 ≤ q → a * q < b * q
mul-lt_right a b q h hq = grind arith

distribute : (d p y q : ℕ) → (d * p + y) * q ≡ d * (p * q) + y * q
distribute d p y q = grind arith

mul-mod-mul : (a p q : ℕ) → 1 ≤ p → 1 ≤ q → a * q % (p * q) ≡ a % p * q
mul-mod-mul a p q hp hq =
    let below : a % p * q < p * q = mul-lt_right (a % p) p q (mod-lt a hp) hq in
    let cut : a ≡ a / p * p + a % p = grind arith in
    let parts : a * q ≡ a / p * (p * q) + a % p * q =
      ap (λ n. n * q) cut ∙ distribute (a / p) p (a % p) q in
    ap (λ n. n % (p * q)) parts ∙ under_digit (p * q) (a / p) (a % p * q) below

-- The word after `x`, counting in the reversed order and in the k low digits alone.
pub reverse_bits_next :
    (k r x : ℕ)
    → reverse_bits
        (r + k)
        ((reverse_bits (r + k) (x % 2 ^ k + (2 ^ (r + k) - 2 ^ k)) + 1) % 2 ^ (r + k))
      ≡ reverse_bits k ((reverse_bits k x + 1) % 2 ^ k)
reverse_bits_next k r x =
    let pk = one-le-two_pow k in
    let pr = one-le-two_pow r in
    let high : 2 ^ (r + k) - 2 ^ k ≡ (2 ^ r - 1) * 2 ^ k =
      rw (two_pow-add k r) (mul-sub_self (2 ^ k) (2 ^ r) pr) in
    let word : x % 2 ^ k + (2 ^ (r + k) - 2 ^ k) ≡ (2 ^ r - 1) * 2 ^ k + x % 2 ^ k =
      omega (arith, high) in
    let over = digit_over (2 ^ k) (2 ^ r - 1) (x % 2 ^ k) (mod-lt x pk) in
    let under = under_digit (2 ^ k) (2 ^ r - 1) (x % 2 ^ k) (mod-lt x pk) in
    let low : reverse_bits k ((2 ^ r - 1) * 2 ^ k + x % 2 ^ k) ≡ reverse_bits k x =
      sym (reverse_bits-mod k _) ∙ rw under (reverse_bits-mod k x) in
    let first : reverse_bits (r + k) (x % 2 ^ k + (2 ^ (r + k) - 2 ^ k)) + 1
        ≡ (reverse_bits k x + 1) * 2 ^ r =
      rw
        (
          word,
          reverse_bits-split k r ((2 ^ r - 1) * 2 ^ k + x % 2 ^ k),
          over,
          low,
          reverse_bits-full r,
        )
        (grind arith) in
    let wrapped : (reverse_bits k x + 1) * 2 ^ r % 2 ^ (r + k)
        ≡ (reverse_bits k x + 1) % 2 ^ k * 2 ^ r =
      rw (two_pow-add k r) (mul-mod-mul (reverse_bits k x + 1) (2 ^ k) (2 ^ r) pk pr) in
    let flip : r + k ≡ k + r = omega arith in
    let y = (reverse_bits k x + 1) % 2 ^ k in
    let above : reverse_bits r (y * 2 ^ r) ≡ 0 =
      sym (reverse_bits-mod r (y * 2 ^ r)) ∙ rw (mul-mod_left y (2 ^ r)) (reverse_bits-zero r) in
    let second : reverse_bits (r + k) (y * 2 ^ r) ≡ reverse_bits k y =
      rw flip (reverse_bits-split r k (y * 2 ^ r) ∙ rw (mul-div_left y pr, above) (omega arith)) in
    rw (first, wrapped) second

-- One digit more, above the word and below it.
pub reverse_bits_above :
    (k d x : ℕ)
    → x < 2 ^ k
    → d < 2
    → reverse_bits (suc k) (d * 2 ^ k + x) ≡ reverse_bits k x * 2 + d
reverse_bits_above k d x h digit =
    let flip : 1 + k ≡ suc k = omega arith in
    let low : reverse_bits k (d * 2 ^ k + x) ≡ reverse_bits k x =
      sym (reverse_bits-mod k (d * 2 ^ k + x)) ∙ rw (under_digit (2 ^ k) d x h) refl in
    let one : reverse_bits 1 d ≡ d = unfold reverse_bits in omega arith in
    (rw flip at (reverse_bits-split k 1 (d * 2 ^ k + x)))
    ∙ rw (digit_over (2 ^ k) d x h, low, one) refl

pub reverse_bits_below :
    (k d x : ℕ) → d < 2 → reverse_bits (suc k) (x * 2 + d) ≡ d * 2 ^ k + reverse_bits k x
unfolding reverse_bits
reverse_bits_below k d x digit =
    let parity : (x * 2 + d) % 2 ≡ d = omega arith in
    let half : (x * 2 + d) / 2 ≡ x = omega arith in rw (parity, half) refl
