-- ===== src/Walk/Order.antt =====
-- The reverse binary order of dict.rs: the next cursor under the mask of a table.
use seedstone.Base.{
  ℕ, suc, ◌+◌, ◌-◌, ◌*◌, ◌/◌, ◌%◌, ◌^◌, ◌≤◌, ◌<◌, ◌≡◌, sym, ◌∙◌, arith, reverse_bits,
  reverse_bits_next, reverse_bits-lt, reverse_bits_above, reverse_bits_below, reverse_bits_twice,
  bit_or_high, mod_two-mod, one-le-two_pow,
}
use native.Mathlib.Nat.{pow-le-pow_right, pow-suc, mod-eq_of_lt}
use seedstone.Walk.{reverse_increment}

-- Under 2^k buckets the next cursor counts one further in the reversed order of k digits.
pub reverse_increment_lem :
    (k c : ℕ)
    → k ≤ 64
    → c < 2 ^ 64
    → reverse_increment c (2 ^ k - 1) ≡ reverse_bits k ((reverse_bits k c + 1) % 2 ^ k)
unfolding reverse_increment
reverse_increment_lem k c small word =
    let r = 64 - k in
    let split : r + k ≡ 64 = omega arith in
    let next = reverse_bits_next k r c in
    let within : 2 ^ k ≤ 2 ^ 64 = pow-le-pow_right (omega arith) small in
    let mask : 2 ^ 64 - 1 - (2 ^ k - 1) ≡ 2 ^ 64 - 2 ^ k = omega (arith, one-le-two_pow k) in
    let widened = bit_or_high k r c (rw split word) in
    rw (mask, (rw split at widened)) (rw split at next)

-- The cursor after `c`, in a table of 2^k buckets.
abbrev pub next_cursor : ℕ → ℕ → ℕ
next_cursor k c = reverse_bits k ((reverse_bits k c + 1) % 2 ^ k)

-- Two steps in a table twice as wide: the second bucket that `c` expands into, and then the cursor
-- of the narrow table.
module _ (k c : ℕ) (small : k < 64) (within : c < 2 ^ k) where
  in_word : 2 ^ suc k ≤ 2 ^ 64
  in_word = let deeper : suc k ≤ 64 = omega arith in pow-le-pow_right (omega arith) deeper

  pub first_half : reverse_increment c (2 ^ suc k - 1) ≡ 2 ^ k + c
  first_half =
      let doubled : reverse_bits (suc k) c ≡ reverse_bits k c * 2 =
        let none_above : 0 * 2 ^ k + c ≡ c = omega arith in
        omega (arith, (rw none_above at (reverse_bits_above k 0 c within (omega arith)))) in
      let odd : (reverse_bits k c * 2 + 1) % 2 ^ suc k ≡ reverse_bits k c * 2 + 1 =
        mod-eq_of_lt (omega (arith, pow-suc 2 k, reverse_bits-lt k c)) in
      reverse_increment_lem (suc k) c (omega arith) (omega (arith, pow-suc 2 k, in_word))
      ∙ rw
          (
            doubled,
            odd,
            reverse_bits_below k 1 (reverse_bits k c) (omega arith),
            reverse_bits_twice k c,
            mod-eq_of_lt within,
          )
          (omega arith)

  pub second_half : reverse_increment (2 ^ k + c) (2 ^ suc k - 1) ≡ next_cursor k c
  second_half =
      let odd : reverse_bits (suc k) (2 ^ k + c) ≡ reverse_bits k c * 2 + 1 =
        let one : 2 ^ k + c ≡ 1 * 2 ^ k + c = omega arith in
        rw one (reverse_bits_above k 1 c within (omega arith)) in
      let even : (reverse_bits k c * 2 + 1 + 1) % 2 ^ suc k
          ≡ (reverse_bits k c + 1) % 2 ^ k * 2 + 0 =
        let half : (reverse_bits k c * 2 + 1 + 1) / 2 ≡ reverse_bits k c + 1 = omega arith in
        let parity : (reverse_bits k c * 2 + 1 + 1) % 2 ≡ 0 = omega arith in
        let parts = mod_two-mod (2 ^ k) (reverse_bits k c * 2 + 1 + 1) (one-le-two_pow k) in
        rw (pow-suc 2 k) (sym (rw (half, parity) at parts)) in
      reverse_increment_lem (suc k) (2 ^ k + c) (omega arith) (omega (arith, pow-suc 2 k, in_word))
      ∙ rw (odd, even, reverse_bits_below k 0 ((reverse_bits k c + 1) % 2 ^ k) (omega arith))
          (omega arith)
