-- ===== src/Base/Decimal.antt =====
-- Decimal digits: `to_string` of an unsigned integer, and the value of a string of digits.
use Prim.Native.Nat.{ℕ, zero, suc, ◌+◌, ◌-◌, ◌*◌, ◌/◌, ◌%◌, ◌≤◌, ◌<◌}
use mathlib.Core.Path.{◌≡◌, refl}
use mathlib.Core.Bool.{Bool, true, false, ◌&&◌}
use mathlib.Core.List.{[], ◌∷◌, ◌++◌}
use native.Mathlib.Omega.{arith}
use native.Mathlib.Decide.{dec_lt}
use mathlib.Core.Logic.{inl, inr}
use seedstone.Base.Tests.{ltb, leb, if◌then◌else◌, lt→ltb, Bool-cases}
use seedstone.Base.Lists.{Bytes, All, All-append, length, length-append}

-- The digits of `n`, in at most `fuel` many.
unfoldable pub decimal_on : ℕ → ℕ → Bytes
decimal_on zero n = []
decimal_on (suc fuel) n =
    let high = decimal_on fuel (n / 10) in
    if ltb n 10 then (48 + n) ∷ [] else high ++ (48 + n % 10) ∷ []

-- A number has no more digits than its value and one.
unfoldable pub decimal : ℕ → Bytes
unfolding decimal_on
decimal n = decimal_on (suc n) n

unfoldable pub is_digit : ℕ → Bool
is_digit c = leb 48 c && leb c 57

unfoldable pub all_digits : Bytes → Bool
unfolding is_digit
all_digits [] = true
all_digits (c ∷ rest) = is_digit c && all_digits rest

unfoldable pub digits_value : ℕ → Bytes → ℕ
digits_value acc [] = acc
digits_value acc (c ∷ rest) = digits_value (acc * 10 + (c - 48)) rest

abbrev pub IsDigit : ℕ → Type 0
IsDigit c = (48 ≤ c) × (c ≤ 57)

decimal_on-All : (fuel n : ℕ) → All IsDigit (decimal_on fuel n)
unfolding decimal_on
decimal_on-All zero n = tt
decimal_on-All (suc fuel) n = elim (dec_lt n 10) [
  | yes small ↦ rw (lt→ltb n 10 small) (omega arith)
  | no large ↦
      let test : ltb n 10 ≡ false = ground arith in
      rw test (
        All-append IsDigit (decimal_on fuel (n / 10)) ((48 + n % 10) ∷ [])
          (decimal_on-All fuel (n / 10)) (omega arith))
]

pub decimal-All : (n : ℕ) → All IsDigit (decimal n)
unfolding decimal
decimal-All n = decimal_on-All (suc n) n

pub all_digits-true : (l : Bytes) → All IsDigit l → all_digits l ≡ true
unfolding all_digits is_digit
all_digits-true [] h = refl
all_digits-true (c ∷ rest) h = ground (arith, all_digits-true rest)

digits_value-append :
    (acc : ℕ) (a b : Bytes) → digits_value acc (a ++ b) ≡ digits_value (digits_value acc a) b
unfolding digits_value
digits_value-append acc [] b = refl
digits_value-append acc (c ∷ a) b = digits_value-append (acc * 10 + (c - 48)) a b

decimal_on_value : (fuel n : ℕ) → n < fuel → digits_value 0 (decimal_on fuel n) ≡ n
unfolding decimal_on digits_value
decimal_on_value zero n h = absurd (omega arith)
decimal_on_value (suc fuel) n h = elim (dec_lt n 10) [
  | yes small ↦ rw (lt→ltb n 10 small) (omega arith)
  | no large ↦
      let test : ltb n 10 ≡ false = ground arith in
      rw
        (
          test,
          digits_value-append 0 (decimal_on fuel (n / 10)) ((48 + n % 10) ∷ []),
          decimal_on_value fuel (n / 10) (omega arith),
        )
        (omega arith)
]

-- Digits read back as the number that they print.
pub digits_value-decimal : (n : ℕ) → digits_value 0 (decimal n) ≡ n
unfolding decimal
digits_value-decimal n = decimal_on_value (suc n) n (omega arith)

-- A number prints at least one digit.
pub decimal_pos : (n : ℕ) → 1 ≤ length (decimal n)
unfolding decimal decimal_on
decimal_pos n = elim (Bool-cases (ltb n 10)) [
  | inl small ↦ rw small (omega arith)
  | inr large ↦ rw (large, length-append (decimal_on n (n / 10)) ((48 + n % 10) ∷ [])) (omega arith)
]

abbrev pub pow10 : ℕ → ℕ
pow10 zero = 1
pow10 (suc d) = 10 * pow10 d

length-decimal_on : (fuel d n : ℕ) → n < pow10 (suc d) → length (decimal_on fuel n) ≤ suc d
unfolding decimal_on
length-decimal_on zero d n h = omega arith
length-decimal_on (suc fuel) zero n h = rw (lt→ltb n 10 (omega arith)) (omega arith)
length-decimal_on (suc fuel) (suc d) n h = elim (Bool-cases (ltb n 10)) [
  | inl small ↦ rw small (omega arith)
  | inr large ↦
      let high = length-decimal_on fuel d (n / 10) (omega arith) in
      rw (large, length-append) (omega arith)
]

-- A number below 10^(d + 1) has d + 1 digits at the most.
pub length-decimal : (d n : ℕ) → n < pow10 (suc d) → length (decimal n) ≤ suc d
unfolding decimal
length-decimal d n h = length-decimal_on (suc n) d n h
