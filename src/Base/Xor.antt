-- ===== src/Base/Xor.antt =====
-- Exclusive or on all words: its digits, its laws, and the sum of two words that share no digit.
use Prim.Native.Nat.{ℕ, zero, suc, ◌+◌, ◌*◌, ◌/◌, ◌%◌, ◌^◌, ◌≤◌, ◌<◌, bit_xor, differ}
use mathlib.Core.Path.{◌≡◌, refl, sym, ap, ◌∙◌}
use native.Mathlib.Omega.{arith}
use native.Mathlib.Nat.{pow-suc}
use seedstone.Base.Bits.{bit_xor_step, differ-lt}

pub xor_parity : (a b : ℕ) → bit_xor a b % 2 ≡ differ (a % 2) (b % 2)
xor_parity a b =
    omega (arith, bit_xor_step a b, differ-lt (a % 2) (b % 2) (omega arith) (omega arith))

pub xor_half : (a b : ℕ) → bit_xor a b / 2 ≡ bit_xor (a / 2) (b / 2)
xor_half a b =
    omega (arith, bit_xor_step a b, differ-lt (a % 2) (b % 2) (omega arith) (omega arith))

differ_comm : (x y : ℕ) → differ x y ≡ differ y x
differ_comm zero zero = refl
differ_comm zero (suc y) = refl
differ_comm (suc x) zero = refl
differ_comm (suc x) (suc y) = differ_comm x y

differ_assoc : (x y z : ℕ) → x < 2 → y < 2 → z < 2 → differ (differ x y) z ≡ differ x (differ y z)
differ_assoc zero y z p q r = refl
differ_assoc (suc zero) zero z p q r = refl
differ_assoc (suc zero) (suc zero) zero p q r = refl
differ_assoc (suc zero) (suc zero) (suc zero) p q r = refl
differ_assoc (suc zero) (suc zero) (suc (suc z)) p q r = absurd (omega arith)
differ_assoc (suc zero) (suc (suc y)) z p q r = absurd (omega arith)
differ_assoc (suc (suc x)) y z p q r = absurd (omega arith)

comm_below : (n a b : ℕ) → a ≤ n → b ≤ n → bit_xor a b ≡ bit_xor b a
comm_below zero a b p q =
    let ea : a ≡ 0 = omega arith in let eb : b ≡ 0 = omega arith in rw (ea, eb) refl
comm_below (suc n) a b p q = omega (
  arith,
  bit_xor_step a b,
  bit_xor_step b a,
  differ_comm (a % 2) (b % 2),
  comm_below n (a / 2) (b / 2) (omega arith) (omega arith),
)

pub xor_comm : (a b : ℕ) → bit_xor a b ≡ bit_xor b a
xor_comm a b = comm_below (a + b) a b (omega arith) (omega arith)

assoc_below :
    (n a b c : ℕ) → a ≤ n → b ≤ n → c ≤ n → bit_xor (bit_xor a b) c ≡ bit_xor a (bit_xor b c)
assoc_below zero a b c p q r =
    let ea : a ≡ 0 = omega arith in
    let eb : b ≡ 0 = omega arith in let ec : c ≡ 0 = omega arith in rw (ea, eb, ec) refl
assoc_below (suc n) a b c p q r =
    let bits = differ_assoc (a % 2) (b % 2) (c % 2) (omega arith) (omega arith) (omega arith) in
    let halves = assoc_below n (a / 2) (b / 2) (c / 2) (omega arith) (omega arith) (omega arith) in
    let left = rw (xor_parity a b, xor_half a b) at (bit_xor_step (bit_xor a b) c) in
    let right = rw (xor_parity b c, xor_half b c) at (bit_xor_step a (bit_xor b c)) in
    omega (arith, left, right, bits, halves)

pub xor_assoc : (a b c : ℕ) → bit_xor (bit_xor a b) c ≡ bit_xor a (bit_xor b c)
xor_assoc a b c = assoc_below (a + b + c) a b c (omega arith) (omega arith) (omega arith)

zero_below : (n a : ℕ) → a ≤ n → bit_xor a 0 ≡ a
zero_below zero a p = let ea : a ≡ 0 = omega arith in rw ea refl
zero_below (suc n) a p =
    let digit : differ (a % 2) 0 ≡ a % 2 = differ_comm (a % 2) 0 in
    omega (arith, bit_xor_step a 0, digit, zero_below n (a / 2) (omega arith))

pub xor_zero : (a : ℕ) → bit_xor a 0 ≡ a
xor_zero a = zero_below a a (omega arith)

pub zero_xor : (a : ℕ) → bit_xor 0 a ≡ a
zero_xor a = xor_comm 0 a ∙ xor_zero a

-- The middle two of four words change places.
pub xor_exchange :
    (a b c d : ℕ) → bit_xor (bit_xor a b) (bit_xor c d) ≡ bit_xor (bit_xor a c) (bit_xor b d)
xor_exchange a b c d =
    xor_assoc a b (bit_xor c d)
    ∙ ap (bit_xor a)
        (sym (xor_assoc b c d) ∙ ap (λ x. bit_xor x d) (xor_comm b c) ∙ xor_assoc c b d)
    ∙ sym (xor_assoc a c (bit_xor b d))

twice : (h p : ℕ) → h * (p * 2) ≡ 2 * (h * p)
twice h p = grind arith

-- Two words that share no digit.
pub xor_disjoint : (k low high : ℕ) → low < 2 ^ k → bit_xor low (high * 2 ^ k) ≡ low + high * 2 ^ k
xor_disjoint zero low high h =
    let none : low ≡ 0 = omega arith in rw none (zero_xor (high * 1) ∙ omega arith)
xor_disjoint (suc k) low high h =
    let doubled : high * 2 ^ suc k ≡ 2 * (high * 2 ^ k) =
      ap (λ p. high * p) (pow-suc 2 k) ∙ twice high (2 ^ k) in
    let even : 2 * (high * 2 ^ k) % 2 ≡ 0 = omega arith in
    let half : 2 * (high * 2 ^ k) / 2 ≡ high * 2 ^ k = omega arith in
    let digit : differ (low % 2) 0 ≡ low % 2 = differ_comm (low % 2) 0 in
    let step = rw (even, half) at (bit_xor_step low (2 * (high * 2 ^ k))) in
    let rest = xor_disjoint k (low / 2) high (omega (arith, pow-suc 2 k)) in
    rw doubled (omega (arith, step, digit, rest))
