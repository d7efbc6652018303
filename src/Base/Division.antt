-- ===== src/Base/Division.antt =====
-- Quotients by a variable: bounds on a product say what the quotient is.
use Prim.Native.Nat.{ℕ, ◌+◌, ◌-◌, ◌*◌, ◌/◌, ◌≤◌, ◌<◌}
use mathlib.Core.Path.{◌≡◌}
use mathlib.Core.Logic.{◌↔◌}
use native.Mathlib.Omega.{arith}

pub mul-lt-mul : (a b m n : ℕ) → a < m → b < n → a * b < m * n
mul-lt-mul a b m n p q = grind arith

pub div-le_iff : (a n q : ℕ) → 0 < n → (a / n ≤ q) ↔ (a < (q + 1) * n)
div-le_iff a n q h = (λ p. grind arith, λ p. grind arith)

pub le-div_iff : (a n q : ℕ) → 0 < n → (q ≤ a / n) ↔ (q * n ≤ a)
le-div_iff a n q h = (λ p. grind arith, λ p. grind arith)

pub div-eq_iff : (a n q : ℕ) → 0 < n → (a / n ≡ q) ↔ ((q * n ≤ a) × (a < (q + 1) * n))
div-eq_iff a n q h = (
  λ p. (grind arith, grind arith),
  λ p. omega (arith, (div-le_iff a n q h).1 p.1, (le-div_iff a n q h).1 p.0),
)

-- the quotient rounded up
pub ceil-le_iff : (a n q : ℕ) → 0 < n → ((a + (n - 1)) / n ≤ q) ↔ (a ≤ q * n)
ceil-le_iff a n q h = (λ p. grind arith, λ p. (div-le_iff (a + (n - 1)) n q h).1 (omega arith))

pub lt-ceil_iff : (a n q : ℕ) → 0 < n → (q < (a + (n - 1)) / n) ↔ (q * n < a)
lt-ceil_iff a n q h =
    (λ p. grind arith, λ p. omega (arith, (le-div_iff (a + (n - 1)) n (q + 1) h).1 (omega arith)))

le_of_mul-le : (a b c d n : ℕ) → 0 < n → a * n ≤ c → d + c ≤ b * n → a ≤ b
le_of_mul-le a b c d n h p q = grind arith

le-sub_mul : (a b d q n : ℕ) → q * n ≤ b → a + b ≤ d * n → q ≤ d → a ≤ (d - q) * n
le-sub_mul a b d q n p r s = grind arith

add-le_mul : (a b c q n : ℕ) → a ≤ c * n → b < (q + 1) * n → a + b ≤ (c + q + 1) * n
add-le_mul a b c q n p r = grind arith

-- What `b` more adds to a quotient rounded up: `b / n`, or one more than that.
pub ceil-add_bounds :
    (a b n : ℕ)
    → 0 < n
    → ((a + (n - 1)) / n + b / n ≤ (a + b + (n - 1)) / n)
      × ((a + b + (n - 1)) / n ≤ (a + (n - 1)) / n + b / n + 1)
ceil-add_bounds a b n h =
    let c = (a + (n - 1)) / n in
    let d = (a + b + (n - 1)) / n in
    let q = b / n in
    let reach : a ≤ c * n = (ceil-le_iff a n c h).0 (omega arith) in
    let reach' : a + b ≤ d * n = (ceil-le_iff (a + b) n d h).0 (omega arith) in
    let whole : q * n ≤ b = (le-div_iff b n q h).0 (omega arith) in
    let part : b < (q + 1) * n = (div-le_iff b n q h).0 (omega arith) in
    let q_le_d : q ≤ d = le_of_mul-le q d b a n h whole reach' in
    let lower : c ≤ d - q =
      (ceil-le_iff a n (d - q) h).1 (le-sub_mul a b d q n whole reach' q_le_d) in
    (omega arith, (ceil-le_iff (a + b) n (c + q + 1) h).1 (add-le_mul a b c q n reach part))
