-- ===== src/Base/Int.antt =====
-- Signed integers over the native numbers, and the outcome of a fallible function.
use Prim.Native.Nat.{ℕ, zero, suc, ◌+◌, ◌-◌}
use mathlib.Core.Path.{◌≡◌}
use mathlib.Core.Logic.{◌≢◌}
use mathlib.Core.Bool.{Bool}
use seedstone.Base.Tests.{leb, ltb, if◌then◌else◌}

-- `negsuc n` is -(n + 1).
pub data ℤ : Type 0 where
  pos : ℕ → ℤ
  negsuc : ℕ → ℤ

-- the negative of a number
abbrev pub negate : ℕ → ℤ
negate zero = pos 0
negate (suc n) = negsuc n

abbrev pub pos_part : ℤ → ℕ
pos_part (pos n) = n
pos_part (negsuc n) = 0

abbrev pub neg_part : ℤ → ℕ
neg_part (pos n) = 0
neg_part (negsuc n) = suc n

-- a - b, as an integer
abbrev pub sub_ℕ : ℕ → ℕ → ℤ
sub_ℕ a b = if leb b a then pos (a - b) else negsuc (b - a - 1)

infixl 65 ◌+ℤ◌
unfoldable pub ◌+ℤ◌ : ℤ → ℤ → ℤ
a +ℤ b = sub_ℕ (pos_part a + pos_part b) (neg_part a + neg_part b)

-- an integer of 64 bits
abbrev pub is_i64 : ℤ → Bool
is_i64 (pos n) = ltb n 9223372036854775808
is_i64 (negsuc n) = ltb n 9223372036854775808

pub data Result {ℓ κ} (A : Type ℓ) (E : Type κ) : Type (ℓ ⊔ κ) where
  ok : A → Result A E
  err : E → Result A E

module _ {ℓ κ} {A : Type ℓ} {E : Type κ} where
  pub err≢ok : {e : E} {a : A} → err e ≢ ok a
  err≢ok h = cc

  pub ok-inj : {a b : A} → ◌≡◌ {A = Result A E} (ok a) (ok b) → a ≡ b
  ok-inj h = cc
