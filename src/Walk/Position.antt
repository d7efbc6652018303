-- ===== src/Walk/Position.antt =====
-- The place of a cursor in a walk's order, and how far one step moves it.
use native.Mathlib.Nat.{mod-eq_of_lt, mod_self}
use native.Mathlib.Decide.{dec_lt}
use seedstone.Base.{
  ℕ, ◌+◌, ◌-◌, ◌*◌, ◌/◌, ◌%◌, ◌^◌, ◌≤◌, ◌<◌, ◌≡◌, ◌≢◌, ◌⊎◌, sym, ap, ◌∙◌, arith, reverse_bits,
  reverse_bits-lt, reverse_bits-zero, reverse_bits-split, reverse_bits_twice, one-le-two_pow,
  div-eq_iff, inl, inr,
}
use seedstone.Walk.Order.{next_cursor}

-- Where a cursor stands in the order of the walk.
abbrev pub position : ℕ → ℕ
position c = reverse_bits 64 c

le_of_digits : (a b p x : ℕ) → x < p → a * p ≤ b * p + x → a ≤ b
le_of_digits a b p x h e = grind arith

digits-le : (a b p x : ℕ) → a ≤ b → a * p ≤ b * p + x
digits-le a b p x h = grind arith

lt_of_le_ne : {a b : ℕ} → a ≤ b → a ≢ b → a + 1 ≤ b
lt_of_le_ne h ne = omega arith

module _ (k c : ℕ) (small : k ≤ 64) (within : c < 2 ^ k) where
  split_word :
      (x : ℕ)
      → reverse_bits 64 x ≡ reverse_bits k x * 2 ^ (64 - k) + reverse_bits (64 - k) (x / 2 ^ k)
  split_word x =
      let word : 64 - k + k ≡ 64 = omega arith in (rw word at (reverse_bits-split k (64 - k) x))

  position_lem : position c ≡ reverse_bits k c * 2 ^ (64 - k)
  position_lem =
      let none_above : c / 2 ^ k ≡ 0 =
        (div-eq_iff c (2 ^ k) 0 (one-le-two_pow k)).1 (omega arith, omega arith) in
      split_word c ∙ rw (none_above, reverse_bits-zero (64 - k)) (omega arith)

  next_cursor-wraps : 2 ^ k ≤ reverse_bits k c + 1 → next_cursor k c ≡ 0
  next_cursor-wraps last =
      let full : reverse_bits k c + 1 ≡ 2 ^ k = omega (arith, reverse_bits-lt k c) in
      rw (full, mod_self (2 ^ k)) (reverse_bits-zero k)

  next_cursor-reversed :
      reverse_bits k c + 1 < 2 ^ k → reverse_bits k (next_cursor k c) ≡ reverse_bits k c + 1
  next_cursor-reversed more =
      rw (mod-eq_of_lt more, reverse_bits_twice k (reverse_bits k c + 1)) (mod-eq_of_lt more)

-- From a cursor before the key, a step that does not visit the key's bucket stays before it.
pub step_forward :
    (k c h : ℕ)
    → k ≤ 64
    → c < 2 ^ k
    → position c ≤ reverse_bits 64 h
    → h % 2 ^ k ≢ c
    → (next_cursor k c ≢ 0) × (position (next_cursor k c) ≤ reverse_bits 64 h)
step_forward k c h small within before elsewhere =
    let apart : reverse_bits k c ≢ reverse_bits k h = λ e. elsewhere (
      sym (reverse_bits_twice k h)
      ∙ ap (reverse_bits k) (sym e)
      ∙ reverse_bits_twice k c
      ∙ mod-eq_of_lt within) in
    let low = reverse_bits-lt (64 - k) (h / 2 ^ k) in
    let target = split_word k c small within h in
    let from_c : reverse_bits k c ≤ reverse_bits k h =
      le_of_digits (reverse_bits k c) (reverse_bits k h) (2 ^ (64 - k)) _ low
        (rw (← position_lem k c small within, ← target) before) in
    let more : reverse_bits k c + 1 ≤ reverse_bits k h = lt_of_le_ne from_c apart in
    let room : reverse_bits k c + 1 < 2 ^ k = omega (arith, reverse_bits-lt k h) in
    let counted = next_cursor-reversed k c small within room in
    (
      λ e. absurd (omega (arith, counted, ap (reverse_bits k) e, reverse_bits-zero k)),
      rw (position_lem k (next_cursor k c) small (reverse_bits-lt k _), counted, target)
          (digits-le (reverse_bits k c + 1) (reverse_bits k h) (2 ^ (64 - k)) _ more),
    )

-- A step moves on by the share of one bucket, or ends the cycle.
pub step_share :
    (k c : ℕ)
    → k ≤ 64
    → c < 2 ^ k
    → (next_cursor k c ≡ 0) ⊎ (position (next_cursor k c) ≡ position c + 2 ^ (64 - k))
step_share k c small within = elim (dec_lt (reverse_bits k c + 1) (2 ^ k)) [
  | yes room ↦ inr (
      rw
        (
          position_lem k (next_cursor k c) small (reverse_bits-lt k _),
          position_lem k c small within,
          next_cursor-reversed k c small within room,
        )
        (omega arith))
  | no last ↦ inl (next_cursor-wraps k c small within (omega arith))
]
