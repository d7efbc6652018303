-- ===== src/Walk/Anywhere.antt =====
-- A step of a walk from any cursor of 64 bits: the bits above the tables do not matter.
use native.Mathlib.Nat.{pow-suc, pow-le-pow_right, mod-lt}
use native.Mathlib.Decide.{dec_lt, ℕ_discrete}
use seedstone.Base.{
  ℕ, suc, ◌+◌, ◌-◌, ◌*◌, ◌/◌, ◌%◌, ◌^◌, ◌≤◌, ◌<◌, ◌≡◌, div-eq_iff, refl, sym, ap, ◌∙◌, arith,
  bit_and, bit_and_digit, bit_xor_masks, ◌==◌, true, false, Bytes, some, [], ◌++◌, length,
  reverse_bits, reverse_bits-lt, reverse_bits-mod, one-le-two_pow, inl, inr, Option-cases,
}
use seedstone.Dict.{Dict}
use seedstone.Dict.Buckets.{Bucket, Table}
use seedstone.Dict.Valid.{IsValid}
use seedstone.Walk.{
  mask_of, visit_bucket, visit_expansion, reverse_increment, scan_tables, scan_in_order, scan,
}
use seedstone.Walk.Order.{next_cursor, reverse_increment_lem, first_half, second_half}
use seedstone.Walk.Expansion.{nonzero_test}

-- The high bits of a cursor do not matter.
reverse_increment-mod :
    (k c : ℕ)
    → k ≤ 64
    → c < 2 ^ 64
    → reverse_increment c (2 ^ k - 1) ≡ reverse_increment (c % 2 ^ k) (2 ^ k - 1)
reverse_increment-mod k c small word =
    let low : c % 2 ^ k < 2 ^ 64 =
      let within : 2 ^ k ≤ 2 ^ 64 = pow-le-pow_right (omega arith) small in
      omega (arith, mod-lt c (one-le-two_pow k)) in
    reverse_increment_lem k c small word
    ∙ rw (← reverse_bits-mod k c) refl
    ∙ sym (reverse_increment_lem k (c % 2 ^ k) small low)

module _ (k : ℕ) (small : k < 64) where
  stops_below : (n : ℕ) → n < 2 ^ k → (bit_and n (2 ^ k) == 0) ≡ true
  stops_below n h =
      let under : n / 2 ^ k ≡ 0 =
        (div-eq_iff n (2 ^ k) 0 (one-le-two_pow k)).1 (omega arith, omega arith) in
      let gone : 0 % 2 * 2 ^ k ≡ 0 = omega arith in rw (bit_and_digit k n, under, gone) refl

  goes_above : (n : ℕ) → n < 2 ^ k → (bit_and (2 ^ k + n) (2 ^ k) == 0) ≡ false
  goes_above n h =
      let over : (2 ^ k + n) / 2 ^ k ≡ 1 =
        (div-eq_iff (2 ^ k + n) (2 ^ k) 1 (one-le-two_pow k)).1 (omega arith, omega arith) in
      rw (bit_and_digit k (2 ^ k + n), over) (nonzero_test _ (omega (arith, one-le-two_pow k)))

  visit_expansion_returns :
      (new : Table) (fuel c : ℕ)
      → length new ≡ 2 ^ suc k
      → c < 2 ^ 64
      → (next : ℕ) × (visited : Bucket) × (visit_expansion
            (suc (suc fuel))
            reverse_increment
            new
            (2 ^ k - 1)
            c
          ≡ some (next, visited))
        × (next < 2 ^ k)
  unfolding visit_expansion mask_of
  visit_expansion_returns new fuel c width word =
      let deeper : suc k ≤ 64 = omega arith in
      let mask : length new - 1 ≡ 2 ^ suc k - 1 = rw width refl in
      let low = c % 2 ^ suc k in
      let first = reverse_increment-mod (suc k) c deeper word in
      elim (dec_lt low (2 ^ k)) [
        | yes under ↦
            let next = next_cursor k low in
            let lower = reverse_bits-lt k ((reverse_bits k low + 1) % 2 ^ k) in
            (
              next,
              visit_bucket new c ++ visit_bucket new (2 ^ k + low),
              rw
                  (
                    mask,
                    first ∙ first_half k low small under,
                    bit_xor_masks k,
                    goes_above low under,
                    second_half k low small under,
                    stops_below next lower,
                  )
                  refl,
              lower,
            )
        | no over ↦
            let rest = low - 2 ^ k in
            let within : rest < 2 ^ k =
              omega (arith, pow-suc 2 k, mod-lt c (one-le-two_pow (suc k))) in
            let parts : low ≡ 2 ^ k + rest = omega arith in
            let next = next_cursor k rest in
            let lower = reverse_bits-lt k ((reverse_bits k rest + 1) % 2 ^ k) in
            (
              next,
              visit_bucket new c,
              rw
                  (
                    mask,
                    first
                        ∙ ap (λ n. reverse_increment n (2 ^ suc k - 1)) parts
                        ∙ second_half k rest small within,
                    bit_xor_masks k,
                    stops_below next lower,
                  )
                  refl,
              lower,
            )
      ]

module _ (sip_hash : ℕ → ℕ → Bytes → ℕ) (k : ℕ) (d : Dict) (valid : IsValid sip_hash k d)
    (small : k < 64) (c : ℕ) (word : c < 2 ^ 64) where
  -- In a sound keyspace of 2^k buckets, k below 64, a step of a walk returns from every cursor of
  -- 64 bits, also one that no call has returned, and the cursor that it returns is below 2^k.
  pub scan_returns :
      (next : ℕ) × (visited : Bucket) × (scan d c ≡ some (next, visited)) × (next < 2 ^ k)
  unfolding scan scan_in_order scan_tables mask_of
  scan_returns = elim (ℕ_discrete d.len 0) [
    | yes empty ↦ (0, [], rw empty refl, omega (arith, one-le-two_pow k))
    | no filled ↦
        let counted : (d.len == 0) ≡ false = nonzero_test d.len (omega arith) in
        let width = valid.laid.width in
        elim (Option-cases d.new) [
          | inl e ↦ (
            reverse_bits k ((reverse_bits k c + 1) % 2 ^ k),
            visit_bucket d.old c,
            rw (counted, e, width, reverse_increment_lem k c (omega arith) word) refl,
            reverse_bits-lt k _,
          )
          | inr (new, e) ↦
              let (wide, placed, drained, more) = rw e at valid.laid.growth in
              let fuel : length new ≡ suc (suc (length new - 2)) =
                omega (arith, wide, pow-suc 2 k, one-le-two_pow k) in
              let (next, visited, runs, lower) =
                visit_expansion_returns k small new (length new - 2) c wide word in
              let ran : visit_expansion (length new) reverse_increment new (2 ^ k - 1) c
                  ≡ some (next, visited) =
                ap (λ n. visit_expansion n reverse_increment new (2 ^ k - 1) c) fuel ∙ runs in
              (next, visit_bucket d.old c ++ visited, rw (counted, e, width, ran) refl, lower)
        ]
  ]
