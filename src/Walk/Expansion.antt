-- ===== src/Walk/Expansion.antt =====
-- The buckets that a cursor selects in one table and in the two of a rehash, and the loop over the
-- larger one, which ends after two rounds.
use native.Mathlib.Nat.{pow-suc, mod-eq_of_lt, mod-lt}
use native.Mathlib.Decide.{dec_lt}
use seedstone.Base.{
  ℕ, suc, ◌+◌, ◌-◌, ◌*◌, ◌/◌, ◌%◌, ◌^◌, ◌≤◌, ◌<◌, ◌≡◌, ◌≢◌, ◌⊎◌, div-eq_iff, under_digit, refl, sym,
  ap, ◌∙◌, arith, bit_and, bit_and_mask, bit_and_digit, bit_xor_masks, ◌==◌, true, false, Bytes,
  Option, none, some, [], ◌++◌, length, get_or, or_else, reverse_bits-lt, one-le-two_pow, inl, inr,
}
use seedstone.Dict.Buckets.{Entry, Table, bucket_index, find, find_slot}
use seedstone.Dict.Placed.{IsPlaced, find_slot_elsewhere}
use seedstone.Walk.{mask_of, visit_expansion, reverse_increment}
use seedstone.Walk.Order.{next_cursor, first_half, second_half}

pub or_else-right : (o : Option Entry) → or_else o none ≡ o
or_else-right o = ground arith

pub nonzero_test : (n : ℕ) → 1 ≤ n → (n == 0) ≡ false
nonzero_test n h = ground arith

regroup : (d e p r : ℕ) → (d * 2 + e) * p + r ≡ d * (p * 2) + (e * p + r)
regroup d e p r = grind arith

digit_below : (e p r : ℕ) → e < 2 → r < p → e * p + r < p * 2
digit_below e p r he hr = grind arith

-- The remainder by twice a number is that by the number, or that and the number.
rem_double : (p h : ℕ) → 1 ≤ p → (h % (p * 2) ≡ h % p) ⊎ (h % (p * 2) ≡ p + h % p)
rem_double p h pos =
    let d = h / p / 2 in
    let e = h / p % 2 in
    let r = h % p in
    let cut : h ≡ h / p * p + r = grind arith in
    let quotient : h / p ≡ d * 2 + e = omega arith in
    let parts : h ≡ d * (p * 2) + (e * p + r) =
      cut ∙ ap (λ q. q * p + r) quotient ∙ regroup d e p r in
    let rest : h % (p * 2) ≡ e * p + r =
      ap (λ n. n % (p * 2)) parts
      ∙ under_digit (p * 2) d (e * p + r) (digit_below e p r (omega arith) (mod-lt h pos)) in
    elim (dec_lt e 1) [
      | yes low ↦ let none_set : e ≡ 0 = omega arith in inl (rest ∙ rw none_set (omega arith))
      | no high ↦ let set : e ≡ 1 = omega arith in inr (rest ∙ rw set (omega arith))
    ]

pub masked : (k c : ℕ) → c < 2 ^ k → bit_and c (2 ^ k - 1) ≡ c
masked k c within = bit_and_mask k c ∙ mod-eq_of_lt within

-- A table answers from the bucket of the hash.
pub find-at :
    (k c : ℕ) (table : Table) (hash : ℕ) (key : Bytes)
    → length table ≡ 2 ^ k
    → hash % 2 ^ k ≡ c
    → find table hash key ≡ find_slot (get_or table c []) hash key
unfolding find bucket_index
find-at k c table hash key width at = rw (width, bit_and_mask k hash, at) refl

not_home : (k i : ℕ) (hash n : ℕ) → n ≡ 2 ^ k → hash % 2 ^ k ≢ i → i ≢ bucket_index hash n
unfolding bucket_index
not_home k i hash n width ne e = ne (sym (e ∙ rw (width, bit_and_mask k hash) refl))

module _ (hash_of : Bytes → ℕ) (k c : ℕ) (within : c < 2 ^ k) (key : Bytes)
    (here : hash_of key % 2 ^ k ≡ c) where
  two_homes : (hash_of key % 2 ^ suc k ≡ c) ⊎ (hash_of key % 2 ^ suc k ≡ 2 ^ k + c)
  two_homes = rw (← here, pow-suc 2 k) (rem_double (2 ^ k) (hash_of key) (one-le-two_pow k))

  -- The two buckets that `c` expands into answer for the whole of the wide table.
  pub find-expansion :
      (new : Table)
      → length new ≡ 2 ^ suc k
      → IsPlaced hash_of new
      → or_else
          (find_slot (get_or new c []) (hash_of key) key)
          (find_slot (get_or new (2 ^ k + c) []) (hash_of key) key)
        ≡ find new (hash_of key) key
  find-expansion new width placed =
      let distinct : c ≢ 2 ^ k + c = λ e. absurd (omega (arith, e, one-le-two_pow k)) in
      elim two_homes [
        | inl low ↦
            let elsewhere =
              find_slot_elsewhere hash_of (length new) (2 ^ k + c) (get_or new (2 ^ k + c) [])
                (hash_of key) key (placed.at (2 ^ k + c))
                (not_home (suc k) (2 ^ k + c) (hash_of key) (length new) width
                  (λ e. distinct (sym low ∙ e))) in
            rw (elsewhere, find-at (suc k) c new (hash_of key) key width low) (or_else-right _)
        | inr high ↦
            let elsewhere =
              find_slot_elsewhere hash_of (length new) c (get_or new c []) (hash_of key) key
                (placed.at c)
                (not_home (suc k) c (hash_of key) (length new) width
                  (λ e. distinct (sym e ∙ high))) in
            rw (elsewhere, find-at (suc k) (2 ^ k + c) new (hash_of key) key width high) refl
      ]

-- The loop takes two rounds.
module _ (k c : ℕ) (small : k < 64) (within : c < 2 ^ k) where
  next_cursor-lt : next_cursor k c < 2 ^ k
  next_cursor-lt = reverse_bits-lt k _

  pub visit_expansion_lem :
      (new : Table) (fuel : ℕ)
      → length new ≡ 2 ^ suc k
      → visit_expansion (suc (suc fuel)) reverse_increment new (2 ^ k - 1) c
        ≡ some (next_cursor k c, get_or new c [] ++ get_or new (2 ^ k + c) [])
  unfolding visit_expansion mask_of
  visit_expansion_lem new fuel width =
      let mask : mask_of new ≡ 2 ^ suc k - 1 = rw width refl in
      let over : (2 ^ k + c) / 2 ^ k ≡ 1 =
        (div-eq_iff (2 ^ k + c) (2 ^ k) 1 (one-le-two_pow k)).1 (omega arith, omega arith) in
      let under : next_cursor k c / 2 ^ k ≡ 0 =
        (div-eq_iff (next_cursor k c) (2 ^ k) 0 (one-le-two_pow k)).1
          (omega arith, omega (arith, next_cursor-lt)) in
      let goes_on : (bit_and (2 ^ k + c) (2 ^ k) == 0) ≡ false =
        rw (bit_and_digit k (2 ^ k + c), over) (nonzero_test _ (omega (arith, one-le-two_pow k))) in
      let stops : (bit_and (next_cursor k c) (2 ^ k) == 0) ≡ true =
        let gone : 0 % 2 * 2 ^ k ≡ 0 = omega arith in
        rw (bit_and_digit k (next_cursor k c), under, gone) refl in
      rw
        (
          mask,
          first_half k c small within,
          bit_xor_masks k,
          goes_on,
          second_half k c small within,
          stops,
          masked (suc k) c (omega (arith, pow-suc 2 k)),
          masked (suc k) (2 ^ k + c) (omega (arith, pow-suc 2 k)),
        )
        refl
