-- ===== src/Sweep/Eviction.antt =====
-- The victim that an eviction sample finds.
use native.Mathlib.Decide.{ℕ_discrete}
use seedstone.Base.{
  ℕ, zero, suc, ◌+◌, ◌^◌, ◌<◌, ◌≡◌, ◌≢◌, refl, sym, ap, ◌∙◌, arith, ltb, true, false, false≢true,
  Bytes, Option, none, some, [], ◌∷◌, length, reverse_bits-lt, Bool-cases, inl, inr, bytes_eq_refl,
  some-inj, is_some,
}
use seedstone.Dict.{Dict}
use seedstone.Dict.Buckets.{Bucket, Slot}
use seedstone.Dict.Valid.{IsValid}
use seedstone.Walk.Order.{next_cursor}
use seedstone.Walk.Expansion.{nonzero_test}
use seedstone.Walk.Step.{scan_lem}
use seedstone.Sweep.{is_spared, older, meet, key_of, sample, sample_oldest, new_length}

-- No candidate is the spared key.
abbrev pub Allowed : Option Bytes → Option (ℕ × Bytes) → Type 0
Allowed spared oldest = (key : Bytes) → key_of oldest ≡ some key → is_spared spared key ≡ false

older-Allowed :
    (spared : Option Bytes) (oldest : Option (ℕ × Bytes)) (slot : Slot)
    → is_spared spared slot.key ≡ false
    → Allowed spared oldest
    → Allowed spared (older oldest slot)
unfolding older
older-Allowed spared none slot fine allowed key e = rw (← some-inj e) fine
older-Allowed spared (some (stamp, k)) slot fine allowed key e =
    elim (Bool-cases (ltb slot.entry.touched stamp)) [
      | inl less ↦ rw (← some-inj {a = slot.key} (rw less at e)) fine
      | inr more ↦ allowed key (rw more at e)
    ]

pub meet-Allowed :
    (spared : Option Bytes) (visited : Bucket) (seen : ℕ) (oldest : Option (ℕ × Bytes))
    → Allowed spared oldest
    → Allowed spared (meet spared visited seen oldest).1
unfolding meet
meet-Allowed spared [] seen oldest allowed = allowed
meet-Allowed spared (slot ∷ rest) seen oldest allowed =
    elim (Bool-cases (is_spared spared slot.key)) [
      | inl e ↦ rw (meet, e) (meet-Allowed spared rest seen oldest allowed)
      | inr e ↦
          rw (meet, e)
            (meet-Allowed spared rest (seen + 1) (older oldest slot)
              (older-Allowed spared oldest slot e allowed))
    ]

pub spared_self :
    (spared : Option Bytes) (key : Bytes) → spared ≡ some key → is_spared spared key ≡ true
unfolding is_spared
spared_self none key e = absurd (false≢true (ap is_some e))
spared_self (some s) key e = rw (some-inj e) (bytes_eq_refl key)

module _ (sip_hash : ℕ → ℕ → Bytes → ℕ) (k : ℕ) (d : Dict) (valid : IsValid sip_hash k d)
    (small : k < 64) where
  sample_lem :
      (steps samples : ℕ) (spared : Option Bytes) (cursor seen : ℕ) (oldest : Option (ℕ × Bytes))
      → d.len ≢ 0
      → cursor < 2 ^ k
      → Allowed spared oldest
      → (next : ℕ) × (victim : Option Bytes) × (sample steps samples spared d cursor seen oldest
          ≡ some (next, victim))
        × (next < 2 ^ k)
        × ((key : Bytes) → victim ≡ some key → is_spared spared key ≡ false)
  unfolding sample
  sample_lem zero samples spared cursor seen oldest filled within allowed =
      (cursor, key_of oldest, refl, within, allowed)
  sample_lem (suc steps) samples spared cursor seen oldest filled within allowed =
      elim (Bool-cases (ltb seen samples)) [
        | inr enough ↦ (cursor, key_of oldest, rw (sample, enough) refl, within, allowed)
        | inl wanting ↦
            let (visited, scanned, answers) =
              scan_lem sip_hash k d valid cursor small within filled in
            let met = meet spared visited seen oldest in
            let (next, victim, ran, kept, fine) =
              sample_lem steps samples spared (next_cursor k cursor) met.0 met.1 filled
                (reverse_bits-lt k _) (meet-Allowed spared visited seen oldest allowed) in
            (next, victim, rw (sample, wanting, scanned) ran, kept, fine)
      ]

  -- In a sound keyspace of 2^k buckets, k below 64, a sample from a cursor below 2^k returns, with
  -- such a cursor again, and its victim is never the spared key.
  pub sample_oldest_lem :
      (cursor samples : ℕ) (spared : Option Bytes)
      → cursor < 2 ^ k
      → (next : ℕ) × (victim : Option Bytes) × (sample_oldest d cursor samples spared
          ≡ some (next, victim))
        × (next < 2 ^ k)
        × ((key : Bytes) → victim ≡ some key → spared ≢ some key)
  sample_oldest_lem cursor samples spared within = elim (ℕ_discrete d.len 0) [
    | yes empty ↦ (
      cursor,
      none,
      unfold sample_oldest in rw empty refl,
      within,
      λ key e. absurd (false≢true (ap is_some e)),
    )
    | no filled ↦
        let steps = length d.old + new_length d.new in
        let (next, victim, ran, kept, fine) =
          sample_lem steps samples spared cursor 0 none filled within
            (λ key e. absurd (false≢true (ap is_some e))) in
        (
          next,
          victim,
          unfold sample_oldest in rw (nonzero_test d.len (omega arith)) ran,
          kept,
          λ key e same. absurd (false≢true (sym (fine key e) ∙ spared_self spared key same)),
        )
  ]
