-- ===== src/Service/Expiry/Clock.antt =====
-- The bounds of expiry.rs against the clock.
use seedstone.Shard.Integer.{parse_i64}
use seedstone.Base.{
  min, ◌==◌, ◌||◌, codes, ℕ, ◌+◌, ◌-◌, ◌*◌, ◌^◌, ◌≤◌, ◌<◌, ltb, leb, ◌≡◌, ◌↔◌, refl, arith, Bytes,
  pos, some, ok, err, err≢ok, Bool-cases, inl, inr, Result,
}
use seedstone.Service.Expiry.{
  Refusal, max_i64, year_3000_millis, refuse_past_the_clock, checked, set_expire_value,
  expire_seconds, expire_seconds_of, set_expire_value_of, clock_safe_span_millis,
  max_expire_seconds,
}

refuse_past_the_clock_iff :
    (span : ℕ) (name : Bytes) (now : ℕ)
    → now ≤ year_3000_millis
    → (refuse_past_the_clock span name now ≡ ok tt) ↔ (now + span ≤ max_i64)
unfolding refuse_past_the_clock
refuse_past_the_clock_iff span name now h = elim (Bool-cases (leb span clock_safe_span_millis)) [
  | inl safe ↦ rw safe (λ e. ground arith, λ k. refl)
  | inr probe ↦ elim (Bool-cases (ltb (max_i64 - now) span)) [
    | inl past ↦ rw (probe, past) (λ e. absurd (err≢ok e), λ k. absurd (ground arith))
    | inr fits ↦ rw (probe, fits) (λ e. ground arith, λ k. refl)
  ]
]

checked_iff {ℓ} :
    {A : Type ℓ} (r : Result (Unit {0}) Refusal) (a : A) → (checked r a ≡ ok a) ↔ (r ≡ ok tt)
checked_iff (err e) a = (λ h. absurd (err≢ok h), λ h. absurd (err≢ok h))
checked_iff (ok tt) a = (λ h. refl, λ h. refl)

-- Until the year 3000, `expire_seconds` accepts a span of n seconds, not negative, exactly
-- when the clock's reading plus the span's milliseconds is an i64.
pub expire_seconds_iff :
    (argument : Bytes) (n now : ℕ)
    → now ≤ year_3000_millis
    → parse_i64 argument ≡ some (pos n)
    → (expire_seconds argument now ≡ ok (pos n)) ↔ (now + n * 1000 ≤ max_i64)
unfolding expire_seconds expire_seconds_of
expire_seconds_iff argument n now h read = rw read (elim (Bool-cases (ltb max_expire_seconds n)) [
  | inl long ↦ rw long (λ e. absurd (err≢ok e), λ k. absurd (ground arith))
  | inr short ↦ rw short (
      let (e1, e2) = checked_iff (refuse_past_the_clock (n * 1000) (codes "expire") now) (pos n) in
      let (r1, r2) = refuse_past_the_clock_iff (n * 1000) (codes "expire") now h in
      (λ e. r1 (e1 e), λ k. e2 (r2 k)))
])

-- Until the year 3000, `set_expire_value` of a span of n units accepts it exactly when n is
-- positive, is within the ceiling, and the clock's reading plus the span's milliseconds is an
-- i64.
pub set_expire_value_iff :
    (argument : Bytes) (n ceiling unit : ℕ) (name : Bytes) (now : ℕ)
    → now ≤ year_3000_millis
    → parse_i64 argument ≡ some (pos n)
    → (set_expire_value argument ceiling name now (some unit) ≡ ok n)
      ↔ ((0 < n) × ((n ≤ ceiling) × (now + n * unit ≤ max_i64)))
unfolding set_expire_value set_expire_value_of
set_expire_value_iff argument n ceiling unit name now h read =
    rw read (elim (Bool-cases ((n == 0) || ltb ceiling n)) [
      | inl out ↦ rw out (λ e. absurd (err≢ok e), λ k. let (p, (q, r)) = k in absurd (ground arith))
      | inr within ↦ rw within (
          let (e1, e2) =
            checked_iff (refuse_past_the_clock (min (n * unit) (2 ^ 64 - 1)) name now) n in
          let (r1, r2) = refuse_past_the_clock_iff (min (n * unit) (2 ^ 64 - 1)) name now h in
          (
            λ e. let fits = r1 (e1 e) in (ground arith, (ground arith, ground arith)),
            λ k. let (p, (q, r)) = k in e2 (r2 (ground arith)),
          ))
    ])
