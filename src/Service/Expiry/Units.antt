-- ===== src/Service/Expiry/Units.antt =====
-- `expiry_unit` of crates/seedstone-service/src/expiry.rs: the options of SET that give a lifetime,
-- with the ceiling of each one's value and the milliseconds of its unit.
use seedstone.Base.{
  ℕ, ◌+◌, ◌*◌, ◌≤◌, ◌<◌, arith, Bool, Bytes, codes, Option, none, some, bytes_eq, some-inj,
  none≢some, subst, Bool-cases, inl, inr, if◌then◌else◌, ◌≡◌, ◌↔◌, ok, pos,
}
use seedstone.Memory.{lowered}
use seedstone.Shard.Integer.{parse_i64}
use seedstone.Shard.Command.{Lifetime, ex, px}
use seedstone.Service.Expiry.{max_expire_seconds, max_i64, year_3000_millis, set_expire_value}
use seedstone.Service.Expiry.Clock.{set_expire_value_iff}

pub data ExpiryOption : Type 0 where
  opt_ex : ExpiryOption
  opt_px : ExpiryOption
  opt_exat : ExpiryOption
  opt_pxat : ExpiryOption
  opt_keep_ttl : ExpiryOption

pub data ExpiryForm : Type 0 where
  span : ℕ → (ℕ → Lifetime) → ExpiryForm
  deadline : ℕ → ExpiryForm

pub record ExpiryUnit : Type 0 where
  pub option : ExpiryOption
  pub ceiling : ℕ
  pub form : ExpiryForm

abbrev pub eq_ignore_ascii_case : Bytes → Bytes → Bool
eq_ignore_ascii_case a b = bytes_eq (lowered a) (lowered b)

unfoldable pub expiry_unit : Bytes → Option ExpiryUnit
expiry_unit option =
    if eq_ignore_ascii_case option (codes "EX")
    then some (record { option = opt_ex; ceiling = max_expire_seconds; form = span 1000 ex })
    else if eq_ignore_ascii_case option (codes "PX")
    then some (record { option = opt_px; ceiling = max_i64; form = span 1 px })
    else if eq_ignore_ascii_case option (codes "EXAT")
    then some (record { option = opt_exat; ceiling = max_expire_seconds; form = deadline 1000 })
    else if eq_ignore_ascii_case option (codes "PXAT")
    then some (record { option = opt_pxat; ceiling = max_i64; form = deadline 1 })
    else none

-- The milliseconds of a unit whose value is a span.
unfoldable pub per_unit : ExpiryForm → Option ℕ
per_unit (span m wrap) = some m
per_unit (deadline m) = none

Covers : ExpiryUnit → ℕ → Type 0
Covers u m = (n : ℕ) → n * m ≤ max_i64 → n ≤ u.ceiling

row-Covers :
    (r u : ExpiryUnit) (m : ℕ)
    → (per_unit r.form ≡ some m → Covers r m)
    → some r ≡ some u
    → per_unit u.form ≡ some m
    → Covers u m
row-Covers r u m row e =
    subst (λ v. per_unit v.form ≡ some m → Covers v m) (some-inj {a = r} {b = u} e) row

expiry_unit-Covers :
    (name : Bytes) (u : ExpiryUnit) (m : ℕ)
    → expiry_unit name ≡ some u
    → per_unit u.form ≡ some m
    → Covers u m
unfolding expiry_unit per_unit Covers row-Covers
expiry_unit-Covers name u m h p = elim (Bool-cases (eq_ignore_ascii_case name (codes "EX"))) [
  | inl y ↦ row-Covers _ u m (λ q n fits. let k = some-inj q in ground arith) (rw y at h) p
  | inr n1 ↦ elim (Bool-cases (eq_ignore_ascii_case name (codes "PX"))) [
    | inl y ↦ row-Covers _ u m (λ q n fits. let k = some-inj q in ground arith) (rw (n1, y) at h) p
    | inr n2 ↦ elim (Bool-cases (eq_ignore_ascii_case name (codes "EXAT"))) [
      | inl y ↦ row-Covers _ u m (λ q. absurd (none≢some q)) (rw (n1, n2, y) at h) p
      | inr n3 ↦ elim (Bool-cases (eq_ignore_ascii_case name (codes "PXAT"))) [
        | inl y ↦ row-Covers _ u m (λ q. absurd (none≢some q)) (rw (n1, n2, n3, y) at h) p
        | inr n4 ↦ absurd (none≢some (rw (n1, n2, n3, n4) at h))
      ]
    ]
  ]
]

-- Until the year 3000, an option of SET whose value is a span of n units accepts it exactly
-- when n is positive and the clock's reading plus the span's milliseconds is an i64: the
-- unit's own ceiling refuses nothing else.
pub span_option_iff :
    (name : Bytes) (u : ExpiryUnit) (m : ℕ) (command argument : Bytes) (n now : ℕ)
    → expiry_unit name ≡ some u
    → per_unit u.form ≡ some m
    → now ≤ year_3000_millis
    → parse_i64 argument ≡ some (pos n)
    → (set_expire_value argument u.ceiling command now (per_unit u.form) ≡ ok n)
      ↔ ((0 < n) × (now + n * m ≤ max_i64))
unfolding Covers
span_option_iff name u m command argument n now h p early read =
    let (accepted, accepts) = set_expire_value_iff argument n u.ceiling m command now early read in
    rw p (
      λ e. let (positive, (within, fits)) = accepted e in (positive, fits),
      λ k.
          let (positive, fits) = k in
          accepts (positive, (expiry_unit-Covers name u m h p n (omega arith), fits)),
    )
