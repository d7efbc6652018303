-- ===== src/Service/Expiry.antt =====
-- crates/seedstone-service/src/expiry.rs: spans and absolute deadlines of a command, bounded by a
-- constant and then by the clock, whose reading is an argument.
pub mod Clock
pub mod Units
use seedstone.Shard.Integer.{parse_i64}
use seedstone.Base.{
  ℕ, zero, suc, ◌+◌, ◌-◌, ◌*◌, ◌^◌, ◌==◌, ltb, leb, min, Bool, true, false, not, ◌||◌, Bytes, codes,
  ℤ, pos, negsuc, Option, none, some, Result, ok, err, List, [], ◌∷◌, if◌then◌else◌,
}

-- `ReplyError::NotAnInteger`, and `invalid_expire` with the name of the command
pub data Refusal : Type 0 where
  not_an_integer : Refusal
  invalid_expire : Bytes → Refusal

abbrev pub max_i64 : ℕ
max_i64 = 9223372036854775807

abbrev pub max_expire_seconds : ℕ
max_expire_seconds = 9223372036854775

abbrev pub max_expire_millis : ℕ
max_expire_millis = max_expire_seconds * 1000

abbrev pub year_3000_millis : ℕ
year_3000_millis = 32503680000000

abbrev pub clock_safe_span_millis : ℕ
clock_safe_span_millis = max_i64 - year_3000_millis

unfoldable pub refuse_past_the_clock : ℕ → Bytes → ℕ → Result (Unit {0}) Refusal
refuse_past_the_clock span_millis name now =
    if leb span_millis clock_safe_span_millis
    then ok tt
    else if ltb (max_i64 - now) span_millis
    then err (invalid_expire name)
    else ok tt

abbrev pub checked {ℓ} : {A : Type ℓ} → Result (Unit {0}) Refusal → A → Result A Refusal
checked (err e) a = err e
checked (ok u) a = ok a

unfoldable pub expire_seconds_of : ℤ → ℕ → Result ℤ Refusal
unfolding refuse_past_the_clock
expire_seconds_of (pos n) now =
    if ltb max_expire_seconds n
    then err (invalid_expire (codes "expire"))
    else checked (refuse_past_the_clock (n * 1000) (codes "expire") now) (pos n)
expire_seconds_of (negsuc n) now =
    if ltb max_expire_seconds (suc n) then err (invalid_expire (codes "expire")) else ok (negsuc n)

-- the value of an argument, or the refusal of what is no integer of 64 bits
abbrev pub integer_then {ℓ} : {A : Type ℓ} → Option ℤ → (ℤ → Result A Refusal) → Result A Refusal
integer_then none rest = err not_an_integer
integer_then (some i) rest = rest i

unfoldable pub expire_seconds : Bytes → ℕ → Result ℤ Refusal
unfolding expire_seconds_of parse_i64
expire_seconds seconds now = integer_then (parse_i64 seconds) (λ i. expire_seconds_of i now)

unfoldable pub expire_millis_of : ℤ → ℕ → Result ℤ Refusal
unfolding refuse_past_the_clock
expire_millis_of (pos n) now =
    if ltb max_expire_millis n
    then err (invalid_expire (codes "pexpire"))
    else checked (refuse_past_the_clock n (codes "pexpire") now) (pos n)
expire_millis_of (negsuc n) now = ok (negsuc n)

unfoldable pub expire_millis : Bytes → ℕ → Result ℤ Refusal
unfolding expire_millis_of parse_i64
expire_millis millis now = integer_then (parse_i64 millis) (λ i. expire_millis_of i now)

unfoldable pub set_expire_value_of : ℤ → ℕ → Bytes → ℕ → Option ℕ → Result ℕ Refusal
unfolding refuse_past_the_clock
set_expire_value_of (negsuc n) ceiling name now unit = err (invalid_expire name)
set_expire_value_of (pos n) ceiling name now none =
    if (n == 0) || ltb ceiling n then err (invalid_expire name) else ok n
set_expire_value_of (pos n) ceiling name now (some per_unit_millis) =
    if (n == 0) || ltb ceiling n
    then err (invalid_expire name)
    else checked (refuse_past_the_clock (min (n * per_unit_millis) (2 ^ 64 - 1)) name now) n

unfoldable pub set_expire_value : Bytes → ℕ → Bytes → ℕ → Option ℕ → Result ℕ Refusal
unfolding set_expire_value_of parse_i64
set_expire_value value ceiling name now per_unit_millis =
    integer_then (parse_i64 value) (λ i. set_expire_value_of i ceiling name now per_unit_millis)

abbrev pub remaining_from : ℕ → ℕ → ℕ
remaining_from deadline_millis now = min (deadline_millis - now) (2 ^ 64 - 1)

unfoldable pub absolute_deadline_span_of : ℤ → ℕ → Bytes → ℕ → Result ℕ Refusal
absolute_deadline_span_of (pos n) per_unit_millis name now =
    if ltb max_i64 (n * per_unit_millis)
    then err (invalid_expire name)
    else if n * per_unit_millis == 0
    then ok 0
    else ok (min (remaining_from (n * per_unit_millis) now) max_i64)
absolute_deadline_span_of (negsuc n) per_unit_millis name now =
    if ltb (2 ^ 63) (suc n * per_unit_millis) then err (invalid_expire name) else ok 0

unfoldable pub absolute_deadline_span : Bytes → ℕ → Bytes → ℕ → Result ℕ Refusal
unfolding absolute_deadline_span_of parse_i64
absolute_deadline_span value per_unit_millis name now =
    integer_then (parse_i64 value) (λ i. absolute_deadline_span_of i per_unit_millis name now)
