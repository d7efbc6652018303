-- ===== src/Tests/ExpiryRuns.antt =====
-- Runs of crates/seedstone-service/src/expiry.rs and the shard's `parse_i64`.
use seedstone.Base.{
  all_digits, is_utf8, digits_value, ◌≡◌, ◌≤◌, ◌<◌, ◌+◌, ◌*◌, ◌↔◌, refl, arith, ok, err, some, none,
  pos, negsuc, codes,
}
use seedstone.Shard.Integer.{parse_i64}
use seedstone.Service.Expiry.{
  max_i64, max_expire_seconds, expire_seconds, expire_millis, set_expire_value,
  absolute_deadline_span, invalid_expire,
}
use seedstone.Memory.{lowered}
use seedstone.Shard.Command.{ex}
use seedstone.Service.Expiry.Units.{
  ExpiryUnit, opt_ex, span, expiry_unit, per_unit, span_option_iff,
}

leading_zero : parse_i64 (codes "007") ≡ none
unfolding parse_i64 all_digits is_utf8 digits_value
leading_zero = refl

negative_zero : parse_i64 (codes "-0") ≡ none
unfolding parse_i64 all_digits is_utf8 digits_value
negative_zero = refl

smallest : parse_i64 (codes "-9223372036854775808") ≡ some (negsuc 9223372036854775807)
unfolding parse_i64 all_digits is_utf8 digits_value
smallest = refl

ninety : parse_i64 (codes "90") ≡ some (pos 90)
unfolding parse_i64 all_digits is_utf8 digits_value
ninety = refl

past_the_clock :
    expire_seconds (codes "9223370247774832") 1789079945526 ≡ err (invalid_expire (codes "expire"))
unfolding expire_seconds all_digits is_utf8 digits_value
past_the_clock = refl

within_the_clock :
    expire_seconds (codes "9223370247774828") 1789079945526 ≡ ok (pos 9223370247774828)
unfolding expire_seconds all_digits is_utf8 digits_value
within_the_clock = refl

least_millis :
    expire_millis (codes "-9223372036854775808") 1789079945526 ≡ ok (negsuc 9223372036854775807)
unfolding expire_millis all_digits is_utf8 digits_value
least_millis = refl

least_deadline :
    absolute_deadline_span (codes "-9223372036854775808") 1 (codes "pexpireat") 5 ≡ ok 0
unfolding absolute_deadline_span all_digits is_utf8 digits_value
least_deadline = refl

abbrev seconds_unit : ExpiryUnit
seconds_unit = record { option = opt_ex; ceiling = max_expire_seconds; form = span 1000 ex }

ex_in_small_letters : expiry_unit (codes "eX") ≡ some seconds_unit
unfolding expiry_unit lowered
ex_in_small_letters = refl

seconds_in_millis : per_unit seconds_unit.form ≡ some 1000
unfolding per_unit
seconds_in_millis = refl

span_option_iff_example :
    (set_expire_value
        (codes "90")
        max_expire_seconds
        (codes "set")
        1789079945526
        (per_unit seconds_unit.form)
      ≡ ok 90)
    ↔ ((0 < 90) × (1789079945526 + 90 * 1000 ≤ max_i64))
span_option_iff_example =
    span_option_iff (codes "eX") seconds_unit 1000 (codes "set") (codes "90") 90 1789079945526
      ex_in_small_letters seconds_in_millis (omega arith) ninety
