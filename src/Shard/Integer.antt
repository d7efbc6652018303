-- ===== src/Shard/Integer.antt =====
-- `parse_i64` of crates/seedstone-core/src/shard/apply.rs, which reads the canonical decimal form of
-- an integer of 64 bits.
use seedstone.Base.{
  ◌^◌, ◌==◌, ltb, leb, Bool, true, false, not, ◌||◌, ◌&&◌, ℤ, pos, negate, Bytes, is_utf8,
  all_digits, digits_value, Option, none, some, [], ◌∷◌, length, if◌then◌else◌,
}

-- `str::parse::<i64>` on digits after an optional sign
unfoldable pub i64_of_digits : Bool → Bytes → Option ℤ
i64_of_digits negative digits =
    let n = digits_value 0 digits in
    if negative
    then (if leb n (2 ^ 63) then some (negate n) else none)
    else (if ltb n (2 ^ 63) then some (pos n) else none)

-- The digits are canonical: not `-0`, and no zero before another digit.
unfoldable pub parse_digits : Bool → Bytes → Bytes → Option ℤ
unfolding i64_of_digits
parse_digits negative [] bytes = none
parse_digits negative (d ∷ digits) bytes =
    if not (all_digits (d ∷ digits))
    then none
    else if (d == b'0') && (ltb 1 (length (d ∷ digits)) || negative)
    then none
    else if is_utf8 bytes
    then i64_of_digits negative (d ∷ digits)
    else none

unfoldable pub parse_i64 : Bytes → Option ℤ
unfolding parse_digits
parse_i64 [] = none
parse_i64 (c ∷ rest) =
    if c == b'-'
    then parse_digits true rest (c ∷ rest)
    else parse_digits false (c ∷ rest) (c ∷ rest)
