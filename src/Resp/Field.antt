-- ===== src/Resp/Field.antt =====
-- The refusals of crates/seedstone-resp/src/lib.rs, and `parse_i64`, the reader of length and integer
-- fields. A message is a constructor with the values that it shows.
use seedstone.Base.{
  ℕ, ◌^◌, ◌==◌, ltb, leb, Bool, true, false, not, ◌||◌, ℤ, pos, negate, Result, ok, err, Bytes,
  is_utf8, all_digits, digits_value, Option, none, some, [], ◌∷◌, length, if◌then◌else◌,
}

pub data ParseError : Type 0 where
  empty_integer : ParseError
  invalid_integer : Bytes → ParseError
  integer_not_utf8 : ParseError
  integer_out_of_range : Bytes → ParseError
  frame_too_large : ℕ → ParseError
  unknown_type_byte : ℕ → ParseError
  simple_not_utf8 : ParseError
  error_not_utf8 : ParseError
  negative_bulk : ℤ → ParseError
  bulk_too_long : ℤ → ParseError
  negative_array : ℤ → ParseError
  too_deep : ParseError
  array_too_long : ℤ → ParseError
  array_too_large : ℕ → ℕ → ParseError
  bulk_overflow : ParseError
  missing_terminator : ParseError
  memory_exceeded : ℕ → ParseError

-- `str::parse::<i64>` of a field of digits after an optional minus sign
unfoldable pub i64_of : Bool → Bytes → Option ℤ
i64_of negative digits =
    let n = digits_value 0 digits in
    if negative
    then (if leb n (2 ^ 63) then some (negate n) else none)
    else (if ltb n (2 ^ 63) then some (pos n) else none)

unfoldable pub parse_signed : Bool → Bytes → Bytes → Result ℤ ParseError
unfolding i64_of
parse_signed negative digits field =
    if length digits == 0 || not (all_digits digits)
    then err (invalid_integer field)
    else if not (is_utf8 field)
    then err integer_not_utf8
    else elim (i64_of negative digits) [ none ↦ err (integer_out_of_range field) | some i ↦ ok i ]

unfoldable pub parse_i64 : Bytes → Result ℤ ParseError
unfolding parse_signed
parse_i64 [] = err empty_integer
parse_i64 (c ∷ rest) =
    if c == b'-'
    then parse_signed true rest (c ∷ rest)
    else parse_signed false (c ∷ rest) (c ∷ rest)
