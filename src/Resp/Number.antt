-- ===== src/Resp/Number.antt =====
-- `parse_i64` of lib.rs on the digits that the encoder writes.
use seedstone.Base.{
  ℕ, suc, ◌^◌, ◌==◌, ◌≤◌, ◌<◌, ◌≡◌, refl, Bool, true, false, Bytes, some, [], ◌∷◌, length, All,
  arith, ℤ, pos, negsuc, ok, IsDigit, all_digits-true, is_utf8, is_utf8-ascii, digits_value-decimal,
  decimal, decimal-All, decimal_pos, lt→ltb, le→leb,
}
use seedstone.Resp.Line.{IsLine}
use seedstone.Resp.{signed}
use seedstone.Resp.Field.{i64_of, parse_signed, parse_i64}

-- The integers that an `i64` holds.
abbrev pub InRange : ℤ → Type 0
InRange (pos n) = n < 2 ^ 63
InRange (negsuc n) = n < 2 ^ 63

digits-ascii : (l : Bytes) → All IsDigit l → All (λ c. c < 0x80) l
digits-ascii [] h = tt
digits-ascii (c ∷ l) (p, h) = (omega arith, digits-ascii l h)

-- Digits are read as the number that they stand for, if an `i64` holds it.
parse_signed-digits :
    (negative : Bool) (digits field : Bytes) (i : ℤ)
    → 1 ≤ length digits
    → All IsDigit digits
    → is_utf8 field ≡ true
    → i64_of negative digits ≡ some i
    → parse_signed negative digits field ≡ ok i
unfolding parse_signed
parse_signed-digits negative digits field i some_digit h u e =
    let test : (length digits == 0) ≡ false = ground arith in
    rw (test, all_digits-true digits h, u, e) refl

parse_digits :
    (l : Bytes) (i : ℤ)
    → 1 ≤ length l
    → All IsDigit l
    → i64_of false l ≡ some i
    → parse_i64 l ≡ ok i
unfolding parse_i64
parse_digits [] i some_digit h e = absurd (omega arith)
parse_digits (c ∷ l) i some_digit (p, h) e =
    let test : (c == 45) ≡ false = ground arith in
    rw test (
      parse_signed-digits false (c ∷ l) (c ∷ l) i some_digit (p, h)
        (is_utf8-ascii (c ∷ l) (digits-ascii (c ∷ l) (p, h))) e)

-- The decimal form of an integer of 64 bits is read back as that integer, the most negative one
-- included.
pub parse_i64-signed : (i : ℤ) → InRange i → parse_i64 (signed i) ≡ ok i
unfolding signed parse_i64 i64_of
parse_i64-signed (pos n) h =
    parse_digits (decimal n) (pos n) (decimal_pos n) (decimal-All n)
      (rw (digits_value-decimal n, lt→ltb n (2 ^ 63) h) refl)
parse_i64-signed (negsuc n) h =
    let bound : suc n ≤ 2 ^ 63 = omega arith in
    parse_signed-digits true (decimal (suc n)) (signed (negsuc n)) (negsuc n) (decimal_pos (suc n))
      (decimal-All (suc n))
      (is_utf8-ascii (signed (negsuc n))
        (omega arith, digits-ascii (decimal (suc n)) (decimal-All (suc n))))
      (rw (digits_value-decimal (suc n), le→leb (suc n) (2 ^ 63) bound) refl)

digits-IsLine : (l : Bytes) → All IsDigit l → IsLine l
digits-IsLine [] h = tt
digits-IsLine (a ∷ []) h = tt
digits-IsLine (a ∷ b ∷ l) (p, h) = (λ e. ground arith, digits-IsLine (b ∷ l) h)

minus-IsLine : (l : Bytes) → IsLine l → IsLine (45 ∷ l)
minus-IsLine [] h = tt
minus-IsLine (a ∷ l) h = (λ e. ground arith, h)

-- What the encoder writes for a number stands on a line.
pub decimal-IsLine : (n : ℕ) → IsLine (decimal n)
decimal-IsLine n = digits-IsLine (decimal n) (decimal-All n)

pub signed-IsLine : (i : ℤ) → IsLine (signed i)
unfolding signed
signed-IsLine (pos n) = decimal-IsLine n
signed-IsLine (negsuc n) = minus-IsLine (decimal (suc n)) (decimal-IsLine (suc n))
