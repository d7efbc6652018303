-- ===== src/Resp/Delivery.antt =====
-- The elements that `read_element` of lib.rs returns keep the ceilings.
use seedstone.Base.{
  ℕ, zero, suc, ◌+◌, ◌-◌, ◌^◌, ◌==◌, ◌≤◌, ◌<◌, ltb, leb, ◌≡◌, refl, none, some, ℤ, Bool, true,
  false, not, is_utf8, bytes_eq, Bytes, [], ◌∷◌, length, take, drop, arith, ok, err, Option-cases,
  Bool-cases, inl, inr, subst, all_digits, digits_value, negate, some-inj, leb→le, ltb→lt, err≢ok,
  none≢some, ok-inj, ◌||◌,
}
use seedstone.Resp.{crlf}
use seedstone.Resp.Field.{parse_i64, parse_signed, i64_of}
use seedstone.Resp.Decoder.{
  Decoding, Partial, start, scanned_line, bulk_body, Element, value, array_header, max_array_len,
  max_array_depth, max_bulk_len, finish_bulk, as_value, slice,
}
use seedstone.Resp.Reader.{Read}
use seedstone.Resp.Sendable.{Sendable, inner}
use seedstone.Resp.Number.{InRange}
use seedstone.Resp.Resume.{Resumes, start-Resumes}

abbrev pub IsShort : Partial → Type 0
IsShort start = Unit {0}
IsShort (scanned_line scanned) = Unit {0}
IsShort (bulk_body header len) = len ≤ max_bulk_len

-- The position inside an element is one that a read can go on from.
abbrev pub CanResume : Bytes → Decoding → Type 0
CanResume buf s = IsShort s.partial × Resumes buf s

abbrev pub Keeps : Decoding → Decoding → Type 0
Keeps s s' = (s'.stack ≡ s.stack) × (s'.in_memory ≡ s.in_memory)

-- What `read_element` may return.
abbrev pub ElementIsSound : ℕ → Decoding → Element → Type 0
ElementIsSound unit s (value f) = Sendable (length s.stack) f × (inner unit f ≡ 0)
ElementIsSound unit s (array_header count) =
    (count ≤ max_array_len) × (length s.stack < max_array_depth)

abbrev pub ReadIsSound : ℕ → Bytes → Decoding → Read → Type 0
ReadIsSound unit buf s (ok none, s') = Keeps s s' × CanResume buf s'
ReadIsSound unit buf s (ok (some element), s') =
    ElementIsSound unit s element × Keeps s s' × CanResume buf s'
ReadIsSound unit buf s (err e, s') = Unit {0}

length-take_le : (n : ℕ) (l : Bytes) → length (take n l) ≤ n
length-take_le zero l = omega arith
length-take_le (suc n) [] = omega arith
length-take_le (suc n) (x ∷ l) = omega (arith, length-take_le n l)

negate-InRange : (n : ℕ) → n ≤ 2 ^ 63 → InRange (negate n)
negate-InRange zero h = omega arith
negate-InRange (suc n) h = omega arith

i64_of-InRange :
    (negative : Bool) (digits : Bytes) (i : ℤ) → i64_of negative digits ≡ some i → InRange i
unfolding i64_of
i64_of-InRange true digits i h =
    let n = digits_value 0 digits in
    elim (Bool-cases (leb n (2 ^ 63))) [
      | inl fits ↦
          subst InRange (some-inj (rw fits at h)) (negate-InRange n (leb→le n (2 ^ 63) fits))
      | inr large ↦ absurd (none≢some (rw large at h))
    ]
i64_of-InRange false digits i h =
    let n = digits_value 0 digits in
    elim (Bool-cases (ltb n (2 ^ 63))) [
      | inl fits ↦ subst InRange (some-inj (rw fits at h)) (ltb→lt n (2 ^ 63) fits)
      | inr large ↦ absurd (none≢some (rw large at h))
    ]

parse_signed-InRange :
    (negative : Bool) (digits field : Bytes) (i : ℤ)
    → parse_signed negative digits field ≡ ok i
    → InRange i
unfolding parse_signed
parse_signed-InRange negative digits field i h =
    elim (Bool-cases (length digits == 0 || not (all_digits digits))) [
      | inl invalid ↦ absurd (err≢ok (rw invalid at h))
      | inr valid ↦ elim (Bool-cases (not (is_utf8 field))) [
        | inl broken ↦ absurd (err≢ok (rw (valid, broken) at h))
        | inr text ↦ elim (Option-cases (i64_of negative digits)) [
          | inl e ↦ absurd (err≢ok (rw (valid, text, e) at h))
          | inr (j, e) ↦
              subst InRange (ok-inj (rw (valid, text, e) at h)) (i64_of-InRange negative digits j e)
        ]
      ]
    ]

pub parse_i64-InRange : (field : Bytes) (i : ℤ) → parse_i64 field ≡ ok i → InRange i
unfolding parse_i64
parse_i64-InRange [] i h = absurd (err≢ok h)
parse_i64-InRange (c ∷ rest) i h = elim (Bool-cases (c == 45)) [
  | inl minus ↦ parse_signed-InRange true rest (c ∷ rest) i (rw minus at h)
  | inr digit ↦ parse_signed-InRange false (c ∷ rest) (c ∷ rest) i (rw digit at h)
]

pub finish_bulk-IsSound :
    (unit : ℕ) (buf : Bytes) (header len : ℕ) (s : Decoding)
    → len ≤ max_bulk_len
    → CanResume buf s
    → ReadIsSound unit buf s (as_value (finish_bulk buf header len s))
unfolding finish_bulk Sendable inner
finish_bulk-IsSound unit buf header len s h resume =
    let end = s.scan + (header + len + 2) in
    let from = s.scan + header in
    elim (Bool-cases (leb (2 ^ 64) end)) [
      | inl large ↦ rw (finish_bulk, large) tt
      | inr fits ↦ elim (Bool-cases (ltb (length buf) end)) [
        | inl early ↦ rw (finish_bulk, fits, early) ((refl, refl), resume)
        | inr whole ↦ elim (Bool-cases (not (bytes_eq (slice buf (from + len) end) crlf))) [
          | inl broken ↦ rw (finish_bulk, fits, whole, broken) tt
          | inr closed ↦
              rw (finish_bulk, fits, whole, closed)
                (
                  (omega (arith, length-take_le (from + len - from) (drop from buf)), refl),
                  (refl, refl),
                  (tt, start-Resumes buf (record s { scan = end; partial = start }) refl),
                )
        ]
      ]
    ]
