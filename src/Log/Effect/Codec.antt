-- ===== src/Log/Effect/Codec.antt =====
-- The encoding of effects in log/effect.rs: its length, and that it reads back.
use seedstone.Base.{
  ℕ, zero, suc, ◌+◌, ◌/◌, ◌^◌, ◌<◌, ltb, ◌≡◌, refl, sym, ap, ◌∙◌, arith, false, Bytes, Option, none,
  some, [], ◌∷◌, ◌++◌, length, take, drop, Bool-cases, inl, inr, none≢some, some-inj, length-append,
  append_assoc, append-nil, take-append, drop-append,
}
use seedstone.Log.Effect.{
  Effect, put, del, deadline, flush, rebase, to_le_bytes, from_le_bytes, put_bytes, put_deadline,
  and_then, encode, encoded_len, deadline_len, take_bytes, take_deadline, decode,
}

pub length-to_le_bytes : (width n : ℕ) → length (to_le_bytes width n) ≡ width
unfolding to_le_bytes
length-to_le_bytes zero n = refl
length-to_le_bytes (suc width) n = ap suc (length-to_le_bytes width (n / 256))

pub from-to_four : (n : ℕ) → n < 2 ^ 32 → from_le_bytes (to_le_bytes 4 n) ≡ n
unfolding from_le_bytes to_le_bytes
from-to_four n h = omega arith

pub from-to_eight : (n : ℕ) → n < 2 ^ 64 → from_le_bytes (to_le_bytes 8 n) ≡ n
unfolding from_le_bytes to_le_bytes
from-to_eight n h = omega arith

put_bytes-some :
    (b k : Bytes) → put_bytes b ≡ some k → (length b < 2 ^ 32) × (k ≡ to_le_bytes 4 (length b) ++ b)
unfolding put_bytes
put_bytes-some b k e = elim (Bool-cases (ltb (length b) (2 ^ 32))) [
  | inl fits ↦ (ground arith, sym (some-inj (rw fits at e)))
  | inr large ↦ absurd (none≢some (rw large at e))
]

take_bytes-put_bytes :
    (b k rest : Bytes) → put_bytes b ≡ some k → take_bytes (k ++ rest) ≡ some (b, rest)
unfolding take_bytes
take_bytes-put_bytes b k rest e =
    let (small, same) = put_bytes-some b k e in
    let head = to_le_bytes 4 (length b) in
    let whole : k ++ rest ≡ head ++ (b ++ rest) =
      ap (λ l. l ++ rest) same ∙ append_assoc head b rest in
    let four = length-to_le_bytes 4 (length b) in
    let long : ltb (length (head ++ (b ++ rest))) 4 ≡ false =
      ground (arith, length-append head (b ++ rest), four) in
    let taken : take 4 (head ++ (b ++ rest)) ≡ head =
      ap (λ n. take n (head ++ (b ++ rest))) (sym four) ∙ take-append head (b ++ rest) in
    let dropped : drop 4 (head ++ (b ++ rest)) ≡ b ++ rest =
      ap (λ n. drop n (head ++ (b ++ rest))) (sym four) ∙ drop-append head (b ++ rest) in
    let fits : ltb (length (b ++ rest)) (length b) ≡ false = ground (arith, length-append b rest) in
    rw
      (
        whole,
        take_bytes,
        long,
        taken,
        dropped,
        from-to_four (length b) small,
        fits,
        take-append b rest,
        drop-append b rest,
      )
      refl

-- A deadline that the codec can write.
abbrev pub InRange : Option ℕ → Type 0
InRange none = Unit {0}
InRange (some millis) = millis < 2 ^ 64

take_deadline-some :
    (bytes rest : Bytes) (millis : ℕ)
    → length bytes ≡ 8
    → from_le_bytes bytes ≡ millis
    → take_deadline (1 ∷ (bytes ++ rest)) ≡ some (some millis, rest)
unfolding take_deadline
take_deadline-some bytes rest millis eight value =
    let long : ltb (length (bytes ++ rest)) 8 ≡ false =
      ground (arith, length-append bytes rest, eight) in
    let taken : take 8 (bytes ++ rest) ≡ bytes =
      ap (λ n. take n (bytes ++ rest)) (sym eight) ∙ take-append bytes rest in
    let dropped : drop 8 (bytes ++ rest) ≡ rest =
      ap (λ n. drop n (bytes ++ rest)) (sym eight) ∙ drop-append bytes rest in
    rw (long, taken, dropped, value) refl

take_deadline-put_deadline :
    (due : Option ℕ) (rest : Bytes)
    → InRange due
    → take_deadline (put_deadline due ++ rest) ≡ some (due, rest)
unfolding take_deadline put_deadline
take_deadline-put_deadline none rest h = refl
take_deadline-put_deadline (some millis) rest h =
    take_deadline-some (to_le_bytes 8 millis) rest millis (length-to_le_bytes 8 millis)
      (from-to_eight millis h)

abbrev pub DeadlineInRange : Effect → Type 0
DeadlineInRange (put key value due) = InRange due
DeadlineInRange (del key) = Unit {0}
DeadlineInRange (deadline key due) = InRange due
DeadlineInRange flush = Unit {0}
DeadlineInRange rebase = Unit {0}

and_then-some :
    (o : Option Bytes) (f : Bytes → Option Bytes) (payload : Bytes)
    → and_then o f ≡ some payload
    → (k : Bytes) × (o ≡ some k) × (f k ≡ some payload)
and_then-some none f payload e = absurd (none≢some e)
and_then-some (some k) f payload e = (k, refl, e)

-- The payload that is written for an effect reads back as it, if its deadline has 64 bits.
pub decode-encode :
    (effect : Effect) (payload : Bytes)
    → DeadlineInRange effect
    → encode effect ≡ some payload
    → decode payload ≡ some effect
unfolding encode decode
decode-encode (put key value due) payload h e =
    let (k, key_put, e1) = and_then-some (put_bytes key) _ payload e in
    let (v, value_put, e2) = and_then-some (put_bytes value) _ payload e1 in
    let tail = put_deadline due in
    let same : payload ≡ 1 ∷ (k ++ (v ++ tail)) = sym (some-inj e2) in
    let last : take_deadline tail ≡ some (due, []) =
      ap take_deadline (sym (append-nil tail)) ∙ take_deadline-put_deadline due [] h in
    rw
      (
        same,
        take_bytes-put_bytes key k (v ++ tail) key_put,
        take_bytes-put_bytes value v tail value_put,
        last,
      )
      refl
decode-encode (del key) payload h e =
    let (k, key_put, e1) = and_then-some (put_bytes key) _ payload e in
    let same : payload ≡ 2 ∷ k = sym (some-inj e1) in
    let taken : take_bytes k ≡ some (key, []) =
      ap take_bytes (sym (append-nil k)) ∙ take_bytes-put_bytes key k [] key_put in
    rw (same, taken) refl
decode-encode (deadline key due) payload h e =
    let (k, key_put, e1) = and_then-some (put_bytes key) _ payload e in
    let tail = put_deadline due in
    let same : payload ≡ 3 ∷ (k ++ tail) = sym (some-inj e1) in
    let last : take_deadline tail ≡ some (due, []) =
      ap take_deadline (sym (append-nil tail)) ∙ take_deadline-put_deadline due [] h in
    rw (same, take_bytes-put_bytes key k tail key_put, last) refl
decode-encode flush payload h e = rw (sym (some-inj e)) refl
decode-encode rebase payload h e = rw (sym (some-inj e)) refl

length-put_bytes : (b k : Bytes) → put_bytes b ≡ some k → length k ≡ 4 + length b
length-put_bytes b k e =
    let (small, same) = put_bytes-some b k e in
    let head = to_le_bytes 4 (length b) in
    omega (arith, ap length same, length-append head b, length-to_le_bytes 4 (length b))

length-put_deadline : (due : Option ℕ) → length (put_deadline due) ≡ deadline_len due
unfolding put_deadline
length-put_deadline none = refl
length-put_deadline (some millis) = omega (arith, length-to_le_bytes 8 millis)

-- An effect is written in as many bytes as `encoded_len` says.
pub length-encode :
    (effect : Effect) (payload : Bytes)
    → encode effect ≡ some payload
    → length payload ≡ encoded_len effect
unfolding encode
length-encode (put key value due) payload e =
    let (k, key_put, e1) = and_then-some (put_bytes key) _ payload e in
    let (v, value_put, e2) = and_then-some (put_bytes value) _ payload e1 in
    omega (
      arith,
      ap length (some-inj e2),
      length-append k (v ++ put_deadline due),
      length-append v (put_deadline due),
      length-put_bytes key k key_put,
      length-put_bytes value v value_put,
      length-put_deadline due,
    )
length-encode (del key) payload e =
    let (k, key_put, e1) = and_then-some (put_bytes key) _ payload e in
    omega (arith, ap length (some-inj e1), length-put_bytes key k key_put)
length-encode (deadline key due) payload e =
    let (k, key_put, e1) = and_then-some (put_bytes key) _ payload e in
    omega (
      arith,
      ap length (some-inj e1),
      length-append k (put_deadline due),
      length-put_bytes key k key_put,
      length-put_deadline due,
    )
length-encode flush payload e = omega (arith, ap length (some-inj e))
length-encode rebase payload e = omega (arith, ap length (some-inj e))
