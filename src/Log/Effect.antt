-- ===== src/Log/Effect.antt =====
-- crates/seedstone-core/src/log/effect.rs: what a record's payload says, and its encoding.
pub mod Codec
pub mod Canonical
use seedstone.Base.{
  ℕ, zero, suc, ◌+◌, ◌*◌, ◌/◌, ◌%◌, ◌^◌, ◌==◌, ltb, Bool, true, false, Bytes, Option, none, some,
  Result, ok, err, List, [], ◌∷◌, ◌++◌, length, take, drop, if◌then◌else◌,
}

-- A deadline is Unix milliseconds, absolute.
pub data Effect : Type 0 where
  put : Bytes → Bytes → Option ℕ → Effect
  del : Bytes → Effect
  deadline : Bytes → Option ℕ → Effect
  flush : Effect
  rebase : Effect

-- `to_le_bytes` of an integer of so many bytes
unfoldable pub to_le_bytes : ℕ → ℕ → Bytes
to_le_bytes zero n = []
to_le_bytes (suc width) n = (n % 256) ∷ to_le_bytes width (n / 256)

unfoldable pub from_le_bytes : Bytes → ℕ
from_le_bytes [] = 0
from_le_bytes (b ∷ bytes) = b + 256 * from_le_bytes bytes

-- What is appended to `out`, or none where the length is no `u32` and the source panics.
unfoldable pub put_bytes : Bytes → Option Bytes
unfolding to_le_bytes
put_bytes bytes =
    if ltb (length bytes) (2 ^ 32) then some (to_le_bytes 4 (length bytes) ++ bytes) else none

unfoldable pub put_deadline : Option ℕ → Bytes
unfolding to_le_bytes
put_deadline none = 0 ∷ []
put_deadline (some millis) = 1 ∷ to_le_bytes 8 millis

-- `?` on an option
abbrev pub and_then {ℓ κ} : {A : Type ℓ} {B : Type κ} → Option A → (A → Option B) → Option B
and_then none f = none
and_then (some a) f = f a

-- What `encode` appends.
unfoldable pub encode : Effect → Option Bytes
unfolding put_bytes put_deadline
encode (put key value due) =
    and_then (put_bytes key)
      (λ k. and_then (put_bytes value) (λ v. some (1 ∷ (k ++ (v ++ put_deadline due)))))
encode (del key) = and_then (put_bytes key) (λ k. some (2 ∷ k))
encode (deadline key due) = and_then (put_bytes key) (λ k. some (3 ∷ (k ++ put_deadline due)))
encode flush = some (4 ∷ [])
encode rebase = some (5 ∷ [])

abbrev pub deadline_len : Option ℕ → ℕ
deadline_len none = 1
deadline_len (some millis) = 1 + 8

abbrev pub encoded_len : Effect → ℕ
encoded_len (put key value due) = 1 + (4 + length key + 4 + length value + deadline_len due)
encoded_len (del key) = 1 + (4 + length key)
encoded_len (deadline key due) = 1 + (4 + length key + deadline_len due)
encoded_len flush = 1 + 0
encoded_len rebase = 1 + 0

-- What is taken off the cursor, and the cursor after it.
unfoldable pub take_bytes : Bytes → Option (Bytes × Bytes)
unfolding from_le_bytes
take_bytes cursor =
    if ltb (length cursor) 4
    then none
    else let len = from_le_bytes (take 4 cursor) in
      let rest = drop 4 cursor in
      if ltb (length rest) len then none else some (take len rest, drop len rest)

-- `Malformed` is none.
unfoldable pub take_deadline : Bytes → Option (Option ℕ × Bytes)
unfolding from_le_bytes
take_deadline [] = none
take_deadline (flag ∷ rest) =
    if flag == 0
    then some (none, rest)
    else if flag == 1
    then (if ltb (length rest) 8
        then none
        else some (some (from_le_bytes (take 8 rest)), drop 8 rest))
    else none

abbrev pub ended : Effect → Bytes → Option Effect
ended effect [] = some effect
ended effect (b ∷ rest) = none

unfoldable pub decode : Bytes → Option Effect
unfolding take_bytes take_deadline
decode [] = none
decode (tag ∷ rest) =
    if tag == 1
    then and_then (take_bytes rest) (λ k.
      and_then (take_bytes k.1)
        (λ v. and_then (take_deadline v.1) (λ d. ended (put k.0 v.0 d.0) d.1)))
    else if tag == 2
    then and_then (take_bytes rest) (λ k. ended (del k.0) k.1)
    else if tag == 3
    then and_then (take_bytes rest)
        (λ k. and_then (take_deadline k.1) (λ d. ended (deadline k.0 d.0) d.1))
    else if tag == 4
    then ended flush rest
    else if tag == 5
    then ended rebase rest
    else none
