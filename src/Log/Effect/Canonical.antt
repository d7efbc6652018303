-- ===== src/Log/Effect/Canonical.antt =====
-- The decoder of log/effect.rs accepts what the encoder writes and nothing else.
use seedstone.Base.{
  ℕ, zero, suc, ◌+◌, ◌*◌, ◌/◌, ◌%◌, ◌^◌, ◌==◌, ◌≤◌, ◌<◌, ltb, ◌≡◌, refl, sym, ap, ◌∙◌, subst, arith,
  Bytes, Option, none, some, [], ◌∷◌, ◌++◌, length, take, drop, All, Bool-cases, inl, inr,
  none≢some, some-inj, append_assoc, append-nil, lt→ltb,
}
use seedstone.Log.Effect.{
  Effect, put, del, deadline, flush, rebase, to_le_bytes, from_le_bytes, put_bytes, put_deadline,
  and_then, encode, take_bytes, take_deadline, ended, decode,
}

abbrev pub AreBytes : Bytes → Type 0
AreBytes l = All (λ b. b < 256) l

pub to-from : (l : Bytes) → AreBytes l → to_le_bytes (length l) (from_le_bytes l) ≡ l
unfolding to_le_bytes from_le_bytes
to-from [] h = refl
to-from (b ∷ l) (p, h) =
    let low : (b + 256 * from_le_bytes l) % 256 ≡ b = omega arith in
    let high : (b + 256 * from_le_bytes l) / 256 ≡ from_le_bytes l = omega arith in
    rw (low, high, to-from l h) refl

from_four_bound : (l : Bytes) → AreBytes l → length l ≡ 4 → from_le_bytes l < 2 ^ 32
unfolding from_le_bytes
from_four_bound [] h e = absurd (omega arith)
from_four_bound (a ∷ []) h e = absurd (omega arith)
from_four_bound (a ∷ b ∷ []) h e = absurd (omega arith)
from_four_bound (a ∷ b ∷ c ∷ []) h e = absurd (omega arith)
from_four_bound (a ∷ b ∷ c ∷ d ∷ []) h e = omega arith
from_four_bound (a ∷ b ∷ c ∷ d ∷ x ∷ l) h e = absurd (omega arith)

take-drop : (n : ℕ) (l : Bytes) → take n l ++ drop n l ≡ l
take-drop zero l = refl
take-drop (suc n) [] = refl
take-drop (suc n) (x ∷ l) = ap (λ r. x ∷ r) (take-drop n l)

length-take : (n : ℕ) (l : Bytes) → n ≤ length l → length (take n l) ≡ n
length-take zero l h = refl
length-take (suc n) [] h = absurd (omega arith)
length-take (suc n) (x ∷ l) h = ap suc (length-take n l (omega arith))

AreBytes-take : (n : ℕ) (l : Bytes) → AreBytes l → AreBytes (take n l)
AreBytes-take zero l h = tt
AreBytes-take (suc n) [] h = tt
AreBytes-take (suc n) (x ∷ l) (p, h) = (p, AreBytes-take n l h)

AreBytes-drop : (n : ℕ) (l : Bytes) → AreBytes l → AreBytes (drop n l)
AreBytes-drop zero l h = h
AreBytes-drop (suc n) [] h = tt
AreBytes-drop (suc n) (x ∷ l) (p, h) = AreBytes-drop n l h

-- What `take_bytes` takes off is what `put_bytes` writes.
take_bytes-inv :
    (c b r : Bytes)
    → take_bytes c ≡ some (b, r)
    → AreBytes c
    → (k : Bytes) × (put_bytes b ≡ some k) × (c ≡ k ++ r) × AreBytes r
unfolding take_bytes put_bytes
take_bytes-inv c b r e h = elim (Bool-cases (ltb (length c) 4)) [
  | inl short ↦ absurd (none≢some (rw short at e))
  | inr long ↦
      let head = take 4 c in
      let rest = drop 4 c in
      let len = from_le_bytes head in
      elim (Bool-cases (ltb (length rest) len)) [
        | inl cut ↦ absurd (none≢some (rw (long, cut) at e))
        | inr whole ↦
            let pair = some-inj (rw (long, whole) at e) in
            let body : take len rest ≡ b = ap (λ p. p.0) pair in
            let tail : drop len rest ≡ r = ap (λ p. p.1) pair in
            let four : length head ≡ 4 = length-take 4 c (ground arith) in
            let count : length b ≡ len =
              ap length (sym body) ∙ length-take len rest (ground arith) in
            let bytes = AreBytes-take 4 c h in
            let small : length b < 2 ^ 32 = omega (arith, from_four_bound head bytes four) in
            let written : to_le_bytes 4 (length b) ≡ head =
              ap (λ w. to_le_bytes w (length b)) (sym four)
              ∙ ap (to_le_bytes (length head)) count
              ∙ to-from head bytes in
            (
              to_le_bytes 4 (length b) ++ b,
              rw (lt→ltb (length b) (2 ^ 32) small) refl,
              sym (
                  append_assoc (to_le_bytes 4 (length b)) b r
                  ∙ ap (λ l. l ++ (b ++ r)) written
                  ∙ ap (λ l. head ++ (l ++ r)) (sym body)
                  ∙ ap (λ l. head ++ (take len rest ++ l)) (sym tail)
                  ∙ ap (λ l. head ++ l) (take-drop len rest)
                  ∙ take-drop 4 c),
              subst AreBytes tail (AreBytes-drop len rest (AreBytes-drop 4 c h)),
            )
      ]
]

take_deadline-inv :
    (c : Bytes) (due : Option ℕ) (r : Bytes)
    → take_deadline c ≡ some (due, r)
    → AreBytes c
    → c ≡ put_deadline due ++ r
unfolding take_deadline put_deadline
take_deadline-inv [] due r e h = absurd (none≢some e)
take_deadline-inv (flag ∷ c) due r e (p, h) = elim (Bool-cases (flag == 0)) [
  | inl absent ↦
      let pair = some-inj (rw absent at e) in
      let zero_flag : flag ≡ 0 = ground arith in
      rw (zero_flag, sym (ap (λ p. p.0) pair), sym (ap (λ p. p.1) pair)) refl
  | inr other ↦ elim (Bool-cases (flag == 1)) [
    | inr unknown ↦ absurd (none≢some (rw (other, unknown) at e))
    | inl present ↦ elim (Bool-cases (ltb (length c) 8)) [
      | inl short ↦ absurd (none≢some (rw (other, present, short) at e))
      | inr long ↦
          let pair = some-inj (rw (other, present, long) at e) in
          let one : flag ≡ 1 = ground arith in
          let eight : length (take 8 c) ≡ 8 = length-take 8 c (ground arith) in
          let written : to_le_bytes 8 (from_le_bytes (take 8 c)) ≡ take 8 c =
            ap (λ w. to_le_bytes w (from_le_bytes (take 8 c))) (sym eight)
            ∙ to-from (take 8 c) (AreBytes-take 8 c h) in
          let whole : 1 ∷ c ≡ put_deadline (some (from_le_bytes (take 8 c))) ++ drop 8 c =
            ap (λ l. 1 ∷ l) (sym (take-drop 8 c)) ∙ ap (λ l. 1 ∷ (l ++ drop 8 c)) (sym written) in
          ap (λ x. x ∷ c) one ∙ whole ∙ ap (λ p. put_deadline p.0 ++ p.1) pair
    ]
  ]
]

and_then-inv :
    {A : Type 0} (o : Option A) (f : A → Option Effect) (e : Effect)
    → and_then o f ≡ some e
    → (a : A) × (o ≡ some a) × (f a ≡ some e)
and_then-inv none f e h = absurd (none≢some h)
and_then-inv (some a) f e h = (a, refl, h)

ended-inv : (effect e : Effect) (r : Bytes) → ended effect r ≡ some e → (r ≡ []) × (effect ≡ e)
ended-inv effect e [] h = (refl, some-inj h)
ended-inv effect e (b ∷ r) h = absurd (none≢some h)

-- The payload after its tag, by the tag.
put-inv :
    (rest : Bytes) (e : Effect)
    → AreBytes rest
    → and_then (take_bytes rest) (λ k.
      and_then
        (take_bytes k.1)
        (λ v. and_then (take_deadline v.1) (λ d. ended (put k.0 v.0 d.0) d.1)))
      ≡ some e
    → encode e ≡ some (1 ∷ rest)
unfolding encode
put-inv rest e h taken =
    let ((key, r1), t1, e1) = and_then-inv (take_bytes rest) _ e taken in
    let ((value, r2), t2, e2) = and_then-inv (take_bytes r1) _ e e1 in
    let ((due, r3), t3, e3) = and_then-inv (take_deadline r2) _ e e2 in
    let (empty, same) = ended-inv (put key value due) e r3 e3 in
    let (k, key_put, split1, h1) = take_bytes-inv rest key r1 t1 h in
    let (v, value_put, split2, h2) = take_bytes-inv r1 value r2 t2 h1 in
    let last : r2 ≡ put_deadline due =
      take_deadline-inv r2 due r3 t3 h2
      ∙ ap (λ l. put_deadline due ++ l) empty
      ∙ append-nil (put_deadline due) in
    rw (sym same, encode, key_put, value_put, split1, split2, last) refl

del-inv :
    (rest : Bytes) (e : Effect)
    → AreBytes rest
    → and_then (take_bytes rest) (λ k. ended (del k.0) k.1) ≡ some e
    → encode e ≡ some (2 ∷ rest)
unfolding encode
del-inv rest e h taken =
    let ((key, r1), t1, e1) = and_then-inv (take_bytes rest) _ e taken in
    let (empty, same) = ended-inv (del key) e r1 e1 in
    let (k, key_put, split1, h1) = take_bytes-inv rest key r1 t1 h in
    let whole : rest ≡ k = split1 ∙ ap (λ l. k ++ l) empty ∙ append-nil k in
    rw (sym same, encode, key_put, whole) refl

deadline-inv :
    (rest : Bytes) (e : Effect)
    → AreBytes rest
    → and_then
        (take_bytes rest)
        (λ k. and_then (take_deadline k.1) (λ d. ended (deadline k.0 d.0) d.1))
      ≡ some e
    → encode e ≡ some (3 ∷ rest)
unfolding encode
deadline-inv rest e h taken =
    let ((key, r1), t1, e1) = and_then-inv (take_bytes rest) _ e taken in
    let ((due, r2), t2, e2) = and_then-inv (take_deadline r1) _ e e1 in
    let (empty, same) = ended-inv (deadline key due) e r2 e2 in
    let (k, key_put, split1, h1) = take_bytes-inv rest key r1 t1 h in
    let last : r1 ≡ put_deadline due =
      take_deadline-inv r1 due r2 t2 h1
      ∙ ap (λ l. put_deadline due ++ l) empty
      ∙ append-nil (put_deadline due) in
    rw (sym same, encode, key_put, split1, last) refl

-- A payload of bytes that is decoded is the one that is written for the effect.
pub encode-decode :
    (payload : Bytes) (effect : Effect)
    → AreBytes payload
    → decode payload ≡ some effect
    → encode effect ≡ some payload
unfolding decode encode
encode-decode [] effect h e = absurd (none≢some e)
encode-decode (tag ∷ rest) effect (p, h) e = elim (Bool-cases (tag == 1)) [
  | inl one ↦
      let same : tag ≡ 1 = ground arith in
      put-inv rest effect h (rw one at e) ∙ ap (λ t. some (t ∷ rest)) (sym same)
  | inr not_one ↦ elim (Bool-cases (tag == 2)) [
    | inl two ↦
        let same : tag ≡ 2 = ground arith in
        del-inv rest effect h (rw (not_one, two) at e) ∙ ap (λ t. some (t ∷ rest)) (sym same)
    | inr not_two ↦ elim (Bool-cases (tag == 3)) [
      | inl three ↦
          let same : tag ≡ 3 = ground arith in
          deadline-inv rest effect h (rw (not_one, not_two, three) at e)
          ∙ ap (λ t. some (t ∷ rest)) (sym same)
      | inr not_three ↦ elim (Bool-cases (tag == 4)) [
        | inl four ↦
            let same : tag ≡ 4 = ground arith in
            let (empty, is_flush) =
              ended-inv flush effect rest (rw (not_one, not_two, not_three, four) at e) in
            rw (sym is_flush, same, empty) refl
        | inr not_four ↦ elim (Bool-cases (tag == 5)) [
          | inl five ↦
              let same : tag ≡ 5 = ground arith in
              let (empty, is_rebase) =
                ended-inv rebase effect rest
                  (rw (not_one, not_two, not_three, not_four, five) at e) in
              rw (sym is_rebase, same, empty) refl
          | inr unknown ↦
              absurd (none≢some (rw (not_one, not_two, not_three, not_four, unknown) at e))
        ]
      ]
    ]
  ]
]
