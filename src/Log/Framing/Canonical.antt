-- ===== src/Log/Framing/Canonical.antt =====
-- The decoder of records accepts only what the encoder writes.
use seedstone.Base.{
  ℕ, zero, suc, ◌+◌, ◌^◌, ◌==◌, ◌≤◌, ltb, ◌≡◌, ◌≢◌, refl, sym, ap, ◌∙◌, subst, arith, true, Bytes,
  some, [], ◌∷◌, ◌++◌, ◌||◌, length, take, drop, Bool-cases, inl, inr, lt→ltb, ==_iff, drop-drop,
  length-drop,
}
use seedstone.Log.Effect.{to_le_bytes, from_le_bytes}
use seedstone.Log.Effect.Canonical.{AreBytes, to-from}
use seedstone.Log.Crc.{crc32_iso_hdlc}
use seedstone.Log.Framing.{
  intact, end_of_log, need_more, corrupt, magic, end_of_log_byte, header_len, body_fixed_len,
  max_body_len, body_of, encode_record, decode_body, decode_header, decode_record,
}
use seedstone.Log.Framing.RoundTrip.{frame}
use seedstone.Log.Framing.Torn.{length-take}
use seedstone.Shard.State.{LogRecord}

need_more≢intact : {rec : LogRecord} {n : ℕ} → need_more ≢ intact rec n
need_more≢intact h = cc

end_of_log≢intact : {rec : LogRecord} {n : ℕ} → end_of_log ≢ intact rec n
end_of_log≢intact h = cc

corrupt≢intact : {rec : LogRecord} {n skip : ℕ} → corrupt skip ≢ intact rec n
corrupt≢intact h = cc

pub take-AreBytes : (n : ℕ) (l : Bytes) → AreBytes l → AreBytes (take n l)
take-AreBytes zero l h = tt
take-AreBytes (suc n) [] h = tt
take-AreBytes (suc n) (b ∷ l) (p, h) = (p, take-AreBytes n l h)

pub drop-AreBytes : (n : ℕ) (l : Bytes) → AreBytes l → AreBytes (drop n l)
drop-AreBytes zero l h = h
drop-AreBytes (suc n) [] h = tt
drop-AreBytes (suc n) (b ∷ l) (p, h) = drop-AreBytes n l h

-- What `take` leaves is what `drop` gives.
pub take-drop : (n : ℕ) (l : Bytes) → take n l ++ drop n l ≡ l
take-drop zero l = refl
take-drop (suc n) [] = refl
take-drop (suc n) (x ∷ l) = ap (λ r. x ∷ r) (take-drop n l)

-- A piece of as many bytes is the little-endian form of its value.
piece :
    (n : ℕ) (l : Bytes)
    → AreBytes l
    → n ≤ length l
    → to_le_bytes n (from_le_bytes (take n l)) ≡ take n l
piece n l h long =
    ap (λ w. to_le_bytes w (from_le_bytes (take n l))) (sym (length-take n l long))
    ∙ to-from (take n l) (take-AreBytes n l h)

take_none : (n : ℕ) → ◌≡◌ {A = Bytes} (take n []) []
take_none zero = refl
take_none (suc n) = refl

take_sum : (m n : ℕ) (l : Bytes) → take (m + n) l ≡ take m l ++ take n (drop m l)
take_sum zero n l = let all : 0 + n ≡ n = omega arith in rw all refl
take_sum (suc m) n [] =
    let next : suc m + n ≡ suc (m + n) = omega arith in rw next (sym (take_none n))
take_sum (suc m) n (x ∷ l) =
    let next : suc m + n ≡ suc (m + n) = omega arith in rw next (ap (λ r. x ∷ r) (take_sum m n l))

parts_of_body :
    (rec : LogRecord)
    → body_of rec ≡ to_le_bytes 2 rec.shard ++ (to_le_bytes 8 rec.seq ++ rec.payload)
unfolding body_of
parts_of_body rec = refl

-- the record that a body holds
abbrev read : Bytes → LogRecord
read body = record {
  shard = from_le_bytes (take 2 body);
  seq = from_le_bytes (take 8 (drop 2 body));
  payload = drop body_fixed_len body;
}

body_of-read : (body : Bytes) → AreBytes body → 10 ≤ length body → body_of (read body) ≡ body
body_of-read body h long =
    let left = length-drop 2 body in
    let shard = piece 2 body h (omega arith) in
    let seq = piece 8 (drop 2 body) (drop-AreBytes 2 body h) (omega arith) in
    parts_of_body (read body)
    ∙ ap (λ l. l ++ (to_le_bytes 8 (from_le_bytes (take 8 (drop 2 body))) ++ drop 10 body)) shard
    ∙ ap (λ l. take 2 body ++ (l ++ drop 10 body)) seq
    ∙ ap (λ l. take 2 body ++ (take 8 (drop 2 body) ++ l)) (sym (drop-drop 8 2 body))
    ∙ ap (λ l. take 2 body ++ l) (take-drop 8 (drop 2 body))
    ∙ take-drop 2 body

intact-inj :
    {rec rec' : LogRecord} {n n' : ℕ} → intact rec n ≡ intact rec' n' → (rec ≡ rec') × (n ≡ n')
intact-inj h = (cc, cc)

encode_record-parts :
    (rec : LogRecord)
    → ltb (body_fixed_len + length rec.payload) (2 ^ 32) ≡ true
    → encode_record rec ≡ some (magic ∷ frame rec)
unfolding encode_record
encode_record-parts rec small = rw small refl

-- A body that agrees with the checksum in front of it, in a buffer that holds it.
encode_record-read :
    (rest : Bytes) (body_len : ℕ)
    → AreBytes rest
    → from_le_bytes (take 4 rest) ≡ body_len
    → body_fixed_len ≤ body_len
    → body_len ≤ max_body_len
    → 8 + body_len ≤ length rest
    → crc32_iso_hdlc (take body_len (drop 8 rest)) ≡ from_le_bytes (take 4 (drop 4 rest))
    → encode_record (read (take body_len (drop 8 rest))) ≡ some (magic ∷ take (8 + body_len) rest)
encode_record-read rest body_len h declared low high long sum =
    let body = take body_len (drop 8 rest) in
    let after = length-drop 8 rest in
    let held = length-take body_len (drop 8 rest) (omega arith) in
    let ten = length-drop 10 body in
    let size : body_fixed_len + length (drop 10 body) ≡ body_len = omega arith in
    let small : ltb (body_fixed_len + length (drop 10 body)) (2 ^ 32) ≡ true =
      lt→ltb (body_fixed_len + length (drop 10 body)) (2 ^ 32) (omega arith) in
    let bytes = take-AreBytes body_len (drop 8 rest) (drop-AreBytes 8 rest h) in
    let same = body_of-read body bytes (omega arith) in
    let size_bytes : to_le_bytes 4 body_len ≡ take 4 rest =
      ap (to_le_bytes 4) (sym declared) ∙ piece 4 rest h (omega arith) in
    let four_on = length-drop 4 rest in
    let crc_bytes : to_le_bytes 4 (from_le_bytes (take 4 (drop 4 rest))) ≡ take 4 (drop 4 rest) =
      piece 4 (drop 4 rest) (drop-AreBytes 4 rest h) (omega arith) in
    let whole : take (8 + body_len) rest ≡ take 4 rest ++ (take 4 (drop 4 rest) ++ body) =
      let sum : 8 + body_len ≡ 4 + (4 + body_len) = omega arith in
      ap (λ n. take n rest) sum
      ∙ take_sum 4 (4 + body_len) rest
      ∙ ap (λ l. take 4 rest ++ l)
          (take_sum 4 body_len (drop 4 rest)
            ∙ ap (λ l. take 4 (drop 4 rest) ++ take body_len l) (drop-drop 4 4 rest)) in
    encode_record-parts (read body) small ∙ rw (size, same, sum, size_bytes, crc_bytes, whole) refl

header_canonical :
    (b : ℕ) (rest : Bytes) (rec : LogRecord) (n : ℕ)
    → AreBytes rest
    → decode_header (b ∷ rest) ≡ intact rec n
    → (n ≤ suc (length rest)) × (encode_record rec ≡ some (take n (magic ∷ rest)))
unfolding decode_header decode_body
header_canonical b rest rec n h e =
    let body_len = from_le_bytes (take 4 rest) in
    let body = take body_len (drop 8 rest) in
    elim (Bool-cases (ltb (suc (length rest)) header_len)) [
      | inl headless ↦ absurd (need_more≢intact (rw headless at e))
      | inr headed ↦ elim (Bool-cases (ltb body_len body_fixed_len || ltb max_body_len body_len)) [
        | inl damaged ↦ absurd (corrupt≢intact (rw (headed, damaged) at e))
        | inr plausible ↦ elim (Bool-cases (ltb (suc (length rest)) (header_len + body_len))) [
          | inl partly ↦ absurd (need_more≢intact (rw (headed, plausible, partly) at e))
          | inr arrived ↦
              elim (Bool-cases (crc32_iso_hdlc body == from_le_bytes (take 4 (drop 4 rest)))) [
                | inr differs ↦
                    absurd (corrupt≢intact (rw (headed, plausible, arrived, differs) at e))
                | inl agrees ↦
                    let (is_rec, is_n) =
                      intact-inj (rw (headed, plausible, arrived, agrees) at e) in
                    let sum : crc32_iso_hdlc body ≡ from_le_bytes (take 4 (drop 4 rest)) =
                      (==_iff (crc32_iso_hdlc body) (from_le_bytes (take 4 (drop 4 rest)))).0
                        agrees in
                    let low : body_fixed_len ≤ body_len = ground arith in
                    let high : body_len ≤ max_body_len = ground arith in
                    let long : 8 + body_len ≤ length rest = ground arith in
                    let next : 9 + body_len ≡ suc (8 + body_len) = omega arith in
                    (
                      omega arith,
                      subst (λ r. encode_record r ≡ some (take n (magic ∷ rest))) is_rec
                          (encode_record-read rest body_len h refl low high long sum
                            ∙ ap (λ n. some (take n (magic ∷ rest))) (sym next ∙ is_n)),
                    )
              ]
        ]
      ]
    ]

-- If a buffer of bytes decodes to an intact record that took n bytes, the buffer has n bytes, and
-- the encoder writes exactly those for the record: the decoder accepts nothing else.
pub encode_record-decode_record :
    (buf : Bytes) (rec : LogRecord) (n : ℕ)
    → AreBytes buf
    → decode_record buf ≡ intact rec n
    → (n ≤ length buf) × (encode_record rec ≡ some (take n buf))
unfolding decode_record
encode_record-decode_record [] rec n h e = absurd (need_more≢intact e)
encode_record-decode_record (b ∷ rest) rec n (p, h) e = elim (Bool-cases (b == end_of_log_byte)) [
  | inl ended ↦ absurd (end_of_log≢intact (rw ended at e))
  | inr goes ↦ elim (Bool-cases (b == magic)) [
    | inr other ↦ absurd (corrupt≢intact (rw (goes, other) at e))
    | inl starts ↦
        let first : b ≡ magic = (==_iff b magic).0 starts in
        let header : decode_header (b ∷ rest) ≡ intact rec n = rw (goes, starts) at e in
        let (within, written) = header_canonical b rest rec n h header in
        (within, written ∙ ap (λ c. some (take n (c ∷ rest))) (sym first))
  ]
]
