-- ===== src/Log/Framing/Torn.antt =====
-- A record of which only the first bytes have reached the log.
use seedstone.Base.{
  ℕ, zero, suc, ◌+◌, ◌^◌, ◌≤◌, ◌<◌, ltb, ◌≡◌, refl, sym, ap, ◌∙◌, arith, true, false, Bytes, some,
  [], ◌∷◌, ◌++◌, ◌||◌, length, take, Bool-cases, inl, inr, length-append, lt→ltb, some-inj,
}
use seedstone.Log.Effect.{to_le_bytes, from_le_bytes}
use seedstone.Log.Effect.Codec.{length-to_le_bytes, from-to_four}
use seedstone.Log.Crc.{crc32_iso_hdlc}
use seedstone.Log.Framing.{
  need_more, magic, header_len, body_fixed_len, max_body_len, body_of, encode_record, decode_header,
  decode_record,
}
use seedstone.Log.Framing.RoundTrip.{IsFramable, frame, take_on, length-body_of}
use seedstone.Shard.State.{LogRecord}

pub length-take : (n : ℕ) (l : Bytes) → n ≤ length l → length (take n l) ≡ n
length-take zero l h = refl
length-take (suc n) [] h = absurd (omega arith)
length-take (suc n) (x ∷ l) h = ap suc (length-take n l (omega arith))

pub take-take : (m n : ℕ) (l : Bytes) → m ≤ n → take m (take n l) ≡ take m l
take-take zero n l h = refl
take-take (suc m) zero l h = absurd (omega arith)
take-take (suc m) (suc n) [] h = refl
take-take (suc m) (suc n) (x ∷ l) h = ap (λ r. x ∷ r) (take-take m n l (omega arith))

length-frame : (rec : LogRecord) → length (frame rec) ≡ 8 + (body_fixed_len + length rec.payload)
length-frame rec =
    let size = to_le_bytes 4 (body_fixed_len + length rec.payload) in
    let crc = to_le_bytes 4 (crc32_iso_hdlc (body_of rec)) in
    omega (
      arith,
      length-to_le_bytes 4 (body_fixed_len + length rec.payload),
      length-to_le_bytes 4 (crc32_iso_hdlc (body_of rec)),
      length-append size (crc ++ body_of rec),
      length-append crc (body_of rec),
      length-body_of rec,
    )

torn_header :
    (rec : LogRecord) (m : ℕ)
    → IsFramable rec
    → m < length (frame rec)
    → decode_header (magic ∷ take m (frame rec)) ≡ need_more
unfolding decode_header
torn_header rec m fits short =
    let body_len = body_fixed_len + length rec.payload in
    let size = to_le_bytes 4 body_len in
    let rest = to_le_bytes 4 (crc32_iso_hdlc (body_of rec)) ++ body_of rec in
    let arrived = length-take m (frame rec) (omega arith) in
    elim (Bool-cases (ltb (suc m) header_len)) [
      | inl headless ↦ rw (arrived, headless) refl
      | inr headed ↦
          let four : 4 ≤ m = ground arith in
          let declared : from_le_bytes (take 4 (take m (frame rec))) ≡ body_len =
            ap from_le_bytes (take-take 4 m (frame rec) four)
            ∙ ap from_le_bytes (take_on 4 size rest (length-to_le_bytes 4 body_len))
            ∙ from-to_four body_len (omega (arith, fits.payload)) in
          let plausible : (ltb body_len body_fixed_len || ltb max_body_len body_len) ≡ false =
            ground (arith, fits.payload) in
          let partly : ltb (suc m) (header_len + body_len) ≡ true =
            lt→ltb (suc m) (header_len + body_len) (omega (arith, length-frame rec)) in
          rw (declared, arrived, headed, plausible, partly) refl
    ]

encode_record-frame :
    (rec : LogRecord) (bytes : Bytes)
    → IsFramable rec
    → encode_record rec ≡ some bytes
    → magic ∷ frame rec ≡ bytes
unfolding encode_record
encode_record-frame rec bytes fits written =
    let body_len = body_fixed_len + length rec.payload in
    let small : ltb body_len (2 ^ 32) ≡ true =
      lt→ltb body_len (2 ^ 32) (omega (arith, fits.payload)) in
    some-inj (rw small at written)

torn_frame :
    (rec : LogRecord) (n : ℕ)
    → IsFramable rec
    → n < suc (length (frame rec))
    → decode_record (take n (magic ∷ frame rec)) ≡ need_more
unfolding decode_record
torn_frame rec zero fits short = refl
torn_frame rec (suc m) fits short = torn_header rec m fits (omega arith)

-- Of the frame of a record with fields in range, a part that stops before its end, an empty one
-- included, decodes to the answer that more bytes are needed: never to a record or to damage.
pub decode_record_torn :
    (rec : LogRecord) (bytes : Bytes) (n : ℕ)
    → IsFramable rec
    → encode_record rec ≡ some bytes
    → n < length bytes
    → decode_record (take n bytes) ≡ need_more
decode_record_torn rec bytes n fits written short =
    let same = encode_record-frame rec bytes fits written in
    ap (λ l. decode_record (take n l)) (sym same)
    ∙ torn_frame rec n fits (omega (arith, short, ap length same))
