-- ===== src/Log/Framing/RoundTrip.antt =====
-- What the encoder of a record writes, and what the decoder reads.
use seedstone.Base.{
  ℕ, suc, ◌+◌, ◌^◌, ◌≤◌, ◌<◌, ltb, ◌≡◌, refl, sym, ap, ◌∙◌, arith, true, false, Bytes, some, ◌∷◌,
  ◌++◌, ◌||◌, length, take, drop, length-append, append_assoc, take-append, drop-append, drop-drop,
  ==_refl, lt→ltb,
}
use seedstone.Log.Effect.{to_le_bytes, from_le_bytes}
use seedstone.Log.Effect.Codec.{length-to_le_bytes, from-to_four, from-to_eight}
use seedstone.Log.Crc.{crc32_iso_hdlc}
use seedstone.Log.Framing.{
  intact, magic, header_len, body_fixed_len, max_body_len, body_of, encode_record, decode_body,
  decode_header, decode_record,
}
use seedstone.Shard.State.{LogRecord}

from-to_two : (n : ℕ) → n < 2 ^ 16 → from_le_bytes (to_le_bytes 2 n) ≡ n
unfolding from_le_bytes to_le_bytes
from-to_two n h = omega arith

pub crc32_iso_hdlc-lt : (bytes : Bytes) → crc32_iso_hdlc bytes < 2 ^ 32
unfolding crc32_iso_hdlc
crc32_iso_hdlc-lt bytes = omega arith

pub take_on : (n : ℕ) (a b : Bytes) → length a ≡ n → take n (a ++ b) ≡ a
take_on n a b e = ap (λ n. take n (a ++ b)) (sym e) ∙ take-append a b

pub drop_past : (n : ℕ) (a b : Bytes) → length a ≡ n → drop n (a ++ b) ≡ b
drop_past n a b e = ap (λ n. drop n (a ++ b)) (sym e) ∙ drop-append a b

-- The fields of a record that its frame can hold.
pub record IsFramable (rec : LogRecord) : Type 0 where
  pub shard : rec.shard < 2 ^ 16
  pub seq : rec.seq < 2 ^ 64
  pub payload : body_fixed_len + length rec.payload ≤ max_body_len

pub length-body_of : (rec : LogRecord) → length (body_of rec) ≡ body_fixed_len + length rec.payload
unfolding body_of
length-body_of rec =
    length-append (to_le_bytes 2 rec.shard) (to_le_bytes 8 rec.seq ++ rec.payload)
    ∙ omega (
      arith,
      length-to_le_bytes 2 rec.shard,
      length-append (to_le_bytes 8 rec.seq) rec.payload,
      length-to_le_bytes 8 rec.seq,
    )

-- the header's two fields and the body
abbrev pub frame : LogRecord → Bytes
frame rec =
    to_le_bytes 4 (body_fixed_len + length rec.payload)
    ++ (to_le_bytes 4 (crc32_iso_hdlc (body_of rec)) ++ body_of rec)

-- Where the fields of a record stand in its body.
body_fields :
    (rec : LogRecord)
    → (take 2 (body_of rec) ≡ to_le_bytes 2 rec.shard)
      × (take 8 (drop 2 (body_of rec)) ≡ to_le_bytes 8 rec.seq)
      × (drop 10 (body_of rec) ≡ rec.payload)
unfolding body_of
body_fields rec =
    let head = to_le_bytes 2 rec.shard in
    let place = to_le_bytes 8 rec.seq in
    let two = length-to_le_bytes 2 rec.shard in
    let eight = length-to_le_bytes 8 rec.seq in
    let ten : length (head ++ place) ≡ 10 = omega (arith, two, eight, length-append head place) in
    (
      take_on 2 head (place ++ rec.payload) two,
      ap (take 8) (drop_past 2 head (place ++ rec.payload) two) ∙ take_on 8 place rec.payload eight,
      ap (drop 10) (sym (append_assoc head place rec.payload))
          ∙ drop_past 10 (head ++ place) rec.payload ten,
    )

decode_body-frame :
    (rec : LogRecord) (buf : Bytes) (consumed : ℕ)
    → IsFramable rec
    → take 4 (drop 5 buf) ≡ to_le_bytes 4 (crc32_iso_hdlc (body_of rec))
    → decode_body buf (body_of rec) consumed ≡ intact rec consumed
unfolding decode_body
decode_body-frame rec buf consumed fits stored =
    let sum = crc32_iso_hdlc (body_of rec) in
    let (shard, seq, payload) = body_fields rec in
    rw
      (
        stored,
        from-to_four sum (crc32_iso_hdlc-lt (body_of rec)),
        ==_refl sum,
        shard,
        seq,
        payload,
        from-to_two rec.shard fits.shard,
        from-to_eight rec.seq fits.seq,
      )
      refl

-- The decoder on a frame, with what follows it.
decode_header-frame :
    (rec : LogRecord) (rest : Bytes)
    → IsFramable rec
    → decode_header (magic ∷ (frame rec ++ rest))
      ≡ intact rec (header_len + (body_fixed_len + length rec.payload))
unfolding decode_header
decode_header-frame rec rest fits =
    let body = body_of rec in
    let body_len = body_fixed_len + length rec.payload in
    let size = to_le_bytes 4 body_len in
    let crc = to_le_bytes 4 (crc32_iso_hdlc body) in
    let four = length-to_le_bytes 4 body_len in
    let four' = length-to_le_bytes 4 (crc32_iso_hdlc body) in
    let buf = magic ∷ (frame rec ++ rest) in
    let same : frame rec ++ rest ≡ size ++ (crc ++ (body ++ rest)) =
      append_assoc size (crc ++ body) rest ∙ ap (λ l. size ++ l) (append_assoc crc body rest) in
    let declared : from_le_bytes (take 4 (frame rec ++ rest)) ≡ body_len =
      ap (λ l. from_le_bytes (take 4 l)) same
      ∙ ap from_le_bytes (take_on 4 size (crc ++ (body ++ rest)) four)
      ∙ from-to_four body_len (omega (arith, fits.payload)) in
    let after_size : drop 4 (frame rec ++ rest) ≡ crc ++ (body ++ rest) =
      ap (drop 4) same ∙ drop_past 4 size (crc ++ (body ++ rest)) four in
    let stored : take 4 (drop 4 (frame rec ++ rest)) ≡ crc =
      ap (take 4) after_size ∙ take_on 4 crc (body ++ rest) four' in
    let after_crc : drop 8 (frame rec ++ rest) ≡ body ++ rest =
      sym (drop-drop 4 4 (frame rec ++ rest))
      ∙ ap (drop 4) after_size
      ∙ drop_past 4 crc (body ++ rest) four' in
    let covered : take body_len (drop 8 (frame rec ++ rest)) ≡ body =
      ap (take body_len) after_crc ∙ take_on body_len body rest (length-body_of rec) in
    let long : suc (length (frame rec ++ rest)) ≡ 9 + body_len + length rest = omega (
      arith,
      ap length same,
      four,
      four',
      length-append size (crc ++ (body ++ rest)),
      length-append crc (body ++ rest),
      length-append body rest,
      length-body_of rec,
    ) in
    let has_header : ltb (suc (length (frame rec ++ rest))) header_len ≡ false =
      ground (arith, long) in
    let plausible : (ltb body_len body_fixed_len || ltb max_body_len body_len) ≡ false =
      ground (arith, fits.payload) in
    let arrived : ltb (suc (length (frame rec ++ rest))) (header_len + body_len) ≡ false =
      ground (arith, long) in
    rw (declared, has_header, plausible, arrived, covered)
      (decode_body-frame rec buf (header_len + body_len) fits stored)

-- A record with a shard of 16 bits, a position of 64 bits and a body within the ceiling is framed,
-- and the frame decodes to it, whatever follows, with the frame's length as the bytes taken.
pub decode_record-encode_record :
    (rec : LogRecord) (rest : Bytes)
    → IsFramable rec
    → (frame : Bytes) × (encode_record rec ≡ some frame)
      × (decode_record (frame ++ rest) ≡ intact rec (length frame))
unfolding encode_record decode_record
decode_record-encode_record rec rest fits =
    let body = body_of rec in
    let body_len = body_fixed_len + length rec.payload in
    let size = to_le_bytes 4 body_len in
    let crc = to_le_bytes 4 (crc32_iso_hdlc body) in
    let small : ltb body_len (2 ^ 32) ≡ true =
      lt→ltb body_len (2 ^ 32) (omega (arith, fits.payload)) in
    let four = length-to_le_bytes 4 body_len in
    let four' = length-to_le_bytes 4 (crc32_iso_hdlc body) in
    let whole : length (magic ∷ frame rec) ≡ header_len + body_len = omega (
      arith,
      four,
      four',
      length-append size (crc ++ body),
      length-append crc body,
      length-body_of rec,
    ) in
    (magic ∷ frame rec, rw small refl, rw whole (decode_header-frame rec rest fits))
