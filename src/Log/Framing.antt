-- ===== src/Log/Framing.antt =====
-- The framing of the log of crates/seedstone-core/src/log.rs: encode_record and decode_record.
pub mod RoundTrip
pub mod Torn
pub mod Canonical
use seedstone.Base.{
  ℕ, zero, suc, ◌+◌, ◌*◌, ◌^◌, ◌==◌, ltb, Bool, true, false, not, ◌||◌, Bytes, Option, none, some,
  List, [], ◌∷◌, ◌++◌, length, take, drop, if◌then◌else◌,
}
use seedstone.Log.Effect.{to_le_bytes, from_le_bytes}
use seedstone.Log.Crc.{crc32_iso_hdlc}
use seedstone.Shard.State.{LogRecord}

abbrev pub magic : ℕ
magic = 0xA5

abbrev pub end_of_log_byte : ℕ
end_of_log_byte = 0

abbrev pub header_len : ℕ
header_len = 9

abbrev pub body_fixed_len : ℕ
body_fixed_len = 10

abbrev pub max_body_len : ℕ
max_body_len = 67108864

-- `Decoded`
pub data Decoded : Type 0 where
  intact : LogRecord → ℕ → Decoded
  end_of_log : Decoded
  need_more : Decoded
  corrupt : ℕ → Decoded

-- the bytes that the checksum covers
unfoldable pub body_of : LogRecord → Bytes
unfolding to_le_bytes
body_of rec = to_le_bytes 2 rec.shard ++ (to_le_bytes 8 rec.seq ++ rec.payload)

-- What `encode_record` appends to `out`. None is the panic on a body whose length is no u32.
unfoldable pub encode_record : LogRecord → Option Bytes
unfolding body_of
encode_record rec =
    let body_len = body_fixed_len + length rec.payload in
    let body = body_of rec in
    if ltb body_len (2 ^ 32)
    then some (magic ∷ (to_le_bytes 4 body_len ++ (to_le_bytes 4 (crc32_iso_hdlc body) ++ body)))
    else none

-- `decode_record` once the body is in the buffer
unfoldable pub decode_body : Bytes → Bytes → ℕ → Decoded
unfolding from_le_bytes
decode_body buf body consumed =
    if crc32_iso_hdlc body == from_le_bytes (take 4 (drop 5 buf))
    then intact
        (record {
          shard = from_le_bytes (take 2 body);
          seq = from_le_bytes (take 8 (drop 2 body));
          payload = drop body_fixed_len body;
        })
        consumed
    else corrupt 1

-- `decode_record` after the magic byte. A `usize` holds every u32.
unfoldable pub decode_header : Bytes → Decoded
unfolding decode_body from_le_bytes
decode_header buf =
    let body_len = from_le_bytes (take 4 (drop 1 buf)) in
    if ltb (length buf) header_len
    then need_more
    else if ltb body_len body_fixed_len || ltb max_body_len body_len
    then corrupt 1
    else if ltb (length buf) (header_len + body_len)
    then need_more
    else decode_body buf (take body_len (drop header_len buf)) (header_len + body_len)

unfoldable pub decode_record : Bytes → Decoded
unfolding decode_header
decode_record [] = need_more
decode_record (b ∷ rest) =
    if b == end_of_log_byte
    then end_of_log
    else if b == magic
    then decode_header (b ∷ rest)
    else corrupt 1
