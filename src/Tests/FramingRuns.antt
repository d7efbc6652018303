-- ===== src/Tests/FramingRuns.antt =====
-- Records framed and read back, and the checksum's published check value.
use seedstone.Base.{
  ◌-◌, ◌^◌, ◌≤◌, ◌≡◌, refl, arith, Bytes, codes, some, [], ◌∷◌, ◌++◌, length, take,
}
use seedstone.Log.Crc.{crc32_iso_hdlc}
use seedstone.Log.Crc.Blocks.{crc_bits}
use seedstone.Log.Crc.Checksum.{crc32_iso_hdlc_lem}
use seedstone.Log.Framing.{intact, need_more, encode_record, decode_record}
use seedstone.Log.Framing.RoundTrip.{decode_record-encode_record, IsFramable}
use seedstone.Log.Framing.Torn.{decode_record_torn}
use seedstone.Log.Framing.Canonical.{encode_record-decode_record}
use seedstone.Shard.State.{LogRecord}

check_value : crc32_iso_hdlc (codes "123456789") ≡ 0xCBF43926
unfolding crc32_iso_hdlc
check_value = refl

-- a block of sixteen bytes and one byte more
a_block_and_a_byte : crc32_iso_hdlc (codes "0123456789abcdef0") ≡ 1264810695
unfolding crc32_iso_hdlc
a_block_and_a_byte = refl

abbrev flushed : LogRecord
flushed = record { shard = 3; seq = 5; payload = 4 ∷ [] }

abbrev flushed_frame : Bytes
flushed_frame =
    165 ∷ 11 ∷ 0 ∷ 0 ∷ 0 ∷ 187 ∷ 86 ∷ 159 ∷ 191 ∷ 3 ∷ 0 ∷ 5 ∷ 0 ∷ 0 ∷ 0 ∷ 0 ∷ 0 ∷ 0 ∷ 0 ∷ 4 ∷ []

framed : encode_record flushed ≡ some flushed_frame
unfolding encode_record crc32_iso_hdlc
framed = refl

unframed : decode_record flushed_frame ≡ intact flushed 20
unfolding decode_record crc32_iso_hdlc
unframed = refl

flushed-IsFramable : IsFramable flushed
flushed-IsFramable = record { shard = omega arith; seq = omega arith; payload = omega arith }

decode_record-encode_record_example :
    (frame : Bytes) × (encode_record flushed ≡ some frame)
    × (decode_record (frame ++ (165 ∷ 0 ∷ [])) ≡ intact flushed (length frame))
decode_record-encode_record_example =
    decode_record-encode_record flushed (165 ∷ 0 ∷ []) flushed-IsFramable

decode_record_torn_example : decode_record (take 12 flushed_frame) ≡ need_more
decode_record_torn_example =
    decode_record_torn flushed flushed_frame 12 flushed-IsFramable framed (omega arith)

encode_record-decode_record_example :
    (20 ≤ length flushed_frame) × (encode_record flushed ≡ some (take 20 flushed_frame))
encode_record-decode_record_example =
    encode_record-decode_record flushed_frame flushed 20 (omega arith) unframed

crc32_iso_hdlc_lem_example :
    crc32_iso_hdlc (codes "0123456789abcdef0")
    ≡ 2 ^ 32 - 1 - crc_bits (2 ^ 32 - 1) (codes "0123456789abcdef0")
crc32_iso_hdlc_lem_example = crc32_iso_hdlc_lem (codes "0123456789abcdef0") (omega arith)
