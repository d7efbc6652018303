-- ===== src/Slot/Checksum.antt =====
-- The checksum of slot.rs stays a 16-bit word.
use seedstone.Base.{ℕ, zero, suc, ◌*◌, ◌%◌, ◌^◌, ◌<◌, bit_xor, bit_xor-lt, Bytes, [], ◌∷◌, arith}
use seedstone.Slot.{crc_round, crc_rounds, crc_bytes, crc16_xmodem}

crc_round-lt : (crc : ℕ) → crc < 2 ^ 16 → crc_round crc < 2 ^ 16
unfolding crc_round
crc_round-lt crc h =
    ground (arith, bit_xor-lt 16 (crc * 2 % 2 ^ 16) 0x1021 (omega arith) (omega arith))

crc_rounds-lt : (n crc : ℕ) → crc < 2 ^ 16 → crc_rounds n crc < 2 ^ 16
unfolding crc_rounds
crc_rounds-lt zero crc h = h
crc_rounds-lt (suc n) crc h = crc_rounds-lt n (crc_round crc) (crc_round-lt crc h)

crc_bytes-lt : (crc : ℕ) (key : Bytes) → crc < 2 ^ 16 → crc_bytes crc key < 2 ^ 16
unfolding crc_bytes
crc_bytes-lt crc [] h = h
crc_bytes-lt crc (byte ∷ rest) h =
    crc_bytes-lt (crc_rounds 8 (bit_xor crc (byte * 2 ^ 8 % 2 ^ 16))) rest (
      crc_rounds-lt 8 (bit_xor crc (byte * 2 ^ 8 % 2 ^ 16))
        (bit_xor-lt 16 crc (byte * 2 ^ 8 % 2 ^ 16) h (omega arith)))

-- The checksum of every key is a 16-bit word.
pub crc16_xmodem-lt : (key : Bytes) → crc16_xmodem key < 2 ^ 16
unfolding crc16_xmodem
crc16_xmodem-lt key = crc_bytes-lt 0 key (omega arith)
