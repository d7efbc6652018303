-- ===== src/Resp/Decoder.antt =====
-- The incremental decoder of crates/seedstone-resp/src/lib.rs. A method on `&mut self` returns its
-- result with the state that it leaves, also where it fails.
use seedstone.Base.{
  ℕ, suc, ◌+◌, ◌-◌, ◌*◌, ◌^◌, ◌==◌, ltb, leb, min, Bool, true, false, not, ◌&&◌, Result, ok, err,
  Bytes, bytes_eq, Option, none, some, List, [], ◌∷◌, length, take, drop, if◌then◌else◌,
}
use seedstone.Resp.Field.{
  ParseError, frame_too_large, memory_exceeded, bulk_overflow, missing_terminator,
}
use seedstone.Resp.{Frame, simple, error, integer, bulk, null, array, crlf}

abbrev pub max_array_depth : ℕ
max_array_depth = 64

abbrev pub max_bulk_len : ℕ
max_bulk_len = 16777216

abbrev pub max_array_len : ℕ
max_array_len = 1048576

pub record DecoderLimits : Type 0 where
  pub max_frame_bytes : ℕ
  pub max_in_memory : ℕ

abbrev pub default_limits : DecoderLimits
default_limits = record { max_frame_bytes = 67108864; max_in_memory = 67108864 }

pub record PendingArray : Type 0 where
  pub remaining : ℕ
  pub elements : List Frame

pub data Element : Type 0 where
  value : Frame → Element
  array_header : ℕ → Element

pub data Kind : Type 0 where
  simple_line error_line integer_line bulk_line array_line : Kind

pub data Partial : Type 0 where
  start : Partial
  scanned_line : ℕ → Partial
  bulk_body : ℕ → ℕ → Partial

-- The stack has the innermost array first.
pub record Decoding : Type 0 where
  pub frame_start : ℕ
  pub scan : ℕ
  pub partial : Partial
  pub stack : List PendingArray
  pub in_memory : ℕ
  pub examined : ℕ

abbrev pub new_decoding : Decoding
new_decoding = record {
  frame_start = 0;
  scan = 0;
  partial = start;
  stack = [];
  in_memory = 0;
  examined = 0;
}

-- `usize::saturating_add`
unfoldable pub saturating_add : ℕ → ℕ → ℕ
saturating_add a b = min (a + b) (2 ^ 64 - 1)

abbrev pub saturating_mul : ℕ → ℕ → ℕ
saturating_mul a b = min (a * b) (2 ^ 64 - 1)

abbrev pub look : ℕ → Decoding → Decoding
look n s = record s { examined = saturating_add s.examined n }

unfoldable pub finish_frame : Decoding → Decoding
finish_frame s = record s { frame_start = s.scan; partial = start; in_memory = 0 }

abbrev pub shift_partial : ℕ → Partial → Partial
shift_partial cut start = start
shift_partial cut (scanned_line scanned) = scanned_line (scanned - cut)
shift_partial cut (bulk_body header len) = bulk_body header len

unfoldable pub shift_back : ℕ → Decoding → Decoding
shift_back cut s = record s {
  frame_start = s.frame_start - cut;
  scan = s.scan - cut;
  partial = shift_partial cut s.partial;
}

unfoldable pub check_frame_bytes : ℕ → DecoderLimits → Result (Unit {0}) ParseError
check_frame_bytes wire_bytes limits =
    if ltb limits.max_frame_bytes wire_bytes
    then err (frame_too_large limits.max_frame_bytes)
    else ok tt

unfoldable pub payload_bytes : Frame → ℕ
payload_bytes (simple text) = length text
payload_bytes (error text) = length text
payload_bytes (integer i) = 0
payload_bytes (bulk payload) = length payload
payload_bytes null = 0
payload_bytes (array frames) = 0

unfoldable pub headroom : Decoding → DecoderLimits → ℕ
headroom s limits = limits.max_in_memory - s.in_memory

unfoldable pub afford : Decoding → ℕ → DecoderLimits → Result (Unit {0}) ParseError
unfolding headroom
afford s cost limits =
    if ltb (headroom s limits) cost then err (memory_exceeded limits.max_in_memory) else ok tt

-- `while i + 1 < buf.len()`, from `i`, on the bytes from there: where the terminator stands, or
-- where the loop stopped.
unfoldable pub scan_line : ℕ → Bytes → Bool × ℕ
scan_line i [] = (false, i)
scan_line i (a ∷ []) = (false, i)
scan_line i (a ∷ b ∷ rest) =
    let later = scan_line (suc i) (b ∷ rest) in if a == 13 && b == 10 then (true, i) else later

abbrev pub resume_at : Partial → ℕ → ℕ
resume_at (scanned_line scanned) from = if ltb from scanned then scanned else from
resume_at start from = from
resume_at (bulk_body header len) from = from

unfoldable pub find_crlf : Bytes → ℕ → Decoding → Option (ℕ × ℕ) × Decoding
unfolding scan_line
find_crlf buf from s =
    let resume = resume_at s.partial from in
    let (found, i) = scan_line resume (drop resume buf) in
    if found
    then (some (i, i + 2), record (look (i + 2 - resume) s) { partial = start })
    else (none, record (look (i - resume) s) { partial = scanned_line i })

-- `&buf[from..to]`
abbrev pub slice : Bytes → ℕ → ℕ → Bytes
slice buf from to = take (to - from) (drop from buf)

unfoldable pub finish_bulk : Bytes → ℕ → ℕ → Decoding → Result (Option Frame) ParseError × Decoding
finish_bulk buf header len s =
    let end = s.scan + (header + len + 2) in
    if leb (2 ^ 64) end
    then (err bulk_overflow, s)
    else if ltb (length buf) end
    then (ok none, s)
    else let from = s.scan + header in
      if not (bytes_eq (slice buf (from + len) end) crlf) then (err missing_terminator, s) else (
        ok (some (bulk (slice buf from (from + len)))),
        record (look len s) { scan = end; partial = start },
      )

abbrev pub as_value :
    Result (Option Frame) ParseError × Decoding → Result (Option Element) ParseError × Decoding
as_value (ok none, s) = (ok none, s)
as_value (ok (some frame), s) = (ok (some (value frame)), s)
as_value (err e, s) = (err e, s)

unfoldable pub kind_of : ℕ → Option Kind
kind_of c =
    if c == b'+'
    then some simple_line
    else if c == b'-'
    then some error_line
    else if c == b':'
    then some integer_line
    else if c == b'$'
    then some bulk_line
    else if c == b'*'
    then some array_line
    else none

-- Whether to wait for the byte after a lone CR, and the state after the empty lines.
unfoldable pub skip_lines : Bytes → Decoding → Bool × Decoding
skip_lines [] s = (false, s)
skip_lines (a ∷ []) s = (a == 13, s)
skip_lines (a ∷ b ∷ rest) s =
    let more =
      skip_lines rest (record (look 2 s) { scan = s.scan + 2; frame_start = s.scan + 2 }) in
    if a == 13 && b == 10 then more else (false, s)
