-- ===== src/Resp/Reader.antt =====
-- `read_element` of crates/seedstone-resp/src/lib.rs: one element of the wire, resumable.
use seedstone.Base.{
  ℕ, zero, suc, ◌+◌, ◌-◌, ltb, Bool, true, false, ℤ, pos, negsuc, Result, ok, err, Bytes, is_utf8,
  Option, none, some, List, [], ◌∷◌, length, drop, get_elem?, if◌then◌else◌,
}
use seedstone.Resp.{Frame, simple, error, integer, null}
use seedstone.Resp.Field.{
  ParseError, parse_i64, simple_not_utf8, error_not_utf8, negative_bulk, bulk_too_long,
  negative_array, too_deep, array_too_long, array_too_large, unknown_type_byte,
}
use seedstone.Resp.Decoder.{
  Decoding, DecoderLimits, Element, value, array_header, Kind, simple_line, error_line,
  integer_line, bulk_line, array_line, Partial, start, scanned_line, bulk_body, PendingArray,
  max_array_depth, max_bulk_len, max_array_len, saturating_add, saturating_mul, headroom, afford,
  look, slice, finish_bulk, as_value, kind_of, skip_lines, find_crlf,
}

abbrev pub Read : Type 0
Read = Result (Option Element) ParseError × Decoding

-- `String::from_utf8` of the field, or the refusal
unfoldable pub text_element : Frame → ParseError → Bytes → ℕ → Decoding → Read
text_element frame refusal field next s =
    if is_utf8 field then (ok (some (value frame)), record s { scan = next }) else (err refusal, s)

unfoldable pub integer_element : Result ℤ ParseError → ℕ → Decoding → Read
integer_element (err e) next s = (err e, s)
integer_element (ok i) next s = (ok (some (value (integer i))), record s { scan = next })

-- The size of a `Frame` in memory is the compiler's.
module _ (size_of_frame : ℕ) where
  unfoldable pub count_of : Result ℤ ParseError → Decoding → DecoderLimits → Result ℕ ParseError
  unfolding headroom
  count_of (err e) s limits = err e
  count_of (ok (negsuc n)) s limits = err (negative_array (negsuc n))
  count_of (ok (pos count)) s limits =
      if ltb max_array_depth (length s.stack + 1)
      then err too_deep
      else if ltb max_array_len count
      then err (array_too_long (pos count))
      else if ltb (headroom s limits) (saturating_mul count size_of_frame)
      then err (array_too_large count limits.max_in_memory)
      else ok count

  -- the method `array_header`
  unfoldable pub header_count : Bytes → Decoding → DecoderLimits → Result ℕ ParseError
  unfolding count_of
  header_count field s limits = count_of (parse_i64 field) s limits

  unfoldable pub array_element : Result ℕ ParseError → ℕ → Decoding → Read
  array_element (err e) next s = (err e, s)
  array_element (ok count) next s = (ok (some (array_header count)), record s { scan = next })

  abbrev pub priced_bulk : Bytes → ℕ → ℕ → Decoding → Result (Unit {0}) ParseError → Read
  priced_bulk buf header len s (err e) = (err e, s)
  priced_bulk buf header len s (ok u) =
      as_value (finish_bulk buf header len (record s { partial = bulk_body header len }))

  unfoldable pub bulk_element : Result ℤ ParseError → Bytes → ℕ → Decoding → DecoderLimits → Read
  unfolding finish_bulk afford
  bulk_element (err e) buf next s limits = (err e, s)
  bulk_element (ok (negsuc zero)) buf next s limits =
      (ok (some (value null)), record s { scan = next })
  bulk_element (ok (negsuc (suc n))) buf next s limits = (err (negative_bulk (negsuc (suc n))), s)
  bulk_element (ok (pos len)) buf next s limits =
      if ltb max_bulk_len len
      then (err (bulk_too_long (pos len)), s)
      else priced_bulk buf (next - s.scan) len s
          (afford s (saturating_add size_of_frame len) limits)

  unfoldable pub read_field : Kind → Bytes → Bytes → ℕ → Decoding → DecoderLimits → Read
  unfolding text_element integer_element bulk_element array_element header_count
  read_field simple_line field buf next s limits =
      text_element (simple field) simple_not_utf8 field next s
  read_field error_line field buf next s limits =
      text_element (error field) error_not_utf8 field next s
  read_field integer_line field buf next s limits = integer_element (parse_i64 field) next s
  read_field bulk_line field buf next s limits = bulk_element (parse_i64 field) buf next s limits
  read_field array_line field buf next s limits = array_element (header_count field s limits) next s

  unfoldable pub read_content : Kind → Bytes → ℕ → Option (ℕ × ℕ) × Decoding → DecoderLimits → Read
  unfolding read_field
  read_content kind buf content (none, s) limits = (ok none, s)
  read_content kind buf content (some (line_end, next), s) limits =
      read_field kind (slice buf content line_end) buf next s limits

  unfoldable pub read_line : Option Kind → ℕ → Bytes → Decoding → DecoderLimits → Read
  unfolding read_content find_crlf
  read_line none type_byte buf s limits = (err (unknown_type_byte type_byte), s)
  read_line (some kind) type_byte buf s limits =
      read_content kind buf (s.scan + 1) (find_crlf buf (s.scan + 1) s) limits

  unfoldable pub read_typed : Option ℕ → Bytes → Decoding → DecoderLimits → Read
  unfolding read_line kind_of
  read_typed none buf s limits = (ok none, s)
  read_typed (some type_byte) buf s limits =
      read_line (kind_of type_byte) type_byte buf (look 1 s) limits

  unfoldable pub read_skipped : Bytes → Bool × Decoding → DecoderLimits → Read
  unfolding read_typed
  read_skipped buf (true, s) limits = (ok none, s)
  read_skipped buf (false, s) limits = read_typed (get_elem? buf s.scan) buf s limits

  unfoldable pub read_from : Partial → List PendingArray → Bytes → Decoding → DecoderLimits → Read
  unfolding finish_bulk read_skipped skip_lines
  read_from (bulk_body header len) stack buf s limits = as_value (finish_bulk buf header len s)
  read_from (scanned_line scanned) stack buf s limits = read_skipped buf (false, s) limits
  read_from start (top ∷ below) buf s limits = read_skipped buf (false, s) limits
  read_from start [] buf s limits = read_skipped buf (skip_lines (drop s.scan buf) s) limits

  unfoldable pub read_element : Bytes → Decoding → DecoderLimits → Read
  unfolding read_from
  read_element buf s limits = read_from s.partial s.stack buf s limits
