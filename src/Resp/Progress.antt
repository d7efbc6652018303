-- ===== src/Resp/Progress.antt =====
-- Every round of the loop of `step` in lib.rs moves the read position on, so that the loop ends.
use seedstone.Base.{
  ℕ, zero, suc, ◌+◌, ◌-◌, ◌==◌, ◌≤◌, ◌<◌, ltb, inl, inr, Bool-cases, Bool, true, false, ◌&&◌, Bytes,
  Option, none, some, List, [], ◌∷◌, length, drop, get_elem?, arith, length-drop, ok, err, Result,
  ℤ, pos, negsuc,
}
use seedstone.Resp.{Frame, simple, error}
use seedstone.Resp.Field.{ParseError, parse_i64, simple_not_utf8, error_not_utf8}
use seedstone.Resp.Decoder.{
  Decoding, DecoderLimits, Partial, PendingArray, Kind, simple_line, error_line, integer_line,
  bulk_line, array_line, start, scanned_line, bulk_body, finish_bulk, as_value, afford, scan_line,
  find_crlf, slice, look, skip_lines, kind_of, saturating_add, resume_at,
}
use seedstone.Resp.Resume.{scan_line-bounds, resume_at-bound}
use seedstone.Resp.Reader.{
  Read, read_element, read_from, read_skipped, read_typed, read_line, read_content, read_field,
  bulk_element, priced_bulk, text_element, integer_element, array_element, header_count,
}

-- What is read ends past `from` and within the bytes.
abbrev pub Forward : ℕ → Bytes → Read → Type 0
Forward from buf (ok none, s) = Unit {0}
Forward from buf (ok (some element), s) = (from < s.scan) × (s.scan ≤ length buf)
Forward from buf (err e, s) = Unit {0}

finish_bulk-Forward :
    (buf : Bytes) (header len : ℕ) (s : Decoding)
    → Forward s.scan buf (as_value (finish_bulk buf header len s))
unfolding finish_bulk
finish_bulk-Forward buf header len s = ground arith

module _ (size_of_frame : ℕ) (buf : Bytes) where
  text-Forward :
      (f : Frame) (e : ParseError) (field : Bytes) (from next : ℕ) (s : Decoding)
      → from < next
      → next ≤ length buf
      → Forward from buf (text_element f e field next s)
  unfolding text_element
  text-Forward f e field from next s h k = ground arith

  integer-Forward :
      (r : Result ℤ ParseError) (from next : ℕ) (s : Decoding)
      → from < next
      → next ≤ length buf
      → Forward from buf (integer_element r next s)
  unfolding integer_element
  integer-Forward (err e) from next s h k = tt
  integer-Forward (ok i) from next s h k = (h, k)

  array-Forward :
      (r : Result ℕ ParseError) (from next : ℕ) (s : Decoding)
      → from < next
      → next ≤ length buf
      → Forward from buf (array_element size_of_frame r next s)
  unfolding array_element
  array-Forward (err e) from next s h k = tt
  array-Forward (ok i) from next s h k = (h, k)

  priced-Forward :
      (r : Result (Unit {0}) ParseError) (header len : ℕ) (s : Decoding)
      → Forward s.scan buf (priced_bulk size_of_frame buf header len s r)
  priced-Forward (err e) header len s = tt
  priced-Forward (ok u) header len s =
      finish_bulk-Forward buf header len (record s { partial = bulk_body header len })

  bulk-Forward :
      (r : Result ℤ ParseError) (next : ℕ) (s : Decoding) (limits : DecoderLimits)
      → s.scan < next
      → next ≤ length buf
      → Forward s.scan buf (bulk_element size_of_frame r buf next s limits)
  unfolding bulk_element
  bulk-Forward (err e) next s limits h k = tt
  bulk-Forward (ok (negsuc zero)) next s limits h k = (h, k)
  bulk-Forward (ok (negsuc (suc n))) next s limits h k = tt
  bulk-Forward (ok (pos len)) next s limits h k = elim (Bool-cases (ltb 16777216 len)) [
    | inl long ↦ rw long tt
    | inr short ↦
        rw short (
          priced-Forward (afford s (saturating_add size_of_frame len) limits) (next - s.scan) len s)
  ]

  read_field-Forward :
      (kind : Kind) (field : Bytes) (next : ℕ) (s : Decoding) (limits : DecoderLimits)
      → s.scan < next
      → next ≤ length buf
      → Forward s.scan buf (read_field size_of_frame kind field buf next s limits)
  unfolding read_field
  read_field-Forward simple_line field next s limits h k =
      text-Forward (simple field) simple_not_utf8 field s.scan next s h k
  read_field-Forward error_line field next s limits h k =
      text-Forward (error field) error_not_utf8 field s.scan next s h k
  read_field-Forward integer_line field next s limits h k =
      integer-Forward (parse_i64 field) s.scan next s h k
  read_field-Forward bulk_line field next s limits h k =
      bulk-Forward (parse_i64 field) next s limits h k
  read_field-Forward array_line field next s limits h k =
      array-Forward (header_count size_of_frame field s limits) s.scan next s h k

  read_content-Forward :
      (kind : Kind) (content : ℕ) (s : Decoding) (limits : DecoderLimits)
      → s.scan < content
      → Forward s.scan buf
          (read_content size_of_frame kind buf content (find_crlf buf content s) limits)
  unfolding read_content find_crlf
  read_content-Forward kind content s limits h =
      let resume = resume_at s.partial content in
      let (first, last) = scan_line-bounds resume (drop resume buf) in
      let i = (scan_line resume (drop resume buf)).1 in
      elim (Bool-cases (scan_line resume (drop resume buf)).0) [
        | inl found ↦
            let s1 : Decoding = record (look (i + 2 - resume) s) { partial = start } in
            rw (find_crlf, found)
              (read_field-Forward kind (slice buf content i) (i + 2) s1 limits
                (omega (arith, resume_at-bound s.partial content))
                (omega (arith, last found, length-drop resume buf)))
        | inr wait ↦ rw (find_crlf, wait) tt
      ]

  read_line-Forward :
      (kind : Option Kind) (type_byte : ℕ) (s : Decoding) (limits : DecoderLimits)
      → Forward s.scan buf (read_line size_of_frame kind type_byte buf s limits)
  unfolding read_line
  read_line-Forward none type_byte s limits = tt
  read_line-Forward (some kind) type_byte s limits =
      read_content-Forward kind (s.scan + 1) s limits (omega arith)

  read_typed-Forward :
      (c : Option ℕ) (s : Decoding) (limits : DecoderLimits)
      → Forward s.scan buf (read_typed size_of_frame c buf s limits)
  unfolding read_typed
  read_typed-Forward none s limits = tt
  read_typed-Forward (some c) s limits = read_line-Forward (kind_of c) c (look 1 s) limits

  Forward-on : (from on : ℕ) (r : Read) → from ≤ on → Forward on buf r → Forward from buf r
  Forward-on from on (ok none, s) h k = tt
  Forward-on from on (ok (some element), s) h (k, l) = (omega arith, l)
  Forward-on from on (err e, s) h k = tt

  read_skipped-Forward :
      (from : ℕ) (r : Bool × Decoding) (limits : DecoderLimits)
      → from ≤ r.1.scan
      → Forward from buf (read_skipped size_of_frame buf r limits)
  unfolding read_skipped
  read_skipped-Forward from (true, s) limits h = tt
  read_skipped-Forward from (false, s) limits h =
      Forward-on from s.scan (read_typed size_of_frame (get_elem? buf s.scan) buf s limits) h
        (read_typed-Forward (get_elem? buf s.scan) s limits)

  pub skip_lines-scan : (l : Bytes) (s : Decoding) → s.scan ≤ (skip_lines l s).1.scan
  unfolding skip_lines
  skip_lines-scan [] s = omega arith
  skip_lines-scan (a ∷ []) s = omega arith
  skip_lines-scan (a ∷ b ∷ rest) s =
      let next : Decoding = record (look 2 s) { scan = s.scan + 2; frame_start = s.scan + 2 } in
      let later = skip_lines-scan rest next in
      elim (Bool-cases ((a == 13) && (b == 10))) [
        | inl here ↦ rw here (omega (arith, later))
        | inr on ↦ rw on (omega arith)
      ]

  read_from-Forward :
      (p : Partial) (stack : List PendingArray) (s : Decoding) (limits : DecoderLimits)
      → Forward s.scan buf (read_from size_of_frame p stack buf s limits)
  unfolding read_from
  read_from-Forward (bulk_body header len) stack s limits = finish_bulk-Forward buf header len s
  read_from-Forward (scanned_line scanned) stack s limits =
      read_skipped-Forward s.scan (false, s) limits (omega arith)
  read_from-Forward start (top ∷ below) s limits =
      read_skipped-Forward s.scan (false, s) limits (omega arith)
  read_from-Forward start [] s limits =
      read_skipped-Forward s.scan (skip_lines (drop s.scan buf) s) limits
        (skip_lines-scan (drop s.scan buf) s)

  pub read_element-Forward :
      (s : Decoding) (limits : DecoderLimits)
      → Forward s.scan buf (read_element size_of_frame buf s limits)
  unfolding read_element
  read_element-Forward s limits = read_from-Forward s.partial s.stack s limits
