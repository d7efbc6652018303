-- ===== src/Resp/Elements.antt =====
-- What `read_element` of lib.rs reads where the encoder has written a frame.
use seedstone.Base.{
  ℕ, zero, suc, ◌+◌, ◌-◌, ◌*◌, ◌^◌, ◌==◌, ◌≤◌, ◌<◌, ◌≡◌, ◌≢◌, refl, sym, ap, ◌∙◌, Bool, true, false,
  Bytes, Option, none, some, List, [], ◌∷◌, ◌++◌, length, take, drop, All, arith, drop-drop,
  take-append, drop_on, ltb, leb, length-drop, length-append, append_assoc, ℤ, pos, negsuc, ok, err,
  decimal, codes, is_utf8, bytes_eq, bytes_eq_refl, if◌then◌else◌, tests,
}
use seedstone.Resp.{Frame, simple, error, integer, bulk, null, crlf, signed, line}
use seedstone.Resp.Encoding.{encoded}
use seedstone.Resp.Decoder.{
  Decoding, DecoderLimits, start, value, Kind, simple_line, error_line, integer_line, bulk_line,
  array_line, finish_bulk, look, afford, saturating_add, headroom, max_bulk_len, max_array_len,
  max_array_depth, saturating_mul, array_header, bulk_body, kind_of,
}
use seedstone.Resp.Reader.{
  read_element, read_field, text_element, integer_element, bulk_element, array_element,
  header_count, count_of,
}
use seedstone.Resp.Number.{InRange, parse_i64-signed, signed-IsLine, decimal-IsLine}
use seedstone.Resp.Line.{IsLine, seen, read_line_at}

-- The state past an element.
abbrev pub past : ℕ → ℕ → Decoding → Decoding
past next n s = record s { scan = next; examined = n; partial = start }

pub afford-ok :
    (s : Decoding) (cost : ℕ) (limits : DecoderLimits)
    → s.in_memory + cost ≤ limits.max_in_memory
    → afford s cost limits ≡ ok tt
unfolding afford headroom
afford-ok s cost limits h =
    let test : ltb (limits.max_in_memory - s.in_memory) cost ≡ false = ground arith in rw test refl

pub saturating_add_lem : (a b : ℕ) → a + b < 2 ^ 64 → saturating_add a b ≡ a + b
unfolding saturating_add
saturating_add_lem a b h = omega arith

finish_bulk-found :
    (buf : Bytes) (header : ℕ) (b rest : Bytes) (s : Decoding)
    → length buf < 2 ^ 64
    → drop (s.scan + header) buf ≡ b ++ (crlf ++ rest)
    → finish_bulk buf header (length b) s
      ≡ (ok (some (bulk b)), past (s.scan + (header + length b + 2)) (look (length b) s).examined s)
unfolding finish_bulk
finish_bulk-found buf header b rest s small e =
    let from = s.scan + header in
    let end = s.scan + (header + length b + 2) in
    let inside : end ≤ length buf =
      let many : length (drop from buf) ≡ length b + suc (suc (length rest)) =
        ap length e ∙ length-append b (crlf ++ rest) in
      omega (arith, length-drop from buf) in
    let no_overflow : leb (2 ^ 64) end ≡ false = ground arith in
    let arrived : ltb (length buf) end ≡ false = ground arith in
    let two : end - (from + length b) ≡ 2 = omega arith in
    let len : from + length b - from ≡ length b = omega arith in
    rw
      (
        no_overflow,
        arrived,
        two,
        drop_on from buf b (crlf ++ rest) e,
        len,
        e,
        take-append b (crlf ++ rest),
      )
      refl

length-line : (t : ℕ) (text : Bytes) → length (line t text) ≡ suc (length text + 2)
length-line t text = ap suc (length-append text crlf)

module _ (size_of_frame : ℕ) (limits : DecoderLimits) (buf : Bytes) (s : Decoding) where
  line_read :
      (kind : Kind) (t : ℕ) (text rest : Bytes)
      → IsLine text
      → drop s.scan buf ≡ line t text ++ rest
      → s.partial ≡ start
      → kind_of t ≡ some kind
      → t ≢ 13
      → (n : ℕ) × (read_element size_of_frame buf s limits
          ≡ read_field size_of_frame kind text buf
              (s.scan + length (line t text))
              (seen n s)
              limits)
  line_read kind t text rest h e p k c =
      let (n, r) =
        read_line_at buf s t text rest size_of_frame kind limits h
          (e ∙ ap (λ l. t ∷ l) (append_assoc text crlf rest)) p k c in
      let next : s.scan + 1 + length text + 2 ≡ s.scan + length (line t text) =
        omega (arith, length-line t text) in
      (n, r ∙ ap (λ i. read_field size_of_frame kind text buf i (seen n s) limits) next)

  abbrev pub IsRead : Frame → Type 0
  IsRead f =
      (n : ℕ) × (read_element size_of_frame buf s limits
        ≡ (ok (some (value f)), past (s.scan + length (encoded f)) n s))

  abbrev pub Stands : Frame → Bytes → Type 0
  Stands f rest = (drop s.scan buf ≡ encoded f ++ rest) × (s.partial ≡ start)

  pub simple-IsRead :
      (text rest : Bytes)
      → IsLine text
      → is_utf8 text ≡ true
      → Stands (simple text) rest
      → IsRead (simple text)
  unfolding encoded read_field text_element kind_of
  simple-IsRead text rest h u (e, p) =
      let (n, r) = line_read simple_line b'+' text rest h e p refl (ground arith) in
      (n, r ∙ rw u refl)

  pub error-IsRead :
      (text rest : Bytes)
      → IsLine text
      → is_utf8 text ≡ true
      → Stands (error text) rest
      → IsRead (error text)
  unfolding encoded read_field text_element kind_of
  error-IsRead text rest h u (e, p) =
      let (n, r) = line_read error_line b'-' text rest h e p refl (ground arith) in
      (n, r ∙ rw u refl)

  pub integer-IsRead :
      (i : ℤ) (rest : Bytes) → InRange i → Stands (integer i) rest → IsRead (integer i)
  unfolding encoded read_field integer_element kind_of
  integer-IsRead i rest h (e, p) =
      let (n, r) =
        line_read integer_line b':' (signed i) rest (signed-IsLine i) e p refl (ground arith) in
      (n, r ∙ rw (parse_i64-signed i h) refl)

  pub null-IsRead : (rest : Bytes) → Stands null rest → IsRead null
  unfolding encoded read_field bulk_element kind_of signed seedstone.Base.decimal
  null-IsRead rest (e, p) =
      let (n, r) =
        line_read bulk_line b'$' (codes "-1") rest (signed-IsLine (negsuc 0)) e p refl
          (ground arith) in
      (n, r ∙ rw (parse_i64-signed (negsuc 0) (omega arith)) refl)

  pub bulk-IsRead :
      (b rest : Bytes)
      → length buf < 2 ^ 64
      → limits.max_in_memory < 2 ^ 64
      → length b ≤ max_bulk_len
      → s.in_memory + (size_of_frame + length b) ≤ limits.max_in_memory
      → Stands (bulk b) rest
      → IsRead (bulk b)
  unfolding encoded read_field bulk_element kind_of signed
  bulk-IsRead b rest small_buf small_limit h afforded (e, p) =
      let head = line b'$' (decimal (length b)) in
      let header = length head in
      let at : drop s.scan buf ≡ head ++ (b ++ (crlf ++ rest)) =
        e ∙ append_assoc head (b ++ crlf) rest ∙ ap (λ l. head ++ l) (append_assoc b crlf rest) in
      let (n, r) =
        line_read bulk_line b'$' (decimal (length b)) (b ++ (crlf ++ rest))
          (decimal-IsLine (length b)) at p refl (ground arith) in
      let within : ltb max_bulk_len (length b) ≡ false = ground arith in
      let past_header : s.scan + header - s.scan ≡ header = omega arith in
      let wire : s.scan + (header + length b + 2) ≡ s.scan + length (encoded (bulk b)) =
        omega (arith, length-append head (b ++ crlf), length-append b crlf) in
      (
        (look (length b) (seen n s)).examined,
        r
            ∙ rw
                (
                  parse_i64-signed (pos (length b)) (omega arith),
                  within,
                  saturating_add_lem size_of_frame (length b) (omega arith),
                  afford-ok (seen n s) (size_of_frame + length b) limits afforded,
                  past_header,
                  finish_bulk-found buf header b rest
                      (record (seen n s) { partial = bulk_body header (length b) }) small_buf
                      (drop_on s.scan buf head (b ++ (crlf ++ rest)) at),
                  wire,
                )
                refl,
      )

  pub array-is_read :
      (count : ℕ) (rest : Bytes)
      → length s.stack < max_array_depth
      → count ≤ max_array_len
      → limits.max_in_memory < 2 ^ 64
      → s.in_memory + count * size_of_frame ≤ limits.max_in_memory
      → drop s.scan buf ≡ line b'*' (decimal count) ++ rest
      → s.partial ≡ start
      → (n : ℕ) × (read_element size_of_frame buf s limits ≡ (
        ok (some (array_header count)),
        past (s.scan + length (line b'*' (decimal count))) n s,
      ))
  unfolding read_field array_element header_count count_of kind_of signed headroom
  array-is_read count rest deep long small afforded e p =
      let (n, r) =
        line_read array_line b'*' (decimal count) rest (decimal-IsLine count) e p refl
          (ground arith) in
      let not_deep : ltb max_array_depth (length s.stack + 1) ≡ false = ground arith in
      let not_long : ltb max_array_len count ≡ false = ground arith in
      let fits : ltb (limits.max_in_memory - s.in_memory) (saturating_mul count size_of_frame)
          ≡ false =
        ground arith in
      (n, r ∙ rw (parse_i64-signed (pos count) (omega arith), not_deep, not_long, fits) refl)
