-- ===== src/Resp/Append.antt =====
-- A verdict of the decoder of lib.rs does not depend on the bytes that follow.
use seedstone.Base.{
  ℕ, zero, suc, ◌+◌, ◌-◌, ℤ, pos, negsuc, ◌^◌, ◌==◌, ◌≤◌, ltb, leb, ◌≡◌, refl, ap, ◌∙◌, Option,
  none, some, Result, true, false, not, Bytes, bytes_eq, ◌&&◌, List, [], ◌∷◌, ◌++◌, length, take,
  drop, get_elem?, arith, ok, err, Bool-cases, inl, inr, subst, drop_within, take_within,
  length-drop, length-append, get_elem?_within, leb→le, get_elem?_beyond, ◌⊎◌,
}
use seedstone.Resp.{crlf}
use seedstone.Resp.Field.{ParseError, parse_i64}
use seedstone.Resp.Decoder.{
  Decoding, DecoderLimits, Partial, start, scanned_line, bulk_body, PendingArray, Kind, bulk_line,
  simple_line, error_line, integer_line, array_line, finish_bulk, as_value, slice, look, scan_line,
  find_crlf, afford, saturating_add, skip_lines, kind_of, max_bulk_len,
}
use seedstone.Resp.Reader.{
  Read, bulk_element, priced_bulk, read_field, read_content, read_line, read_typed, read_skipped,
  read_from, read_element,
}
use seedstone.Resp.Line.{skip_none}
use seedstone.Resp.Progress.{skip_lines-scan}
use seedstone.Resp.Resume.{scan_line-bounds, scan_line-same, mark, resume_at-bound}

-- The read stands, unless it ran out of bytes.
abbrev pub Stays : Read → Read → Type 0
Stays (ok none, s) r = Unit {0}
Stays (ok (some element), s) r = r ≡ (ok (some element), s)
Stays (err e, s) r = r ≡ (err e, s)

Stays-refl : (r : Read) → Stays r r
Stays-refl (ok none, s) = tt
Stays-refl (ok (some element), s) = refl
Stays-refl (err e, s) = refl

module _ (buf more : Bytes) where
  slice-append :
      (from to : ℕ) → from ≤ to → to ≤ length buf → slice (buf ++ more) from to ≡ slice buf from to
  slice-append from to h within =
      ap (take (to - from)) (drop_within from buf more (omega arith))
      ∙ take_within (to - from) (drop from buf) more (omega (arith, length-drop from buf))

  finish_bulk-Stays :
      (header len : ℕ) (s : Decoding)
      → Stays
          (as_value (finish_bulk buf header len s))
          (as_value (finish_bulk (buf ++ more) header len s))
  unfolding finish_bulk
  finish_bulk-Stays header len s =
      let end = s.scan + (header + len + 2) in
      let from = s.scan + header in
      elim (Bool-cases (leb (2 ^ 64) end)) [
        | inl large ↦ rw (finish_bulk, large) refl
        | inr fits ↦ elim (Bool-cases (ltb (length buf) end)) [
          | inl early ↦ rw (finish_bulk, fits, early) tt
          | inr whole ↦
              let later : ltb (length (buf ++ more)) end ≡ false =
                ground (arith, length-append buf more) in
              let tail = slice-append (from + len) end (omega arith) (ground arith) in
              let body = slice-append from (from + len) (omega arith) (ground arith) in
              elim (Bool-cases (not (bytes_eq (slice buf (from + len) end) crlf))) [
                | inl broken ↦ rw (finish_bulk, fits, whole, later, tail, broken) refl
                | inr closed ↦ rw (finish_bulk, fits, whole, later, tail, closed, body) refl
              ]
        ]
      ]

  module _ (size_of_frame : ℕ) where
    priced-Stays :
        (r : Result (Unit {0}) ParseError) (header len : ℕ) (s : Decoding)
        → Stays
            (priced_bulk size_of_frame buf header len s r)
            (priced_bulk size_of_frame (buf ++ more) header len s r)
    priced-Stays (err e) header len s = refl
    priced-Stays (ok u) header len s =
        finish_bulk-Stays header len (record s { partial = bulk_body header len })

    bulk-Stays :
        (r : Result ℤ ParseError) (next : ℕ) (s : Decoding) (limits : DecoderLimits)
        → Stays
            (bulk_element size_of_frame r buf next s limits)
            (bulk_element size_of_frame r (buf ++ more) next s limits)
    unfolding bulk_element
    bulk-Stays (err e) next s limits = refl
    bulk-Stays (ok (negsuc zero)) next s limits = refl
    bulk-Stays (ok (negsuc (suc n))) next s limits = refl
    bulk-Stays (ok (pos len)) next s limits = elim (Bool-cases (ltb max_bulk_len len)) [
      | inl long ↦ rw long refl
      | inr short ↦
          rw short (
            priced-Stays (afford s (saturating_add size_of_frame len) limits) (next - s.scan) len s)
    ]

    read_field-Stays :
        (kind : Kind) (field : Bytes) (next : ℕ) (s : Decoding) (limits : DecoderLimits)
        → Stays
            (read_field size_of_frame kind field buf next s limits)
            (read_field size_of_frame kind field (buf ++ more) next s limits)
    unfolding read_field
    read_field-Stays simple_line field next s limits =
        Stays-refl (read_field size_of_frame simple_line field buf next s limits)
    read_field-Stays error_line field next s limits =
        Stays-refl (read_field size_of_frame error_line field buf next s limits)
    read_field-Stays integer_line field next s limits =
        Stays-refl (read_field size_of_frame integer_line field buf next s limits)
    read_field-Stays bulk_line field next s limits = bulk-Stays (parse_i64 field) next s limits
    read_field-Stays array_line field next s limits =
        Stays-refl (read_field size_of_frame array_line field buf next s limits)

    read_content-Stays :
        (kind : Kind) (s : Decoding) (limits : DecoderLimits)
        → Stays
            (read_content size_of_frame kind buf (s.scan + 1) (find_crlf buf (s.scan + 1) s) limits)
            (read_content size_of_frame kind
              (buf ++ more)
              (s.scan + 1)
              (find_crlf (buf ++ more) (s.scan + 1) s)
              limits)
    unfolding read_content find_crlf
    read_content-Stays kind s limits =
        let from = mark s in
        let bounds = scan_line-bounds from (drop from buf) in
        let i = (scan_line from (drop from buf)).1 in
        elim (Bool-cases (scan_line from (drop from buf)).0) [
          | inl found ↦
              let inside : i + 2 ≤ length buf =
                omega (arith, bounds.0, bounds.1 found, length-drop from buf) in
              let same : scan_line from (drop from (buf ++ more)) ≡ scan_line from (drop from buf) =
                ap (scan_line from) (drop_within from buf more (omega (arith, bounds.0)))
                ∙ scan_line-same from (drop from buf) more found in
              let text : slice (buf ++ more) (s.scan + 1) i ≡ slice buf (s.scan + 1) i =
                slice-append (s.scan + 1) i
                  (omega (arith, bounds.0, resume_at-bound s.partial (s.scan + 1))) (omega arith) in
              rw (find_crlf, same, found, text)
                (read_field-Stays kind (slice buf (s.scan + 1) i) (i + 2)
                  (record (look (i + 2 - from) s) { partial = start }) limits)
          | inr wait ↦ rw (find_crlf, wait) tt
        ]

    read_line-Stays :
        (kind : Option Kind) (c : ℕ) (s : Decoding) (limits : DecoderLimits)
        → Stays
            (read_line size_of_frame kind c buf s limits)
            (read_line size_of_frame kind c (buf ++ more) s limits)
    unfolding read_line
    read_line-Stays none c s limits = refl
    read_line-Stays (some kind) c s limits = read_content-Stays kind s limits

    read_at-Stays :
        (c : Option ℕ) (s : Decoding) (limits : DecoderLimits)
        → get_elem? buf s.scan ≡ c
        → Stays
            (read_typed size_of_frame c buf s limits)
            (read_typed size_of_frame (get_elem? (buf ++ more) s.scan) (buf ++ more) s limits)
    unfolding read_typed
    read_at-Stays none s limits e = tt
    read_at-Stays (some c) s limits e =
        let same = get_elem?_within s.scan buf more c e in
        rw same (read_line-Stays (kind_of c) c (look 1 s) limits)

    read_false-Stays :
        (s : Decoding) (limits : DecoderLimits)
        → Stays
            (read_skipped size_of_frame buf (false, s) limits)
            (read_skipped size_of_frame (buf ++ more) (false, s) limits)
    unfolding read_skipped
    read_false-Stays s limits = read_at-Stays (get_elem? buf s.scan) s limits refl

    skip_lines-cases :
        (l : Bytes) (s : Decoding)
        → ((s' : Decoding) × (skip_lines l s ≡ (true, s')))
          ⊎ ((s' : Decoding) × (skip_lines l s ≡ (false, s'))
              × ((s'.scan ≡ s.scan + length l) ⊎ (skip_lines (l ++ more) s ≡ (false, s'))))
    unfolding skip_lines
    skip_lines-cases [] s = inr (s, refl, inl (omega arith))
    skip_lines-cases (a ∷ []) s = elim (Bool-cases (a == 13)) [
      | inl lone ↦ rw lone (inl (s, refl))
      | inr other ↦ rw other (inr (s, refl, inr (skip_none a more s (ground arith))))
    ]
    skip_lines-cases (a ∷ b ∷ rest) s =
        let next : Decoding = record (look 2 s) { scan = s.scan + 2; frame_start = s.scan + 2 } in
        elim (Bool-cases ((a == 13) && (b == 10))) [
          | inl here ↦ rw here (elim (skip_lines-cases rest next) [
            | inl (s', e) ↦ inl (s', e)
            | inr (s', e, inl k) ↦ inr (s', e, inl (omega arith))
            | inr (s', e, inr k) ↦ inr (s', e, inr k)
          ])
          | inr on ↦ rw on (inr (s, refl, inr refl))
        ]

    read_skipped-Stays :
        (s : Decoding) (limits : DecoderLimits)
        → Stays (read_skipped size_of_frame buf (skip_lines (drop s.scan buf) s) limits) (
            read_skipped size_of_frame
              (buf ++ more)
              (skip_lines (drop s.scan (buf ++ more)) s)
              limits)
    unfolding read_skipped read_typed
    read_skipped-Stays s limits = elim (skip_lines-cases (drop s.scan buf) s) [
      | inl (s', e) ↦ rw e tt
      | inr (s', e, inl k) ↦
          rw (e, read_skipped, get_elem?_beyond s'.scan buf (omega (arith, length-drop s.scan buf)))
            tt
      | inr (s', e, inr k) ↦ elim (Bool-cases (leb (length buf) s'.scan)) [
        | inl past ↦
            rw (e, read_skipped, get_elem?_beyond s'.scan buf (leb→le (length buf) s'.scan past)) tt
        | inr within ↦
            let moved : s.scan ≤ s'.scan =
              subst (λ r. s.scan ≤ r.1.scan) e
                (skip_lines-scan size_of_frame buf (drop s.scan buf) s) in
            let unread = drop_within s.scan buf more (ground arith) in
            rw (e, unread, k) (read_false-Stays s' limits)
      ]
    ]

    read_from-Stays :
        (p : Partial) (stack : List PendingArray) (s : Decoding) (limits : DecoderLimits)
        → Stays
            (read_from size_of_frame p stack buf s limits)
            (read_from size_of_frame p stack (buf ++ more) s limits)
    unfolding read_from
    read_from-Stays (bulk_body header len) stack s limits = finish_bulk-Stays header len s
    read_from-Stays (scanned_line scanned) stack s limits = read_false-Stays s limits
    read_from-Stays start (top ∷ below) s limits = read_false-Stays s limits
    read_from-Stays start [] s limits = read_skipped-Stays s limits

    pub read_element-Stays :
        (s : Decoding) (limits : DecoderLimits)
        → Stays
            (read_element size_of_frame buf s limits)
            (read_element size_of_frame (buf ++ more) s limits)
    unfolding read_element
    read_element-Stays s limits = read_from-Stays s.partial s.stack s limits
