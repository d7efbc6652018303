-- ===== src/Resp/Reading.antt =====
-- `read_element` of lib.rs keeps the ceilings, from the field of a line up.
use seedstone.Base.{
  ℕ, zero, suc, ◌+◌, ◌-◌, ◌==◌, ◌≤◌, ◌<◌, ltb, ◌≡◌, refl, ◌∙◌, Option, none, some, Result, ℤ, pos,
  negsuc, Bool, true, false, is_utf8, Bytes, ◌&&◌, List, [], ◌∷◌, length, drop, get_elem?, arith,
  ok, err, Bool-cases, inl, inr, subst, err≢ok, ok-inj, get_elem?-inside,
}
use seedstone.Resp.{Frame, simple, error}
use seedstone.Resp.Field.{ParseError, parse_i64, simple_not_utf8, error_not_utf8}
use seedstone.Resp.Decoder.{
  Decoding, DecoderLimits, Partial, start, scanned_line, bulk_body, PendingArray, Kind, simple_line,
  error_line, integer_line, bulk_line, array_line, value, array_header, max_array_len,
  max_array_depth, max_bulk_len, slice, look, afford, saturating_add, headroom, saturating_mul,
  find_crlf, kind_of, skip_lines,
}
use seedstone.Resp.Reader.{
  Read, text_element, integer_element, array_element, bulk_element, priced_bulk, header_count,
  count_of, read_field, read_content, read_line, read_typed, read_skipped, read_from, read_element,
}
use seedstone.Resp.Sendable.{Sendable, inner}
use seedstone.Resp.Number.{InRange}
use seedstone.Resp.Line.{IsLine}
use seedstone.Resp.Resume.{start-Resumes, find_crlf-cases}
use seedstone.Resp.Delivery.{
  CanResume, IsShort, Keeps, ReadIsSound, parse_i64-InRange, finish_bulk-IsSound,
}

module _ (size_of_frame : ℕ) (buf : Bytes) where
  text-IsSound :
      (f : Frame) (e : ParseError) (field : Bytes) (next : ℕ) (s : Decoding)
      → (is_utf8 field ≡ true → Sendable (length s.stack) f)
      → inner size_of_frame f ≡ 0
      → s.partial ≡ start
      → ReadIsSound size_of_frame buf s (text_element f e field next s)
  unfolding text_element
  text-IsSound f e field next s h i p = elim (Bool-cases (is_utf8 field)) [
    | inl text ↦
        rw (text_element, text)
          ((h text, i), (refl, refl), (rw p tt, start-Resumes buf (record s { scan = next }) p))
    | inr broken ↦ rw (text_element, broken) tt
  ]

  integer-IsSound :
      (r : Result ℤ ParseError) (next : ℕ) (s : Decoding)
      → ((i : ℤ) → r ≡ ok i → InRange i)
      → s.partial ≡ start
      → ReadIsSound size_of_frame buf s (integer_element r next s)
  unfolding integer_element Sendable inner
  integer-IsSound (err e) next s h p = tt
  integer-IsSound (ok i) next s h p =
      ((h i refl, refl), (refl, refl), (rw p tt, start-Resumes buf (record s { scan = next }) p))

  count_of-bounds :
      (r : Result ℤ ParseError) (s : Decoding) (limits : DecoderLimits) (count : ℕ)
      → count_of size_of_frame r s limits ≡ ok count
      → (count ≤ max_array_len) × (length s.stack < max_array_depth)
  unfolding count_of
  count_of-bounds (err e) s limits count h = absurd (err≢ok h)
  count_of-bounds (ok (negsuc n)) s limits count h = absurd (err≢ok h)
  count_of-bounds (ok (pos n)) s limits count h =
      elim (Bool-cases (ltb max_array_depth (length s.stack + 1))) [
        | inl deep ↦ absurd (err≢ok (rw deep at h))
        | inr shallow ↦ elim (Bool-cases (ltb max_array_len n)) [
          | inl long ↦ absurd (err≢ok (rw (shallow, long) at h))
          | inr short ↦
              elim (Bool-cases (ltb (headroom s limits) (saturating_mul n size_of_frame))) [
                | inl large ↦ absurd (err≢ok (rw (shallow, short, large) at h))
                | inr fits ↦
                    let same = ok-inj (rw (shallow, short, fits) at h) in
                    subst (λ c. (c ≤ max_array_len) × (length s.stack < max_array_depth)) same
                      (ground arith, ground arith)
              ]
        ]
      ]

  array-IsSound :
      (r : Result ℕ ParseError) (next : ℕ) (s : Decoding)
      → ((count : ℕ) → r ≡ ok count → (count ≤ max_array_len) × (length s.stack < max_array_depth))
      → s.partial ≡ start
      → ReadIsSound size_of_frame buf s (array_element size_of_frame r next s)
  unfolding array_element
  array-IsSound (err e) next s h p = tt
  array-IsSound (ok count) next s h p =
      (h count refl, (refl, refl), (rw p tt, start-Resumes buf (record s { scan = next }) p))

  priced-IsSound :
      (r : Result (Unit {0}) ParseError) (header len : ℕ) (s : Decoding)
      → len ≤ max_bulk_len
      → ReadIsSound size_of_frame buf s (priced_bulk size_of_frame buf header len s r)
  priced-IsSound (err e) header len s h = tt
  priced-IsSound (ok u) header len s h =
      finish_bulk-IsSound size_of_frame buf header len (record s { partial = bulk_body header len })
        h (h, (omega arith, λ more. refl))

  bulk-IsSound :
      (r : Result ℤ ParseError) (next : ℕ) (s : Decoding) (limits : DecoderLimits)
      → s.partial ≡ start
      → ReadIsSound size_of_frame buf s (bulk_element size_of_frame r buf next s limits)
  unfolding bulk_element Sendable inner
  bulk-IsSound (err e) next s limits p = tt
  bulk-IsSound (ok (negsuc zero)) next s limits p =
      ((tt, refl), (refl, refl), (rw p tt, start-Resumes buf (record s { scan = next }) p))
  bulk-IsSound (ok (negsuc (suc n))) next s limits p = tt
  bulk-IsSound (ok (pos len)) next s limits p = elim (Bool-cases (ltb max_bulk_len len)) [
    | inl long ↦ rw long tt
    | inr short ↦ rw short (
        priced-IsSound (afford s (saturating_add size_of_frame len) limits) (next - s.scan) len s
          (ground arith))
  ]

  read_field-IsSound :
      (kind : Kind) (field : Bytes) (next : ℕ) (s : Decoding) (limits : DecoderLimits)
      → IsLine field
      → s.partial ≡ start
      → ReadIsSound size_of_frame buf s (read_field size_of_frame kind field buf next s limits)
  unfolding read_field Sendable inner header_count
  read_field-IsSound simple_line field next s limits h p =
      text-IsSound (simple field) simple_not_utf8 field next s (λ u. (h, u)) refl p
  read_field-IsSound error_line field next s limits h p =
      text-IsSound (error field) error_not_utf8 field next s (λ u. (h, u)) refl p
  read_field-IsSound integer_line field next s limits h p =
      integer-IsSound (parse_i64 field) next s (λ i e. parse_i64-InRange field i e) p
  read_field-IsSound bulk_line field next s limits h p =
      bulk-IsSound (parse_i64 field) next s limits p
  read_field-IsSound array_line field next s limits h p =
      array-IsSound (header_count size_of_frame field s limits) next s
        (λ count e. count_of-bounds (parse_i64 field) s limits count e) p

  read_content-IsSound :
      (kind : Kind) (s : Decoding) (limits : DecoderLimits)
      → s.scan < length buf
      → CanResume buf s
      → ReadIsSound size_of_frame buf s
          (read_content size_of_frame kind buf (s.scan + 1) (find_crlf buf (s.scan + 1) s) limits)
  unfolding read_content
  read_content-IsSound kind s limits inside (short, resume) =
      elim (find_crlf-cases buf s inside resume) [
        | inl (i, n, found, (within, first, text, fresh)) ↦ rw found (
            read_field-IsSound kind (slice buf (s.scan + 1) i) (i + 2)
              (record s { examined = n; partial = start }) limits text refl)
        | inr (i, n, wait, again) ↦ rw wait ((refl, refl), (tt, again))
      ]

  read_line-IsSound :
      (kind : Option Kind) (c : ℕ) (s : Decoding) (limits : DecoderLimits)
      → s.scan < length buf
      → CanResume buf s
      → ReadIsSound size_of_frame buf s (read_line size_of_frame kind c buf s limits)
  unfolding read_line
  read_line-IsSound none c s limits inside resume = tt
  read_line-IsSound (some kind) c s limits inside resume =
      read_content-IsSound kind s limits inside resume

  read_typed-IsSound :
      (c : Option ℕ) (s : Decoding) (limits : DecoderLimits)
      → get_elem? buf s.scan ≡ c
      → CanResume buf s
      → ReadIsSound size_of_frame buf s (read_typed size_of_frame c buf s limits)
  unfolding read_typed
  read_typed-IsSound none s limits e resume = ((refl, refl), resume)
  read_typed-IsSound (some c) s limits e resume =
      read_line-IsSound (kind_of c) c (look 1 s) limits (get_elem?-inside s.scan buf c e) resume

  ReadIsSound-Keeps :
      (s s1 : Decoding) (r : Read)
      → Keeps s s1
      → ReadIsSound size_of_frame buf s1 r
      → ReadIsSound size_of_frame buf s r
  ReadIsSound-Keeps s s1 (err e, s2) (k, m) h = tt
  ReadIsSound-Keeps s s1 (ok none, s2) (k, m) ((k2, m2), resume) = ((k2 ∙ k, m2 ∙ m), resume)
  ReadIsSound-Keeps s s1 (ok (some (value f)), s2) (k, m) ((h, i), (k2, m2), resume) =
      ((subst (λ l. Sendable (length l) f) k h, i), (k2 ∙ k, m2 ∙ m), resume)
  ReadIsSound-Keeps s s1 (ok (some (array_header count)), s2) (k, m) ((h, i), (k2, m2), resume) =
      ((h, subst (λ l. length l < max_array_depth) k i), (k2 ∙ k, m2 ∙ m), resume)

  skip_lines-Keeps :
      (l : Bytes) (s : Decoding)
      → Keeps s (skip_lines l s).1 × ((skip_lines l s).1.partial ≡ s.partial)
  unfolding skip_lines
  skip_lines-Keeps [] s = ((refl, refl), refl)
  skip_lines-Keeps (a ∷ []) s = ((refl, refl), refl)
  skip_lines-Keeps (a ∷ b ∷ rest) s =
      let next : Decoding = record (look 2 s) { scan = s.scan + 2; frame_start = s.scan + 2 } in
      elim (Bool-cases ((a == 13) && (b == 10))) [
        | inl here ↦ rw here (skip_lines-Keeps rest next)
        | inr on ↦ rw on ((refl, refl), refl)
      ]

  read_skipped-IsSound :
      (s : Decoding) (r : Bool × Decoding) (limits : DecoderLimits)
      → Keeps s r.1
      → CanResume buf r.1
      → ReadIsSound size_of_frame buf s (read_skipped size_of_frame buf r limits)
  unfolding read_skipped
  read_skipped-IsSound s (true, s1) limits keeps resume = (keeps, resume)
  read_skipped-IsSound s (false, s1) limits keeps resume =
      ReadIsSound-Keeps s s1 (read_typed size_of_frame (get_elem? buf s1.scan) buf s1 limits) keeps
        (read_typed-IsSound (get_elem? buf s1.scan) s1 limits refl resume)

  read_from-IsSound :
      (p : Partial) (stack : List PendingArray) (s : Decoding) (limits : DecoderLimits)
      → s.partial ≡ p
      → CanResume buf s
      → ReadIsSound size_of_frame buf s (read_from size_of_frame p stack buf s limits)
  unfolding read_from
  read_from-IsSound (bulk_body header len) stack s limits p (short, resume) =
      finish_bulk-IsSound size_of_frame buf header len s (subst IsShort p short) (short, resume)
  read_from-IsSound (scanned_line scanned) stack s limits p resume =
      read_skipped-IsSound s (false, s) limits (refl, refl) resume
  read_from-IsSound start (top ∷ below) s limits p resume =
      read_skipped-IsSound s (false, s) limits (refl, refl) resume
  read_from-IsSound start [] s limits p resume =
      let r = skip_lines (drop s.scan buf) s in
      let (keeps, same) = skip_lines-Keeps (drop s.scan buf) s in
      read_skipped-IsSound s r limits keeps (rw (same ∙ p) tt, start-Resumes buf r.1 (same ∙ p))

  -- Whatever comes of a read, the state keeps the arrays and the account, and can be resumed.
  pub read_element-IsSound :
      (s : Decoding) (limits : DecoderLimits)
      → CanResume buf s
      → ReadIsSound size_of_frame buf s (read_element size_of_frame buf s limits)
  unfolding read_element
  read_element-IsSound s limits resume = read_from-IsSound s.partial s.stack s limits refl resume
