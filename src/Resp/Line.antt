-- ===== src/Resp/Line.antt =====
-- What `read_element` of lib.rs does with a whole line.
use seedstone.Base.{
  ◌&&◌, ℕ, suc, ◌+◌, ◌-◌, ◌==◌, ◌≡◌, ◌≢◌, refl, ap, ◌∙◌, true, false, Bytes, some, List, [], ◌∷◌,
  ◌++◌, length, drop, arith, take-append, drop_on, get_elem?-drop,
}
use seedstone.Resp.{crlf}
use seedstone.Resp.Decoder.{
  Decoding, DecoderLimits, Kind, start, scan_line, find_crlf, skip_lines, kind_of, look, slice,
  PendingArray,
}
use seedstone.Resp.Reader.{
  read_element, read_from, read_skipped, read_typed, read_line, read_content, read_field,
}

-- A text that a line can carry: it has no CRLF.
abbrev pub IsLine : Bytes → Type 0
IsLine [] = Unit {0}
IsLine (a ∷ []) = Unit {0}
IsLine (a ∷ b ∷ text) = (a ≡ 13 → b ≢ 10) × IsLine (b ∷ text)

-- The state once a line has been found from it: the position moves later.
abbrev pub seen : ℕ → Decoding → Decoding
seen n s = record s { examined = n; partial = start }

scan_line-found :
    (i : ℕ) (text rest : Bytes)
    → IsLine text
    → scan_line i (text ++ (crlf ++ rest)) ≡ (true, i + length text)
unfolding scan_line
scan_line-found i [] rest h = let same : i + 0 ≡ i = omega arith in rw same refl
scan_line-found i (a ∷ []) rest h =
    let test : ((a == 13) && false) ≡ false = ground arith in
    let next : i + 1 ≡ suc i = omega arith in rw (test, next) refl
scan_line-found i (a ∷ b ∷ text) rest (p, h) =
    let test : ((a == 13) && (b == 10)) ≡ false = ground arith in
    let next : i + suc (suc (length text)) ≡ suc i + suc (length text) = omega arith in
    rw (test, next) (scan_line-found (suc i) (b ∷ text) rest h)

pub skip_none :
    (c : ℕ) (rest : Bytes) (s : Decoding) → c ≢ 13 → skip_lines (c ∷ rest) s ≡ (false, s)
unfolding skip_lines
skip_none c [] s h = let test : (c == 13) ≡ false = ground arith in rw test refl
skip_none c (d ∷ rest) s h = ground arith

module _ (buf : Bytes) (s : Decoding) (t : ℕ) (text rest : Bytes) where
  find_crlf-found :
      IsLine text
      → drop s.scan buf ≡ t ∷ (text ++ (crlf ++ rest))
      → s.partial ≡ start
      → find_crlf buf (s.scan + 1) (look 1 s) ≡ (
        some (s.scan + 1 + length text, s.scan + 1 + length text + 2),
        seen (look (s.scan + 1 + length text + 2 - (s.scan + 1)) (look 1 s)).examined s,
      )
  unfolding find_crlf
  find_crlf-found h e p =
      let at : drop (s.scan + 1) buf ≡ text ++ (crlf ++ rest) =
        drop_on s.scan buf (t ∷ []) (text ++ (crlf ++ rest)) e in
      rw (p, at, scan_line-found (s.scan + 1) text rest h) refl

  read_from-skipped :
      (size_of_frame : ℕ) (stack : List PendingArray) (limits : DecoderLimits)
      → drop s.scan buf ≡ t ∷ (text ++ (crlf ++ rest))
      → t ≢ 13
      → read_from size_of_frame start stack buf s limits
        ≡ read_skipped size_of_frame buf (false, s) limits
  unfolding read_from
  read_from-skipped size_of_frame [] limits e c =
      rw (e, skip_none t (text ++ (crlf ++ rest)) s c) refl
  read_from-skipped size_of_frame (top ∷ below) limits e c = refl

  slice-found :
      drop s.scan buf ≡ t ∷ (text ++ (crlf ++ rest))
      → slice buf (s.scan + 1) (s.scan + 1 + length text) ≡ text
  slice-found e =
      let at : drop (s.scan + 1) buf ≡ text ++ (crlf ++ rest) =
        drop_on s.scan buf (t ∷ []) (text ++ (crlf ++ rest)) e in
      let many : s.scan + 1 + length text - (s.scan + 1) ≡ length text = omega arith in
      rw (many, at) (take-append text (crlf ++ rest))

  -- A whole line at the read position is read by its kind, wherever the empty lines are skipped.
  pub read_line_at :
      (size_of_frame : ℕ) (kind : Kind) (limits : DecoderLimits)
      → IsLine text
      → drop s.scan buf ≡ t ∷ (text ++ (crlf ++ rest))
      → s.partial ≡ start
      → kind_of t ≡ some kind
      → t ≢ 13
      → (n : ℕ) × (read_element size_of_frame buf s limits
          ≡ read_field size_of_frame kind text buf (s.scan + 1 + length text + 2) (seen n s) limits)
  unfolding read_element read_from read_skipped read_typed read_line read_content
  read_line_at size_of_frame kind limits h e p k c = (
    (look (s.scan + 1 + length text + 2 - (s.scan + 1)) (look 1 s)).examined,
    ap (λ q. read_from size_of_frame q s.stack buf s limits) p
        ∙ read_from-skipped size_of_frame s.stack limits e c
        ∙ rw
            (
              get_elem?-drop s.scan buf (text ++ (crlf ++ rest)) t e,
              k,
              find_crlf-found h e p,
              slice-found e,
            )
            refl,
  )
