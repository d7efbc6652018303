-- ===== src/Resp/Resume.antt =====
-- The search for a terminator in lib.rs, left off and taken up again.
use seedstone.Base.{
  subst, max, append_assoc, length-append, ◌⊎◌, ℕ, zero, suc, ◌+◌, ◌-◌, ◌==◌, ◌≤◌, ◌<◌, ◌≡◌, ◌≢◌,
  refl, sym, ap, ◌∙◌, true, false, ◌&&◌, Bytes, none, some, inl, inr, Bool-cases, false≢true, [],
  ◌∷◌, ◌++◌, length, take, drop, arith, append-nil, drop-drop, drop_within, length-drop,
}
use seedstone.Resp.Line.{IsLine}
use seedstone.Resp.Decoder.{
  Decoding, Partial, start, scanned_line, bulk_body, scan_line, resume_at, find_crlf, slice, look,
}

pub scan_line-bounds :
    (i : ℕ) (l : Bytes)
    → (i ≤ (scan_line i l).1) × ((scan_line i l).0 ≡ true → (scan_line i l).1 + 2 ≤ i + length l)
unfolding scan_line
scan_line-bounds i [] = (omega arith, λ e. absurd (false≢true e))
scan_line-bounds i (a ∷ []) = (omega arith, λ e. absurd (false≢true e))
scan_line-bounds i (a ∷ b ∷ rest) =
    let later = scan_line-bounds (suc i) (b ∷ rest) in
    elim (Bool-cases ((a == 13) && (b == 10))) [
      | inl here ↦ rw here (omega arith, λ e. omega arith)
      | inr on ↦ rw on (omega (arith, later.0), λ e. omega (arith, later.1 e))
    ]

-- Where a search stopped without a terminator, it goes on when bytes follow.
scan_line-on :
    (i : ℕ) (l more : Bytes)
    → (scan_line i l).0 ≡ false
    → scan_line (scan_line i l).1 (drop ((scan_line i l).1 - i) (l ++ more))
      ≡ scan_line i (l ++ more)
unfolding scan_line
scan_line-on i [] more h = let same : i - i ≡ 0 = omega arith in rw same refl
scan_line-on i (a ∷ []) more h = let same : i - i ≡ 0 = omega arith in rw same refl
scan_line-on i (a ∷ b ∷ rest) more h = elim (Bool-cases ((a == 13) && (b == 10))) [
  | inl here ↦ absurd (false≢true (sym (rw here at h)))
  | inr on ↦
      let later = (scan_line (suc i) (b ∷ rest)).1 in
      let first = (scan_line-bounds (suc i) (b ∷ rest)).0 in
      let count : later - i ≡ suc (later - suc i) = omega (arith, first) in
      rw (on, count) (scan_line-on (suc i) (b ∷ rest) more (rw on at h))
]

-- Where a search found a terminator, it finds the same one when bytes follow.
pub scan_line-same :
    (i : ℕ) (l more : Bytes) → (scan_line i l).0 ≡ true → scan_line i (l ++ more) ≡ scan_line i l
unfolding scan_line
scan_line-same i [] more h = absurd (false≢true h)
scan_line-same i (a ∷ []) more h = absurd (false≢true h)
scan_line-same i (a ∷ b ∷ rest) more h = elim (Bool-cases ((a == 13) && (b == 10))) [
  | inl here ↦ rw here refl
  | inr on ↦ rw on (scan_line-same (suc i) (b ∷ rest) more (rw on at h))
]

cons-IsLine :
    (a b : ℕ) (rest : Bytes) (k : ℕ)
    → (a ≡ 13 → b ≢ 10)
    → IsLine (take k (b ∷ rest))
    → IsLine (a ∷ take k (b ∷ rest))
cons-IsLine a b rest zero h l = tt
cons-IsLine a b rest (suc k) h l = (h, l)

-- The text before the terminator is a line.
scan_line-IsLine :
    (i : ℕ) (l : Bytes) → (scan_line i l).0 ≡ true → IsLine (take ((scan_line i l).1 - i) l)
unfolding scan_line
scan_line-IsLine i [] h = absurd (false≢true h)
scan_line-IsLine i (a ∷ []) h = absurd (false≢true h)
scan_line-IsLine i (a ∷ b ∷ rest) h = elim (Bool-cases ((a == 13) && (b == 10))) [
  | inl here ↦ let same : i - i ≡ 0 = omega arith in rw (here, same) tt
  | inr on ↦
      let later = (scan_line (suc i) (b ∷ rest)).1 in
      let first = (scan_line-bounds (suc i) (b ∷ rest)).0 in
      let count : later - i ≡ suc (later - suc i) = omega (arith, first) in
      rw (on, count)
        (cons-IsLine a b rest (later - suc i) (λ cr lf. ground arith)
          (scan_line-IsLine (suc i) (b ∷ rest) (rw on at h)))
]

scan_line-within : (i : ℕ) (l : Bytes) → (scan_line i l).1 ≤ i + length l
unfolding scan_line
scan_line-within i [] = omega arith
scan_line-within i (a ∷ []) = omega arith
scan_line-within i (a ∷ b ∷ rest) = elim (Bool-cases ((a == 13) && (b == 10))) [
  | inl here ↦ rw here (omega arith)
  | inr on ↦ rw on (omega (arith, scan_line-within (suc i) (b ∷ rest)))
]

-- Where the search in a state starts.
abbrev pub mark : Decoding → ℕ
mark s = resume_at s.partial (s.scan + 1)

-- A search that is taken up at the mark of the state comes to what a fresh one comes to, also when
-- bytes follow.
abbrev pub Resumes : Bytes → Decoding → Type 0
Resumes buf s =
    (mark s ≤ max (s.scan + 1) (length buf))
    × ((more : Bytes)
        → scan_line (mark s) (drop (mark s) (buf ++ more))
          ≡ scan_line (s.scan + 1) (drop (s.scan + 1) (buf ++ more)))

pub resume_at-bound : (p : Partial) (from : ℕ) → from ≤ resume_at p from
resume_at-bound start from = omega arith
resume_at-bound (scanned_line scanned) from = ground arith
resume_at-bound (bulk_body header len) from = omega arith

scanned-Resumes :
    (buf : Bytes) (s : Decoding) (n : ℕ)
    → s.scan < length buf
    → Resumes buf s
    → (scan_line (mark s) (drop (mark s) buf)).0 ≡ false
    → Resumes buf (record s {
      partial = scanned_line (scan_line (mark s) (drop (mark s) buf)).1;
      examined = n;
    })
scanned-Resumes buf s n inside (within, same) h =
    let from = mark s in
    let i = (scan_line from (drop from buf)).1 in
    let first = (scan_line-bounds from (drop from buf)).0 in
    let last : i ≤ length buf =
      omega (arith, scan_line-within from (drop from buf), length-drop from buf) in
    let reached : from ≤ length buf = omega arith in
    let marked : resume_at (scanned_line i) (s.scan + 1) ≡ i =
      ground (arith, first, resume_at-bound s.partial (s.scan + 1)) in
    (
      rw marked (omega arith),
      rw marked (λ more.
          let rest : drop from (buf ++ more) ≡ drop from buf ++ more =
            drop_within from buf more reached in
          let on : drop i (buf ++ more) ≡ drop (i - from) (drop from buf ++ more) =
            let sum : from + (i - from) ≡ i = omega (arith, first) in
            ap (λ j. drop j (buf ++ more)) (sym sum)
            ∙ sym (drop-drop (i - from) from (buf ++ more))
            ∙ ap (drop (i - from)) rest in
          ap (scan_line i) on
          ∙ scan_line-on from (drop from buf) more h
          ∙ ap (scan_line from) (sym rest)
          ∙ same more),
    )

-- What a search finds in these bytes is what it finds when bytes follow.
abbrev pub Found : Bytes → Decoding → ℕ → Type 0
Found buf s i =
    (i + 2 ≤ length buf)
    × (s.scan + 1 ≤ i)
    × IsLine (slice buf (s.scan + 1) i)
    × ((more : Bytes) → scan_line (s.scan + 1) (drop (s.scan + 1) (buf ++ more)) ≡ (true, i))

pub find_crlf-cases :
    (buf : Bytes) (s : Decoding)
    → s.scan < length buf
    → Resumes buf s
    → ((i : ℕ) × (n : ℕ) × (find_crlf buf (s.scan + 1) s
          ≡ (some (i, i + 2), record s { examined = n; partial = start }))
        × Found buf s i)
      ⊎ ((i : ℕ) × (n : ℕ) × (find_crlf buf (s.scan + 1) s
            ≡ (none, record s { partial = scanned_line i; examined = n }))
          × Resumes buf (record s { partial = scanned_line i; examined = n }))
unfolding find_crlf
find_crlf-cases buf s inside (within, same) =
    let from = mark s in
    let i = (scan_line from (drop from buf)).1 in
    let reached : from ≤ length buf = omega arith in
    elim (Bool-cases (scan_line from (drop from buf)).0) [
      | inl found ↦
          let fresh : (more : Bytes)
              → scan_line (s.scan + 1) (drop (s.scan + 1) (buf ++ more)) ≡ (true, i) =
            λ more.
              sym (same more)
              ∙ ap (scan_line from) (drop_within from buf more reached)
              ∙ scan_line-same from (drop from buf) more found
              ∙ ap (λ b. (b, i)) found in
          let here : scan_line (s.scan + 1) (drop (s.scan + 1) buf) ≡ (true, i) =
            ap (λ l. scan_line (s.scan + 1) (drop (s.scan + 1) l)) (sym (append-nil buf))
            ∙ fresh [] in
          inl (
            i,
            (look (i + 2 - from) s).examined,
            rw (find_crlf, found) refl,
            (
              omega (arith, (scan_line-bounds from (drop from buf)).1 found, length-drop from buf),
              omega (
                arith,
                (scan_line-bounds from (drop from buf)).0,
                resume_at-bound s.partial (s.scan + 1),
              ),
              subst (λ j. IsLine (slice buf (s.scan + 1) j)) (ap (λ r. r.1) here)
                  (scan_line-IsLine (s.scan + 1) (drop (s.scan + 1) buf) (ap (λ r. r.0) here)),
              fresh,
            ),
          )
      | inr wait ↦ inr (
        i,
        (look (i - from) s).examined,
        rw (find_crlf, wait) refl,
        scanned-Resumes buf s (look (i - from) s).examined inside (within, same) wait,
      )
    ]

-- A mark stands when bytes follow.
pub Resumes-append : (buf more : Bytes) (s : Decoding) → Resumes buf s → Resumes (buf ++ more) s
Resumes-append buf more s (within, same) = (
  omega (arith, length-append buf more),
  λ rest.
      let one : (buf ++ more) ++ rest ≡ buf ++ (more ++ rest) = append_assoc buf more rest in
      rw one (same (more ++ rest)),
)

pub start-Resumes : (buf : Bytes) (s : Decoding) → s.partial ≡ start → Resumes buf s
start-Resumes buf s p = rw p (omega arith, λ more. refl)
