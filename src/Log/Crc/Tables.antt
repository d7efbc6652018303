-- ===== src/Log/Crc/Tables.antt =====
-- A row of the tables is what a byte becomes with some bytes after it.
use mathlib.Core.List.{reverse, reverse_aux}
use seedstone.Base.{
  ℕ, zero, suc, ◌+◌, ◌*◌, ◌/◌, ◌%◌, ◌<◌, ◌≡◌, refl, sym, ap, ◌∙◌, subst, arith, bit_xor, List, [],
  ◌∷◌, length, get_or,
}
use seedstone.Log.Crc.{CrcRow, crc32_rounds, first_row, next_row, rows_after, crc_tables}
use seedstone.Log.Crc.Bitwise.{rounds_byte}

-- The row of bytes with n bytes after them.
pub record IsRow (n : ℕ) (row : CrcRow) : Type 0 where
  pub at : (i : ℕ) → i < 256 → get_or row i 0 ≡ crc32_rounds (8 + n * 8) i

pub rounds-rounds : (m n x : ℕ) → crc32_rounds m (crc32_rounds n x) ≡ crc32_rounds (n + m) x
unfolding crc32_rounds
rounds-rounds m zero x = let all : 0 + m ≡ m = omega arith in rw all refl
rounds-rounds m (suc n) x =
    let next : suc n + m ≡ suc (n + m) = omega arith in rw next (rounds-rounds m n _)

first_row_at :
    (left byte i : ℕ) → i < left → get_or (first_row left byte) i 0 ≡ crc32_rounds 8 (byte + i)
unfolding first_row
first_row_at zero byte i h = absurd (omega arith)
first_row_at (suc left) byte zero h =
    ap (crc32_rounds 8) (let same : byte ≡ byte + 0 = omega arith in same)
first_row_at (suc left) byte (suc i) h =
    first_row_at left (byte + 1) i (omega arith)
    ∙ ap (crc32_rounds 8) (let same : byte + 1 + i ≡ byte + suc i = omega arith in same)

pub first_row-IsRow : IsRow 0 (first_row 256 0)
first_row-IsRow = record {
  at = λ i h.
      first_row_at 256 0 i h ∙ ap (crc32_rounds 8) (let same : 0 + i ≡ i = omega arith in same);
}

next_row_at :
    (first prev : CrcRow) (n i : ℕ)
    → IsRow 0 first
    → i < length prev
    → get_or (next_row first prev) i 0 ≡ crc32_rounds 8 (get_or prev i 0)
unfolding next_row
next_row_at first [] n i row h = absurd (omega arith)
next_row_at first (x ∷ prev) n zero row h =
    ap (λ b. bit_xor b (x / 256)) (row.at (x % 256) (omega arith)) ∙ sym (rounds_byte x)
next_row_at first (x ∷ prev) n (suc i) row h = next_row_at first prev n i row (omega arith)

length-next_row : (first prev : CrcRow) → length (next_row first prev) ≡ length prev
unfolding next_row
length-next_row first [] = refl
length-next_row first (x ∷ prev) = ap suc (length-next_row first prev)

next_row-IsRow :
    (first prev : CrcRow) (n : ℕ)
    → IsRow 0 first
    → IsRow n prev
    → length prev ≡ 256
    → IsRow (suc n) (next_row first prev)
next_row-IsRow first prev n row prev_row width = record {
  at = λ i h.
      next_row_at first prev n i row (omega arith)
      ∙ ap (crc32_rounds 8) (prev_row.at i h)
      ∙ rounds-rounds 8 (8 + n * 8) i
      ∙ ap (λ m. crc32_rounds m i) (let same : 8 + n * 8 + 8 ≡ 8 + suc n * 8 = omega arith in same);
}

-- Rows in the order in which a block takes them: the last byte's is the first row.
abbrev pub Rows : ℕ → List CrcRow → Type 0
Rows zero [] = Unit {0}
Rows zero (row ∷ rows) = ⊥
Rows (suc n) [] = ⊥
Rows (suc n) (row ∷ rows) = IsRow n row × Rows n rows

rows_after-Rows :
    (m n : ℕ) (first prev : CrcRow) (acc : List CrcRow)
    → IsRow 0 first
    → IsRow n prev
    → length prev ≡ 256
    → Rows (suc n) acc
    → Rows (m + suc n) (reverse_aux (rows_after m first prev) acc)
unfolding rows_after
rows_after-Rows zero n first prev acc row prev_row width rows =
    subst (λ k. Rows k acc) (let same : suc n ≡ 0 + suc n = omega arith in same) rows
rows_after-Rows (suc m) n first prev acc row prev_row width rows =
    let next = next_row first prev in
    let next_is = next_row-IsRow first prev n row prev_row width in
    subst (λ k. Rows k (reverse_aux (rows_after m first next) (next ∷ acc)))
      (let same : m + suc (suc n) ≡ suc m + suc n = omega arith in same)
      (rows_after-Rows m (suc n) first next (next ∷ acc) row next_is
        (length-next_row first prev ∙ width) (next_is, rows))

length-first_row : (left byte : ℕ) → length (first_row left byte) ≡ left
unfolding first_row
length-first_row zero byte = refl
length-first_row (suc left) byte = ap suc (length-first_row left (byte + 1))

pub crc_tables-Rows : Rows 16 (reverse crc_tables)
unfolding crc_tables
crc_tables-Rows =
    let first = first_row 256 0 in
    rows_after-Rows 15 0 first first (first ∷ []) first_row-IsRow first_row-IsRow
      (length-first_row 256 0) (first_row-IsRow, tt)

pub crc_tables-first : IsRow 0 (get_or crc_tables 0 [])
unfolding crc_tables
crc_tables-first = first_row-IsRow
