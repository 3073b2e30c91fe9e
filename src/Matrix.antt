-- ===== src/Matrix.antt =====
-- DRIVERS/keyboard_matrix.c: the scan of the matrix and its debouncing, with DEBOUNCE = 5 and the
-- 5 rows and 14 columns of keyboard/zora61. The pins are a parameter: which column pins are high
-- while a row pin is driven.
pub mod Rows
pub mod Debounce
pub mod Columns
use ch583_kbd_rtt.Util.{bitpop16}
use ch583_kbd_rtt.Base.{
  Option, none, some, ℕ, zero, suc, ◌+◌, ◌-◌, Bool, true, false, List, [], ◌∷◌, ◌==◌, ◌!=◌,
  if◌then◌else◌, get_or, set, u16, u8, ◌<<<◌, bit_or,
}
use ch583_kbd_rtt.Storage.{matrix_rows, matrix_cols}

abbrev pub debounce : ℕ
debounce = 5

abbrev pub matrix_col_pins : List ℕ
matrix_col_pins = 16 ∷ 17 ∷ 18 ∷ 19 ∷ 20 ∷ 21 ∷ 22 ∷ 23 ∷ 24 ∷ 25 ∷ 31 ∷ 32 ∷ 33 ∷ 34 ∷ []

pub record Matrix : Type 0 where
  pub debouncing : ℕ
  pub matrix : List ℕ
  pub matrix_debouncing : List ℕ

-- The loop of `read_cols` from column `c`.
unfoldable pub cols_from : ℕ → ℕ → ℕ → (ℕ → Bool) → ℕ
cols_from zero c result high = result
cols_from (suc left) c result high =
    cols_from left (c + 1)
      (if high (get_or matrix_col_pins c 0) then u16 (bit_or result (1 <<< c)) else result) high

unfoldable pub read_cols : (ℕ → Bool) → ℕ
unfolding cols_from
read_cols high = cols_from matrix_cols 0 0 high

-- One row of the first loop of `matrix_scan_kb`, whose columns read `cols`.
unfoldable pub scan_row : ℕ → ℕ → Matrix → Matrix
scan_row i cols m =
    if get_or m.matrix_debouncing i 0 != cols
    then record m { matrix_debouncing = set m.matrix_debouncing i cols; debouncing = debounce }
    else m

unfoldable pub scan_rows : ℕ → ℕ → (ℕ → ℕ) → Matrix → Matrix
unfolding scan_row
scan_rows zero i cols m = m
scan_rows (suc left) i cols m = scan_rows left (i + 1) cols (scan_row i (cols i) m)

-- The loop that copies `matrix_debouncing`.
unfoldable pub copy_rows : ℕ → ℕ → List ℕ → List ℕ → List ℕ
copy_rows zero i source rows = rows
copy_rows (suc left) i source rows = copy_rows left (i + 1) source (set rows i (get_or source i 0))

-- `if (debouncing) { if (--debouncing) … else … }`
unfoldable pub count_down : Matrix → Matrix
unfolding copy_rows
count_down m =
    if m.debouncing != 0
    then if m.debouncing - 1 != 0 then record m { debouncing = m.debouncing - 1 } else record m {
      debouncing = 0;
      matrix = copy_rows matrix_rows 0 m.matrix_debouncing m.matrix;
    }
    else m

-- `matrix_scan_kb`: `select_row(i)` drives the pin of that number.
unfoldable pub matrix_scan : (ℕ → ℕ → Bool) → Matrix → Matrix
unfolding read_cols scan_rows count_down
matrix_scan high m = count_down (scan_rows matrix_rows 0 (λ row. read_cols (high row)) m)

unfoldable pub matrix_is_modified : Matrix → Bool
matrix_is_modified m = if m.debouncing != 0 then false else true

unfoldable pub matrix_get_row : ℕ → Matrix → ℕ
matrix_get_row row m = get_or m.matrix row 0

-- The loop of `matrix_key_count`.
unfoldable pub key_count_from : ℕ → ℕ → ℕ → List ℕ → Option ℕ
key_count_from zero i count rows = some count
key_count_from (suc left) i count rows = elim (bitpop16 (get_or rows i 0)) [
  | none ↦ none
  | some n ↦ key_count_from left (i + 1) (u8 (count + n)) rows
]

unfoldable pub matrix_key_count : Matrix → Option ℕ
unfolding key_count_from
matrix_key_count m = key_count_from matrix_rows 0 0 m.matrix
