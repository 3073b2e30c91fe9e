-- ===== src/Matrix/Columns.antt =====
-- DRIVERS/keyboard_matrix.c: only the bits of the 14 columns are ever set.
use ch583_kbd_rtt.Base.{
  ℕ, zero, suc, ◌+◌, ◌-◌, ◌^◌, ◌<◌, ◌≤◌, ◌≡◌, refl, Bool, true, false, Bool-cases, inl, inr, arith,
  List, [], ◌∷◌, ltb, ltb→lt, ◌!=◌, if◌then◌else◌, get_or, set, bit_or, ◌<<<◌,
}
use ch583_kbd_rtt.Base.Bits.{bit_or-lt}
use ch583_kbd_rtt.Base.Bits.Table.{check_below, check_below_sound}
use ch583_kbd_rtt.Matrix.{
  Matrix, matrix_col_pins, cols_from, read_cols, scan_row, scan_rows, copy_rows, count_down,
  matrix_scan,
}

-- Every row has bits for columns only.
abbrev pub AreColumns : List ℕ → Type 0
AreColumns rows = (j : ℕ) → get_or rows j 0 < 2 ^ 14

columns : check_below 14 (λ (n : ℕ). ltb (1 <<< n) (2 ^ 14)) ≡ true
unfolding check_below
columns = refl

column : (c : ℕ) → c < 14 → 1 <<< c < 2 ^ 14
column c h = ltb→lt _ _ (check_below_sound 14 (λ (n : ℕ). ltb (1 <<< n) (2 ^ 14)) c columns h)

pick_lt : (b : Bool) (x y n : ℕ) → x < n → y < n → (if b then x else y) < n
pick_lt true x y n hx hy = hx
pick_lt false x y n hx hy = hy

cols_from-lt :
    (left c result : ℕ) (high : ℕ → Bool)
    → c + left ≤ 14
    → result < 2 ^ 14
    → cols_from left c result high < 2 ^ 14
unfolding cols_from
cols_from-lt zero c result high h small = small
cols_from-lt (suc left) c result high h small =
    let joined : bit_or result (1 <<< c) < 2 ^ 14 =
      bit_or-lt 14 result (1 <<< c) small (column c (omega arith)) in
    cols_from-lt left (c + 1) _ high (omega arith)
      (pick_lt (high (get_or matrix_col_pins c 0)) _ _ (2 ^ 14) (omega (arith, joined)) small)

read_cols-lt : (high : ℕ → Bool) → read_cols high < 2 ^ 14
unfolding read_cols
read_cols-lt high = cols_from-lt 14 0 0 high (omega arith) (omega arith)

set_columns : (rows : List ℕ) (i v : ℕ) → AreColumns rows → v < 2 ^ 14 → AreColumns (set rows i v)
set_columns [] i v small h j = small j
set_columns (x ∷ rows) zero v small h zero = h
set_columns (x ∷ rows) zero v small h (suc j) = small (suc j)
set_columns (x ∷ rows) (suc i) v small h zero = small 0
set_columns (x ∷ rows) (suc i) v small h (suc j) = set_columns rows i v (λ k. small (suc k)) h j

-- What is reported and what was read last have bits for columns only.
pub record IsNarrow (m : Matrix) : Type 0 where
  pub reported : AreColumns m.matrix
  pub read : AreColumns m.matrix_debouncing

scan_row-IsNarrow :
    (i cols : ℕ) (m : Matrix) → cols < 2 ^ 14 → IsNarrow m → IsNarrow (scan_row i cols m)
unfolding scan_row
scan_row-IsNarrow i cols m h v = elim (Bool-cases (get_or m.matrix_debouncing i 0 != cols)) [
  | inl new ↦
      rw new
        (record { reported = v.reported; read = set_columns m.matrix_debouncing i cols v.read h })
  | inr old ↦ rw old v
]

scan_rows-IsNarrow :
    (left i : ℕ) (cols : ℕ → ℕ) (m : Matrix)
    → ((j : ℕ) → cols j < 2 ^ 14)
    → IsNarrow m
    → IsNarrow (scan_rows left i cols m)
unfolding scan_rows
scan_rows-IsNarrow zero i cols m h v = v
scan_rows-IsNarrow (suc left) i cols m h v =
    scan_rows-IsNarrow left (i + 1) cols (scan_row i (cols i) m) h
      (scan_row-IsNarrow i (cols i) m (h i) v)

copy_rows_columns :
    (left i : ℕ) (source rows : List ℕ)
    → AreColumns source
    → AreColumns rows
    → AreColumns (copy_rows left i source rows)
unfolding copy_rows
copy_rows_columns zero i source rows hs hr = hr
copy_rows_columns (suc left) i source rows hs hr =
    copy_rows_columns left (i + 1) source (set rows i (get_or source i 0)) hs
      (set_columns rows i (get_or source i 0) hr (hs i))

pub matrix_scan-IsNarrow :
    (high : ℕ → ℕ → Bool) (m : Matrix) → IsNarrow m → IsNarrow (matrix_scan high m)
unfolding matrix_scan count_down
matrix_scan-IsNarrow high m v =
    let cols : ℕ → ℕ = λ row. read_cols (high row) in
    let n = scan_rows 5 0 cols m in
    let v' = scan_rows-IsNarrow 5 0 cols m (λ row. read_cols-lt (high row)) v in
    elim (Bool-cases (n.debouncing != 0)) [
      | inr rest ↦ rw rest v'
      | inl going ↦ elim (Bool-cases (n.debouncing - 1 != 0)) [
        | inl more ↦ rw (going, more) (record { reported = v'.reported; read = v'.read })
        | inr last ↦
            rw (going, last)
              (record {
                reported = copy_rows_columns 5 0 n.matrix_debouncing n.matrix v'.read v'.reported;
                read = v'.read;
              })
      ]
    ]
