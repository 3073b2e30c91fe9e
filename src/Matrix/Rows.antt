-- ===== src/Matrix/Rows.antt =====
-- DRIVERS/keyboard_matrix.c: what the loops over the rows read and copy.
use ch583_kbd_rtt.Base.{
  ℕ, zero, suc, ◌+◌, ◌<◌, ◌≤◌, ◌≡◌, refl, sym, ap, ◌∙◌, ◌≢◌, ◌⊎◌, inl, inr, true, false, List,
  arith, ◌==◌, ==_iff, ◌!=◌, Bool-cases, length, length-set, get_or, set, get_or-set_self,
  get_or-set_ne,
}
use ch583_kbd_rtt.Matrix.{Matrix, debounce, scan_row, scan_rows, copy_rows}

scan_row_self :
    (i cols : ℕ) (m : Matrix)
    → i < length m.matrix_debouncing
    → get_or (scan_row i cols m).matrix_debouncing i 0 ≡ cols
unfolding scan_row
scan_row_self i cols m inside = elim (Bool-cases (get_or m.matrix_debouncing i 0 == cols)) [
  | inl same ↦
      let e : get_or m.matrix_debouncing i 0 ≡ cols = (==_iff _ _).0 same in
      let unlike : (get_or m.matrix_debouncing i 0 != cols) ≡ false = ground arith in rw unlike e
  | inr differ ↦
      let unlike : (get_or m.matrix_debouncing i 0 != cols) ≡ true = ground arith in
      rw unlike (get_or-set_self m.matrix_debouncing i cols 0 inside)
]

-- What a row leaves of the rest.
scan_row_frame :
    (i cols : ℕ) (m : Matrix)
    → ((scan_row i cols m).matrix ≡ m.matrix)
      × (length (scan_row i cols m).matrix_debouncing ≡ length m.matrix_debouncing)
      × (((scan_row i cols m).debouncing ≡ debounce)
          ⊎ ((scan_row i cols m).debouncing ≡ m.debouncing))
      × ((j : ℕ)
          → i ≢ j
          → get_or (scan_row i cols m).matrix_debouncing j 0 ≡ get_or m.matrix_debouncing j 0)
unfolding scan_row
scan_row_frame i cols m = elim (Bool-cases (get_or m.matrix_debouncing i 0 != cols)) [
  | inl unlike ↦ rw unlike (
    refl,
    length-set m.matrix_debouncing i cols,
    inl refl,
    λ j apart. get_or-set_ne m.matrix_debouncing i j cols 0 apart,
  )
  | inr same ↦ rw same (refl, refl, inr refl, λ j apart. refl)
]

pub scan_rows_frame :
    (left i : ℕ) (cols : ℕ → ℕ) (m : Matrix)
    → ((scan_rows left i cols m).matrix ≡ m.matrix)
      × (length (scan_rows left i cols m).matrix_debouncing ≡ length m.matrix_debouncing)
      × (((scan_rows left i cols m).debouncing ≡ debounce)
          ⊎ ((scan_rows left i cols m).debouncing ≡ m.debouncing))
      × ((j : ℕ)
          → j < i
          → get_or (scan_rows left i cols m).matrix_debouncing j 0 ≡ get_or m.matrix_debouncing j 0)
unfolding scan_rows
scan_rows_frame zero i cols m = (refl, refl, inr refl, λ j before. refl)
scan_rows_frame (suc left) i cols m =
    let (rows, size, count, others) = scan_row_frame i (cols i) m in
    let (rows', size', count', others') =
      scan_rows_frame left (i + 1) cols (scan_row i (cols i) m) in
    (
      rows' ∙ rows,
      size' ∙ size,
      ground (arith, count, count'),
      λ j before. others' j (omega arith) ∙ others j (omega arith),
    )

-- After the scan every row is as it was read.
pub scan_rows-read :
    (left i : ℕ) (cols : ℕ → ℕ) (m : Matrix)
    → i + left ≤ length m.matrix_debouncing
    → (j : ℕ) → i ≤ j
    → j < i + left
    → get_or (scan_rows left i cols m).matrix_debouncing j 0 ≡ cols j
unfolding scan_rows
scan_rows-read zero i cols m fits j from to = absurd (omega arith)
scan_rows-read (suc left) i cols m fits j from to =
    let (rows, size, count, others) = scan_row_frame i (cols i) m in
    elim (Bool-cases (i == j)) [
      | inl here ↦
          let e : i ≡ j = (==_iff i j).0 here in
          let (rows', size', count', others') =
            scan_rows_frame left (i + 1) cols (scan_row i (cols i) m) in
          others' j (omega arith)
          ∙ ap (λ k. get_or (scan_row i (cols i) m).matrix_debouncing k 0) (sym e)
          ∙ scan_row_self i (cols i) m (omega arith)
          ∙ ap cols e
      | inr later ↦
          let apart : i ≢ j = ground arith in
          scan_rows-read left (i + 1) cols (scan_row i (cols i) m) (omega (arith, size)) j
            (omega (arith, apart)) (omega arith)
    ]

scan_row-restart :
    (i cols : ℕ) (m : Matrix)
    → get_or m.matrix_debouncing i 0 ≢ cols
    → (scan_row i cols m).debouncing ≡ debounce
unfolding scan_row
scan_row-restart i cols m differ =
    let unlike : (get_or m.matrix_debouncing i 0 != cols) ≡ true = ground arith in rw unlike refl

-- A row that is read unlike before restarts the count.
pub scan_rows-restart :
    (left i : ℕ) (cols : ℕ → ℕ) (m : Matrix) (j : ℕ)
    → i ≤ j
    → j < i + left
    → get_or m.matrix_debouncing j 0 ≢ cols j
    → (scan_rows left i cols m).debouncing ≡ debounce
unfolding scan_rows
scan_rows-restart zero i cols m j from to differ = absurd (omega arith)
scan_rows-restart (suc left) i cols m j from to differ = elim (Bool-cases (i == j)) [
  | inl here ↦
      let e : j ≡ i = sym ((==_iff i j).0 here) in
      let unlike : get_or m.matrix_debouncing i 0 ≢ cols i =
        λ h. differ (ap (λ k. get_or m.matrix_debouncing k 0) e ∙ h ∙ ap cols (sym e)) in
      let (rows, size, count, others) = scan_rows_frame left (i + 1) cols (scan_row i (cols i) m) in
      ground (arith, count, scan_row-restart i (cols i) m unlike)
  | inr later ↦
      let apart : i ≢ j = ground arith in
      let (rows, size, count, others) = scan_row_frame i (cols i) m in
      scan_rows-restart left (i + 1) cols (scan_row i (cols i) m) j (omega (arith, apart))
        (omega arith) (λ e. differ (sym (others j apart) ∙ e))
]

pub copy_rows-length :
    (left i : ℕ) (source rows : List ℕ) → length (copy_rows left i source rows) ≡ length rows
unfolding copy_rows
copy_rows-length zero i source rows = refl
copy_rows-length (suc left) i source rows =
    copy_rows-length left (i + 1) source (set rows i (get_or source i 0))
    ∙ length-set rows i (get_or source i 0)

copy_rows-before :
    (left i : ℕ) (source rows : List ℕ) (j : ℕ)
    → j < i
    → get_or (copy_rows left i source rows) j 0 ≡ get_or rows j 0
unfolding copy_rows
copy_rows-before zero i source rows j before = refl
copy_rows-before (suc left) i source rows j before =
    copy_rows-before left (i + 1) source (set rows i (get_or source i 0)) j (omega arith)
    ∙ get_or-set_ne rows i j (get_or source i 0) 0 (omega arith)

pub copy_rows-at :
    (left i : ℕ) (source rows : List ℕ) (j : ℕ)
    → i + left ≤ length rows
    → i ≤ j
    → j < i + left
    → get_or (copy_rows left i source rows) j 0 ≡ get_or source j 0
unfolding copy_rows
copy_rows-at zero i source rows j fits from to = absurd (omega arith)
copy_rows-at (suc left) i source rows j fits from to =
    let rows' : List ℕ = set rows i (get_or source i 0) in
    elim (Bool-cases (i == j)) [
      | inl here ↦
          let e : i ≡ j = (==_iff i j).0 here in
          copy_rows-before left (i + 1) source rows' j (omega arith)
          ∙ ap (get_at rows') (sym e)
          ∙ get_or-set_self rows i (get_or source i 0) 0 (omega arith)
          ∙ ap (get_at source) e
      | inr later ↦
          let apart : i ≢ j = ground arith in
          copy_rows-at left (i + 1) source rows' j
            (omega (arith, length-set rows i (get_or source i 0))) (omega (arith, apart))
            (omega arith)
    ]
  where
    get_at : List ℕ → ℕ → ℕ
    get_at xs k = get_or xs k 0

scan_row-still :
    (i cols : ℕ) (m : Matrix) → get_or m.matrix_debouncing i 0 ≡ cols → scan_row i cols m ≡ m
unfolding scan_row
scan_row-still i cols m e =
    let like : (get_or m.matrix_debouncing i 0 != cols) ≡ false = ground arith in rw like refl

-- A reading that is the last one changes nothing.
pub scan_rows-still :
    (left i : ℕ) (cols : ℕ → ℕ) (m : Matrix)
    → ((j : ℕ) → i ≤ j → j < i + left → get_or m.matrix_debouncing j 0 ≡ cols j)
    → scan_rows left i cols m ≡ m
unfolding scan_rows
scan_rows-still zero i cols m same = refl
scan_rows-still (suc left) i cols m same =
    ap (scan_rows left (i + 1) cols)
      (scan_row-still i (cols i) m (same i (omega arith) (omega arith)))
    ∙ scan_rows-still left (i + 1) cols m (λ j from to. same j (omega arith) (omega arith))
