-- ===== src/Matrix/Debounce.antt =====
-- DRIVERS/keyboard_matrix.c: a reading that stays is reported after five scans, and one that does
-- not stay is not.
use ch583_kbd_rtt.Base.{
  ℕ, suc, ◌-◌, ◌<◌, ◌≤◌, ◌≡◌, sym, ap, ◌∙◌, ◌≢◌, inl, inr, Bool, arith, ◌==◌, ==_iff, ◌!=◌,
  Bool-cases, length, get_or,
}
use ch583_kbd_rtt.Storage.{matrix_rows}
use ch583_kbd_rtt.Matrix.Rows.{
  scan_rows_frame, scan_rows-read, scan_rows-restart, copy_rows-length, copy_rows-at,
  scan_rows-still,
}
use ch583_kbd_rtt.Matrix.{Matrix, debounce, read_cols, scan_rows, count_down, matrix_scan}

-- The arrays have their five rows, the counter is at most five, and a matrix at rest shows the rows
-- that were read last.
pub record IsValid (m : Matrix) : Type 0 where
  pub rows : length m.matrix ≡ matrix_rows
  pub read : length m.matrix_debouncing ≡ matrix_rows
  pub count : m.debouncing ≤ debounce
  pub settled :
      m.debouncing ≡ 0
      → (j : ℕ) → j < matrix_rows
      → get_or m.matrix j 0 ≡ get_or m.matrix_debouncing j 0

count_down-IsValid : (m : Matrix) → IsValid m → IsValid (count_down m)
unfolding count_down
count_down-IsValid m v = elim (Bool-cases (m.debouncing != 0)) [
  | inr rest ↦ rw rest v
  | inl going ↦ elim (Bool-cases (m.debouncing - 1 != 0)) [
    | inl more ↦
        rw (going, more)
          (record {
            rows = v.rows;
            read = v.read;
            count = omega (arith, v.count);
            settled = λ e j h. absurd (ground (arith, e, more));
          })
    | inr last ↦
        rw (going, last)
          (record {
            rows = copy_rows-length 5 0 m.matrix_debouncing m.matrix ∙ v.rows;
            read = v.read;
            count = omega arith;
            settled = λ e j h.
                copy_rows-at 5 0 m.matrix_debouncing m.matrix j (omega (arith, v.rows))
                  (omega arith) h;
          })
  ]
]

count_down_frame :
    (m : Matrix)
    → ((count_down m).matrix_debouncing ≡ m.matrix_debouncing)
      × ((count_down m).debouncing ≡ m.debouncing - 1)
      × (2 ≤ m.debouncing → (count_down m).matrix ≡ m.matrix)
unfolding count_down
count_down_frame m = ground arith

module _ (high : ℕ → ℕ → Bool) where
  abbrev cols : ℕ → ℕ
  cols row = read_cols (high row)

  -- A counter at rest after the scan means that no row was read unlike before.
  unchanged :
      (m : Matrix) (j : ℕ)
      → j < 5
      → (scan_rows 5 0 cols m).debouncing ≡ 0
      → get_or m.matrix_debouncing j 0 ≡ cols j
  unchanged m j h rest = elim (Bool-cases (get_or m.matrix_debouncing j 0 == cols j)) [
    | inl same ↦ (==_iff _ _).0 same
    | inr unlike ↦
        let differ : get_or m.matrix_debouncing j 0 ≢ cols j = ground arith in
        absurd
          (omega (arith, rest, scan_rows-restart 5 0 cols m j (omega arith) (omega arith) differ))
  ]

  scan_rows-IsValid : (m : Matrix) → IsValid m → IsValid (scan_rows 5 0 cols m)
  scan_rows-IsValid m v =
      let (rows, size, count, others) = scan_rows_frame 5 0 cols m in
      record {
        rows = ap length rows ∙ v.rows;
        read = size ∙ v.read;
        count = ground (arith, count, v.count);
        settled = λ rest j h.
            let kept = unchanged m j h rest in
            let at_rest : m.debouncing ≡ 0 = ground (arith, count, rest) in
            ap (λ xs. get_or xs j 0) rows
            ∙ v.settled at_rest j h
            ∙ kept
            ∙ sym (scan_rows-read 5 0 cols m (omega (arith, v.read)) j (omega arith) h);
      }

  pub matrix_scan-IsValid : (m : Matrix) → IsValid m → IsValid (matrix_scan high m)
  unfolding matrix_scan
  matrix_scan-IsValid m v = count_down-IsValid (scan_rows 5 0 cols m) (scan_rows-IsValid m v)

  -- The rows that were read last are those of this reading, and at most `k` scans are left.
  record Waits (k : ℕ) (m : Matrix) : Type 0 where
    valid : IsValid m
    same : (j : ℕ) → j < 5 → get_or m.matrix_debouncing j 0 ≡ cols j
    left : m.debouncing ≤ k

  first_scan : (m : Matrix) → IsValid m → Waits 4 (matrix_scan high m)
  unfolding matrix_scan
  first_scan m v =
      let n : Matrix = scan_rows 5 0 cols m in
      let v' : IsValid n = scan_rows-IsValid m v in
      let (rows, count, matrix) = count_down_frame n in
      record {
        valid = matrix_scan-IsValid m v;
        same = λ j h.
            ap (λ xs. get_or xs j 0) rows
            ∙ scan_rows-read 5 0 cols m (omega (arith, v.read)) j (omega arith) h;
        left = omega (arith, count, v'.count);
      }

  next_scan : (k : ℕ) (m : Matrix) → Waits (suc k) m → Waits k (matrix_scan high m)
  unfolding matrix_scan
  next_scan k m w =
      let still : scan_rows 5 0 cols m ≡ m =
        scan_rows-still 5 0 cols m (λ j from to. w.same j (omega arith)) in
      let (rows, count, matrix) = count_down_frame m in
      rw still (record {
        valid = count_down-IsValid m w.valid;
        same = λ j h. ap (λ xs. get_or xs j 0) rows ∙ w.same j h;
        left = omega (arith, count, w.left);
      })

  -- From a valid state, and whatever was read before, after five scans with the same reading the
  -- matrix shows that reading, row by row, and the state is valid.
  pub five_scans_settle :
      (m : Matrix)
      → IsValid m
      → let m' =
          matrix_scan high
            (matrix_scan high (matrix_scan high (matrix_scan high (matrix_scan high m)))) in
        IsValid m' × ((j : ℕ) → j < matrix_rows → get_or m'.matrix j 0 ≡ read_cols (high j))
  five_scans_settle m v =
      let w = next_scan 0 _ (next_scan 1 _ (next_scan 2 _ (next_scan 3 _ (first_scan m v)))) in
      (w.valid, λ j h. w.valid.settled (omega (arith, w.left)) j h ∙ w.same j h)

  quiet :
      (m : Matrix)
      → IsValid m
      → 2 ≤ m.debouncing
      → ((matrix_scan high m).matrix ≡ m.matrix)
        × (m.debouncing - 1 ≤ (matrix_scan high m).debouncing)
  unfolding matrix_scan
  quiet m v going =
      let n : Matrix = scan_rows 5 0 cols m in
      let (rows, size, count, others) = scan_rows_frame 5 0 cols m in
      let more : m.debouncing ≤ n.debouncing = ground (arith, count, v.count) in
      let (rows', count', matrix) = count_down_frame n in
      (matrix (omega (arith, more)) ∙ rows, omega (arith, count', more))

  restart :
      (m : Matrix) (j : ℕ)
      → j < matrix_rows
      → get_or m.matrix_debouncing j 0 ≢ read_cols (high j)
      → ((matrix_scan high m).matrix ≡ m.matrix) × ((matrix_scan high m).debouncing ≡ 4)
  unfolding matrix_scan
  restart m j h differ =
      let n : Matrix = scan_rows 5 0 cols m in
      let (rows, size, count, others) = scan_rows_frame 5 0 cols m in
      let five : n.debouncing ≡ 5 =
        scan_rows-restart 5 0 cols m j (omega arith) (omega arith) differ in
      let (rows', count', matrix) = count_down_frame n in
      (matrix (omega (arith, five)) ∙ rows, omega (arith, count', five))

-- From a valid state, a scan that reads some row unlike the scan before leaves the reported matrix
-- as it was, and so do the three scans after it, whatever they read.
pub unlike_scan_waits :
    (high a b c : ℕ → ℕ → Bool) (m : Matrix) (j : ℕ)
    → IsValid m
    → j < matrix_rows
    → get_or m.matrix_debouncing j 0 ≢ read_cols (high j)
    → let m1 = matrix_scan high m in
      let m2 = matrix_scan a m1 in
      let m3 = matrix_scan b m2 in
      let m4 = matrix_scan c m3 in
      (m1.matrix ≡ m.matrix)
      × (m2.matrix ≡ m.matrix)
      × (m3.matrix ≡ m.matrix)
      × (m4.matrix ≡ m.matrix)
unlike_scan_waits high a b c m j v h differ =
    let v1 = matrix_scan-IsValid high m v in
    let v2 = matrix_scan-IsValid a _ v1 in
    let v3 = matrix_scan-IsValid b _ v2 in
    let (e1, d1) = restart high m j h differ in
    let (e2, d2) = quiet a _ v1 (omega (arith, d1)) in
    let (e3, d3) = quiet b _ v2 (omega (arith, d1, d2)) in
    let (e4, d4) = quiet c _ v3 (omega (arith, d1, d2, d3)) in
    (e1, e2 ∙ e1, e3 ∙ e2 ∙ e1, e4 ∙ e3 ∙ e2 ∙ e1)
