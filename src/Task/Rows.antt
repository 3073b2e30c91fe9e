-- ===== src/Task/Rows.antt =====
-- `keyboard_task` of TMK/keyboard.c: after a task `matrix_prev` is the matrix, and the events are those
-- of the keys that differ.
use mathlib.Core.Bool.{xor}
use ch583_kbd_rtt.Base.{
  ℕ, zero, suc, ◌+◌, ◌^◌, ◌<◌, ◌≤◌, ◌≡◌, ◌≢◌, refl, sym, ap, ◌∙◌, Bool, true, false, ◌&&◌,
  Bool-cases, inl, inr, arith, List, [], ◌++◌, ltb, leb, ◌==◌, ==_iff, ◌!=◌, get_or, length,
  bit_xor,
}
use ch583_kbd_rtt.Base.Bits.{bit, bit-zero, bit-bit_xor, eq_of_bits}
use ch583_kbd_rtt.Storage.{matrix_cols}
use ch583_kbd_rtt.Matrix.{Matrix, matrix_get_row}
use ch583_kbd_rtt.Keyboard.{Keyboard, Board}
use ch583_kbd_rtt.Tapping.{Tapping}
use ch583_kbd_rtt.Task.{Task, scan_cols, scan_task_row, scan_task_rows}
use ch583_kbd_rtt.Task.Changes.{
  Change, row_changes, changes, run_changes, run_changes-append, scan_cols-Scanned,
}

xor_self : (a : Bool) → xor a a ≡ false
unfolding xor
xor_self true = refl
xor_self false = refl

xor_back : (a d : Bool) → xor a (xor d a) ≡ d
unfolding xor
xor_back true true = refl
xor_back true false = refl
xor_back false true = refl
xor_back false false = refl

xor_same : (a d : Bool) → xor a d ≡ false → a ≡ d
unfolding xor
xor_same true true h = refl
xor_same true false h = h
xor_same false true h = sym h
xor_same false false h = refl

row_changes-none : (left r c now : ℕ) → row_changes left r c now now ≡ []
unfolding row_changes
row_changes-none zero r c now = refl
row_changes-none (suc left) r c now =
    rw (xor_self (bit now c)) (row_changes-none left r (c + 1) now)

-- The changes from row `r` on look at those rows only.
changes_same :
    (left r : ℕ) (now before before' : List ℕ)
    → ((j : ℕ) → r ≤ j → get_or before' j 0 ≡ get_or before j 0)
    → changes left r now before' ≡ changes left r now before
unfolding changes
changes_same zero r now before before' same = refl
changes_same (suc left) r now before before' same = rw (same r (omega arith)) (
    ap (λ xs. row_changes 14 r 0 (get_or now r 0) (get_or before r 0) ++ xs)
      (changes_same left (r + 1) now before before' (λ j h. same j (omega arith))))

same_row : (now before : ℕ) → now < 2 ^ 14 → before < 2 ^ 14 → bit_xor now before ≡ 0 → now ≡ before
same_row now before hn hb none =
    eq_of_bits 14 now before hn hb
      (λ k h. xor_same _ _ (sym (bit-bit_xor k now before) ∙ rw none (bit-zero k)))

all_columns : (k : ℕ) → k < 14 → (leb 0 k && ltb k (0 + 14)) ≡ true
all_columns k h = ground arith

no_difference : (n : ℕ) → (n != 0) ≡ false → n ≡ 0
no_difference n h = ground arith

-- What the body of the loop over the rows does.
record RowDone (b : Board) (r : ℕ) (t t' : Task) : Type 0 where
  same_matrix : t'.matrix ≡ t.matrix
  rows : length t'.matrix_prev ≡ length t.matrix_prev
  others : (j : ℕ) → r ≢ j → get_or t'.matrix_prev j 0 ≡ get_or t.matrix_prev j 0
  taken : get_or t'.matrix_prev r 0 ≡ get_or t.matrix.matrix r 0
  run :
      t'.tapping
      ≡ run_changes b
          (row_changes matrix_cols r 0 (get_or t.matrix.matrix r 0) (get_or t.matrix_prev r 0))
          t.tapping

module _ (b : Board) where
  nothing_runs :
      (r now before : ℕ) (s : Tapping Keyboard)
      → now ≡ before
      → s ≡ run_changes b (row_changes matrix_cols r 0 now before) s
  unfolding run_changes
  nothing_runs r now before s same =
      let empty : row_changes matrix_cols r 0 now before ≡ [] =
        ap (λ (x : ℕ). row_changes matrix_cols r 0 x before) same
        ∙ row_changes-none matrix_cols r 0 before in
      sym (ap (λ (xs : List Change). run_changes b xs s) empty)

  scan_task_row-RowDone :
      (r : ℕ) (t : Task)
      → r < length t.matrix_prev
      → get_or t.matrix.matrix r 0 < 2 ^ 14
      → get_or t.matrix_prev r 0 < 2 ^ 14
      → RowDone b r t (scan_task_row b r t)
  unfolding scan_task_row matrix_get_row run_changes
  scan_task_row-RowDone r t inside hn hb =
      let now = get_or t.matrix.matrix r 0 in
      let before = get_or t.matrix_prev r 0 in
      let change = bit_xor now before in
      elim (Bool-cases (change != 0)) [
        | inl some_change ↦
            let (done, run) = scan_cols-Scanned b 14 r 0 now before t (omega arith) inside in
            let t' = scan_cols b 14 r 0 1 now change t in
            let taken : get_or t'.matrix_prev r 0 ≡ now =
              eq_of_bits 14 _ now (done.small hb) hn (λ k h.
                done.flipped k
                ∙ rw (all_columns k h, bit-bit_xor k now before)
                    (xor_back (bit before k) (bit now k))) in
            rw some_change (record {
              same_matrix = done.same_matrix;
              rows = done.rows;
              others = done.others;
              taken = taken;
              run = run;
            })
        | inr none ↦
            let zero_change : change ≡ 0 = no_difference change none in
            let same = same_row now before hn hb zero_change in
            rw none (record {
              same_matrix = refl;
              rows = refl;
              others = λ j ne. refl;
              taken = sym same;
              run = nothing_runs r now before t.tapping same;
            })
      ]

  -- What the loop over the rows does from row `r` on.
  pub record RowsDone (left r : ℕ) (t t' : Task) : Type 0 where
    pub same_matrix : t'.matrix ≡ t.matrix
    pub rows : length t'.matrix_prev ≡ length t.matrix_prev
    pub below : (j : ℕ) → j < r → get_or t'.matrix_prev j 0 ≡ get_or t.matrix_prev j 0
    pub taken :
        (j : ℕ) → r ≤ j → j < r + left → get_or t'.matrix_prev j 0 ≡ get_or t.matrix.matrix j 0
    pub run : t'.tapping ≡ run_changes b (changes left r t.matrix.matrix t.matrix_prev) t.tapping

  pub scan_task_rows-RowsDone :
      (left r : ℕ) (t : Task)
      → r + left ≤ length t.matrix_prev
      → ((j : ℕ) → get_or t.matrix.matrix j 0 < 2 ^ 14)
      → ((j : ℕ) → get_or t.matrix_prev j 0 < 2 ^ 14)
      → RowsDone left r t (scan_task_rows b left r t)
  unfolding scan_task_rows changes run_changes
  scan_task_rows-RowsDone zero r t h hn hb = record {
    same_matrix = refl;
    rows = refl;
    below = λ j less. refl;
    taken = λ j from to. absurd (omega arith);
    run = refl;
  }
  scan_task_rows-RowsDone (suc left) r t h hn hb =
      let now = t.matrix.matrix in
      let t1 = scan_task_row b r t in
      let one = scan_task_row-RowDone r t (omega arith) (hn r) (hb r) in
      let hn1 : (j : ℕ) → get_or t1.matrix.matrix j 0 < 2 ^ 14 = λ j. rw one.same_matrix (hn j) in
      let hb1 : (j : ℕ) → get_or t1.matrix_prev j 0 < 2 ^ 14 = λ j. elim (Bool-cases (r == j)) [
        | inl same ↦ let e : r ≡ j = (==_iff _ _).0 same in rw (sym e, one.taken) (hn r)
        | inr other ↦ rw (one.others j (ground arith)) (hb j)
      ] in
      let rest = scan_task_rows-RowsDone left (r + 1) t1 (omega (arith, one.rows)) hn1 hb1 in
      let first = row_changes 14 r 0 (get_or now r 0) (get_or t.matrix_prev r 0) in
      record {
        same_matrix = rest.same_matrix ∙ one.same_matrix;
        rows = rest.rows ∙ one.rows;
        below = λ j less. rest.below j (omega arith) ∙ one.others j (omega arith);
        taken = λ j from to. elim (Bool-cases (r == j)) [
          | inl same ↦
              let e : r ≡ j = (==_iff _ _).0 same in
              rw (sym e) (rest.below r (omega arith) ∙ one.taken)
          | inr other ↦
              let apart : r ≢ j = ground arith in
              rest.taken j (omega (arith, apart)) (omega arith)
              ∙ ap (λ (m : Matrix). get_or m.matrix j 0) one.same_matrix
        ];
        run =
            rest.run
            ∙ ap
                (λ (m : Matrix).
                  run_changes b (changes left (r + 1) m.matrix t1.matrix_prev) t1.tapping)
                one.same_matrix
            ∙ ap (λ (xs : _). run_changes b xs t1.tapping)
                (changes_same left (r + 1) now t.matrix_prev t1.matrix_prev
                  (λ j from. one.others j (omega arith)))
            ∙ ap (run_changes b (changes left (r + 1) now t.matrix_prev)) one.run
            ∙ sym (run_changes-append b first (changes left (r + 1) now t.matrix_prev) t.tapping);
      }
