-- ===== src/Task/Settle.antt =====
-- `keyboard_task` of TMK/keyboard.c: the whole task, from a valid state.
use ch583_kbd_rtt.Base.{
  ℕ, zero, suc, ◌<◌, ◌≤◌, ◌≡◌, refl, sym, ap, ◌∙◌, Bool, false, inl, inr, Bool-cases, arith, List,
  [], ◌∷◌, ltb, ltb→lt, get_or, length,
}
use ch583_kbd_rtt.Storage.{matrix_rows}
use ch583_kbd_rtt.Timer.{timer_elapsed}
use ch583_kbd_rtt.Matrix.{Matrix, matrix_scan}
use ch583_kbd_rtt.Matrix.Debounce
use ch583_kbd_rtt.Matrix.Debounce.{matrix_scan-IsValid}
use ch583_kbd_rtt.Matrix.Columns.{AreColumns, IsNarrow, matrix_scan-IsNarrow}
use ch583_kbd_rtt.Mouse.Repeat.{is_still, repeat_delay}
use ch583_kbd_rtt.Keyboard.{Keyboard, Board}
use ch583_kbd_rtt.Keyboard.Invariant
use ch583_kbd_rtt.Keyboard.Valid.{send_mouse-IsValid}
use ch583_kbd_rtt.Tapping.{Tapping}
use ch583_kbd_rtt.Action.Exec.{IsSound, action_exec-IsSound}
use ch583_kbd_rtt.Task.{
  Task, exec_now, event_now, scan_task_rows, mousekey_task, finish, keyboard_task,
}
use ch583_kbd_rtt.Task.Changes.{Change, changes, run_changes}
use ch583_kbd_rtt.Task.Rows.{scan_task_rows-RowsDone}

-- The matrix is valid, its rows and those of `matrix_prev` have bits for columns only, and the tapping
-- code and the keyboard are valid.
pub record IsValid (t : Task) : Type 0 where
  pub debounced : Debounce.IsValid t.matrix
  pub narrow : IsNarrow t.matrix
  pub rows : length t.matrix_prev ≡ matrix_rows
  pub columns : AreColumns t.matrix_prev
  pub sound : IsSound t.tapping

get_or_beyond : (xs : List ℕ) (j : ℕ) → length xs ≤ j → get_or xs j 0 ≡ 0
get_or_beyond [] j h = refl
get_or_beyond (x ∷ xs) zero h = absurd (omega arith)
get_or_beyond (x ∷ xs) (suc j) h = get_or_beyond xs j (omega arith)

-- Five rows that are those of a narrow matrix.
five_columns :
    (xs ys : List ℕ)
    → length xs ≡ matrix_rows
    → ((j : ℕ) → j < matrix_rows → get_or xs j 0 ≡ get_or ys j 0)
    → AreColumns ys
    → AreColumns xs
five_columns xs ys size same narrow j = elim (Bool-cases (ltb j matrix_rows)) [
  | inl inside ↦ rw (same j (ltb→lt j matrix_rows inside)) (narrow j)
  | inr outside ↦
      let far : matrix_rows ≤ j = ground (arith, outside) in
      rw (get_or_beyond xs j (omega (arith, size, far))) (omega arith)
]

module _ (b : Board) where
  open b use {rt_tick}

  run_changes-IsSound :
      (xs : List Change) (s : Tapping Keyboard) → IsSound s → IsSound (run_changes b xs s)
  unfolding run_changes exec_now
  run_changes-IsSound [] s v = v
  run_changes-IsSound (x ∷ xs) s v =
      run_changes-IsSound xs _
        (action_exec-IsSound b (event_now b x.row x.col x.down s.keyboard) s v)

  mousekey_task-IsValid :
      (k : Keyboard) → Invariant.IsValid k → Invariant.IsValid (mousekey_task b k)
  unfolding mousekey_task
  mousekey_task-IsValid k v =
      Invariant.IsValid-if (ltb (timer_elapsed (rt_tick k) k.last_timer) (repeat_delay k.mouse)) _ _
        v (Invariant.IsValid-if (is_still k.mouse) _ _ v (send_mouse-IsValid b _ k v))

  finish-IsSound : (s : Tapping Keyboard) → IsSound s → IsSound (finish b s)
  unfolding finish exec_now
  finish-IsSound s v =
      let v' = action_exec-IsSound b (event_now b 255 255 false s.keyboard) s v in
      record {
        buffer = record {
          size = v'.buffer.size;
          head_in = v'.buffer.head_in;
          tail_in = v'.buffer.tail_in;
        };
        keyboard = mousekey_task-IsValid _ v'.keyboard;
      }

  -- What a task with `high` does, from a valid state.
  pub record Done (high : ℕ → ℕ → Bool) (t t' : Task) : Type 0 where
    pub scanned : t'.matrix ≡ matrix_scan high t.matrix
    pub taken : (j : ℕ) → j < matrix_rows → get_or t'.matrix_prev j 0 ≡ get_or t'.matrix.matrix j 0
    pub run :
        t'.tapping
        ≡ finish b (run_changes b (changes matrix_rows 0 t'.matrix.matrix t.matrix_prev) t.tapping)
    pub valid : IsValid t'

  -- From a valid state, a task scans the matrix, gives action_exec an event for each key whose bit
  -- differs from that of matrix_prev, in the order of rows and columns, and then does the tick and
  -- the mouse keys; afterwards matrix_prev has the rows of the matrix, and the state is valid.
  pub keyboard_task-Done :
      (high : ℕ → ℕ → Bool) (t : Task) → IsValid t → Done high t (keyboard_task b high t)
  unfolding keyboard_task
  keyboard_task-Done high t v =
      let m = matrix_scan high t.matrix in
      let narrow = matrix_scan-IsNarrow high t.matrix v.narrow in
      let start : Task = record t { matrix = m } in
      let rows =
        scan_task_rows-RowsDone b 5 0 start (omega (arith, v.rows)) narrow.reported v.columns in
      let end = scan_task_rows b 5 0 start in
      let same : end.matrix ≡ m = rows.same_matrix in
      let size : length end.matrix_prev ≡ 5 = rows.rows ∙ v.rows in
      let taken : (j : ℕ) → j < 5 → get_or end.matrix_prev j 0 ≡ get_or m.matrix j 0 =
        λ j h. rows.taken j (omega arith) h in
      record {
        scanned = same;
        taken = λ j h. rw same (taken j h);
        run = ap (finish b) (
            rows.run
            ∙ ap
                (λ (x : Matrix).
                  run_changes b (changes matrix_rows 0 x.matrix t.matrix_prev) t.tapping)
                (sym same));
        valid = record {
          debounced = rw same (matrix_scan-IsValid high t.matrix v.debounced);
          narrow = rw same narrow;
          rows = size;
          columns = five_columns end.matrix_prev m.matrix size taken narrow.reported;
          sound =
              finish-IsSound end.tapping (rw rows.run (run_changes-IsSound _ t.tapping v.sound));
        };
      }
