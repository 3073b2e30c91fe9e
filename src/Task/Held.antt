-- ===== src/Task/Held.antt =====
-- `keyboard_task` of TMK/keyboard.c with DRIVERS/keyboard_matrix.c: a key that stays down, or up, gives
-- its event.
use mathlib.Core.Bool.{xor}
use mathlib.Core.List.{Memᴰ}
use mathlib.Core.List.Memᴰ
use ch583_kbd_rtt.Base.{
  ℕ, zero, suc, ◌+◌, ◌<◌, ◌≤◌, ◌≡◌, ◌≢◌, refl, sym, ap, ◌∙◌, ◌⊎◌, inl, inr, Bool, true, false, not,
  Bool-cases, arith, List, get_or, ◌==◌, ==_iff,
}
use ch583_kbd_rtt.Base.Bits.{bit}
use ch583_kbd_rtt.Storage.{matrix_rows, matrix_cols}
use ch583_kbd_rtt.Matrix.{Matrix, read_cols, matrix_scan}
use ch583_kbd_rtt.Matrix.Debounce.{five_scans_settle}
use ch583_kbd_rtt.Keyboard.{Board}
use ch583_kbd_rtt.Task.{Task, keyboard_task, finish}
use ch583_kbd_rtt.Task.Changes.{Change, row_changes, changes, run_changes}
use ch583_kbd_rtt.Task.Settle.{IsValid, Done, keyboard_task-Done}

-- A bit that differs is among the changes.
row_changes-Mem :
    (left r c now before k : ℕ)
    → c ≤ k
    → k < c + left
    → xor (bit now k) (bit before k) ≡ true
    → Memᴰ (record { row = r; col = k; down = bit now k }) (row_changes left r c now before)
unfolding row_changes
row_changes-Mem zero r c now before k from to differ = absurd (omega arith)
row_changes-Mem (suc left) r c now before k from to differ = elim (Bool-cases (c == k)) [
  | inl here ↦ let e : c ≡ k = (==_iff _ _).0 here in rw (e, differ) (Memᴰ.head refl)
  | inr further ↦
      let later = row_changes-Mem left r (c + 1) now before k (ground arith) (omega arith) differ in
      elim (Bool-cases (xor (bit now c) (bit before c))) [
        | inl on ↦ rw on (Memᴰ.tail later)
        | inr off ↦ rw off later
      ]
]

changes-Mem :
    (left r : ℕ) (now before : List ℕ) (j k : ℕ)
    → r ≤ j
    → j < r + left
    → k < matrix_cols
    → xor (bit (get_or now j 0) k) (bit (get_or before j 0) k) ≡ true
    → Memᴰ (record { row = j; col = k; down = bit (get_or now j 0) k }) (changes left r now before)
unfolding changes
changes-Mem zero r now before j k from to column differ = absurd (omega arith)
changes-Mem (suc left) r now before j k from to column differ = elim (Bool-cases (r == j)) [
  | inl here ↦
      let e : r ≡ j = (==_iff _ _).0 here in
      rw e (
        Memᴰ.append_left _ (
          row_changes-Mem 14 j 0 (get_or now j 0) (get_or before j 0) k (omega arith) (omega arith)
            differ))
  | inr further ↦
      Memᴰ.append_right _
        (changes-Mem left (r + 1) now before j k (ground arith) (omega arith) column differ)
]

not_both : (d : Bool) → not d ≢ d
not_both true h = cc
not_both false h = cc

same_or_not : (x d : Bool) → (x ≡ d) ⊎ (x ≡ not d)
same_or_not true true = inl refl
same_or_not true false = inr refl
same_or_not false true = inr refl
same_or_not false false = inl refl

xor-not : (d : Bool) → xor d (not d) ≡ true
unfolding xor
xor-not true = refl
xor-not false = refl

-- A sequence that ends at `d` and starts at the other value takes the turn somewhere.
turn :
    (n : ℕ) (shown : ℕ → Bool) (d : Bool)
    → shown 0 ≡ not d
    → shown n ≡ d
    → (i : ℕ) × (i < n) × (shown i ≡ not d) × (shown (suc i) ≡ d)
turn zero shown d first last = absurd (not_both d (sym first ∙ last))
turn (suc n) shown d first last = elim (same_or_not (shown n) d) [
  | inl same ↦ let (i, h, off, on) = turn n shown d first same in (i, omega (arith, h), off, on)
  | inr other ↦ (n, omega arith, other, last)
]

-- The time and the lights of each task are its own: `boards i` is the board at task `i`.
module _ (boards : ℕ → Board) (high : ℕ → ℕ → Bool) where
  -- `n` tasks with the same reading.
  unfoldable pub tasks : ℕ → Task → Task
  tasks zero t = t
  tasks (suc n) t = keyboard_task (boards n) high (tasks n t)

  -- The events of task `i`, from 0 on.
  abbrev pub events : ℕ → Task → List Change
  events i t = changes matrix_rows 0 (tasks (suc i) t).matrix.matrix (tasks i t).matrix_prev

  tasks-IsValid : (n : ℕ) (t : Task) → IsValid t → IsValid (tasks n t)
  unfolding tasks
  tasks-IsValid zero t v = v
  tasks-IsValid (suc n) t v =
      (keyboard_task-Done (boards n) high (tasks n t) (tasks-IsValid n t v)).valid

  five_tasks_settle :
      (t : Task)
      → IsValid t
      → (j : ℕ) → j < matrix_rows
      → get_or (tasks 5 t).matrix_prev j 0 ≡ read_cols (high j)
  unfolding tasks
  five_tasks_settle t v j h =
      let done : (i : ℕ) → Done (boards i) high (tasks i t) (tasks (suc i) t) =
        λ i. keyboard_task-Done (boards i) high (tasks i t) (tasks-IsValid i t v) in
      let scan = matrix_scan high in
      let scans =
        (done 4).scanned
        ∙ ap scan (
            (done 3).scanned
            ∙ ap scan ((done 2).scanned ∙ ap scan ((done 1).scanned ∙ ap scan (done 0).scanned))) in
      (done 4).taken j h
      ∙ ap (λ (m : Matrix). get_or m.matrix j 0) scans
      ∙ (five_scans_settle high t.matrix v.debounced).1 j h

  -- From a valid state, when a key of the matrix reads the same (down or up) in five tasks of
  -- keyboard_task and differs from what matrix_prev has for it, the event of the key, with that
  -- reading, is among the changes of one of the five tasks, and that task gives its changes to
  -- action_exec, one after the other, before its tick.
  pub held_key_reported :
      (t : Task) (j k : ℕ) (down : Bool)
      → IsValid t
      → j < matrix_rows
      → k < matrix_cols
      → bit (read_cols (high j)) k ≡ down
      → bit (get_or t.matrix_prev j 0) k ≡ not down
      → (i : ℕ) × (i < 5)
        × Memᴰ (record { row = j; col = k; down = down }) (events i t)
        × ((tasks (suc i) t).tapping
            ≡ finish (boards i) (run_changes (boards i) (events i t) (tasks i t).tapping))
  unfolding tasks
  held_key_reported t j k down v row col reads before =
      let shown : ℕ → Bool = λ n. bit (get_or (tasks n t).matrix_prev j 0) k in
      let settled : shown 5 ≡ down =
        ap (λ (x : ℕ). bit x k) (five_tasks_settle t v j row) ∙ reads in
      let (i, soon, off, on) = turn 5 shown down before settled in
      let done = keyboard_task-Done (boards i) high (tasks i t) (tasks-IsValid i t v) in
      let now : bit (get_or (tasks (suc i) t).matrix.matrix j 0) k ≡ down =
        ap (λ (x : ℕ). bit x k) (sym (done.taken j row)) ∙ on in
      (
        i,
        soon,
        Memᴰ.cast (ap (λ (d : Bool). record { row = j; col = k; down = d }) (sym now)) (
            changes-Mem 5 0 (tasks (suc i) t).matrix.matrix (tasks i t).matrix_prev j k
              (omega arith) row col (rw (now, off) (xor-not down))),
        done.run,
      )
