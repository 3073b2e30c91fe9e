-- ===== src/Examples/Tasks.antt =====
-- TMK/keyboard.c with a key that goes down and stays down.
use mathlib.Core.List.{Memᴰ}
use ch583_kbd_rtt.Base.{ℕ, ◌*◌, ◌≡◌, suc, ◌<◌, refl, Bool, true, ◌&&◌, arith, replicate, ◌==◌}
use ch583_kbd_rtt.Base.Bits.{bit}
use ch583_kbd_rtt.Matrix.{cols_from, read_cols}
use ch583_kbd_rtt.Task.{Task, keyboard_task, finish}
use ch583_kbd_rtt.Task.Changes.{run_changes}
use ch583_kbd_rtt.Keyboard.{Board}
use ch583_kbd_rtt.Task.Settle.{IsValid, Done, keyboard_task-Done}
use ch583_kbd_rtt.Task.Running.{start, round, begun, zeros-AreColumns, Running-IsValid}
use ch583_kbd_rtt.Task.Held.{events, tasks, held_key_reported}
use ch583_kbd_rtt.Examples.Keyboards.{one_key, at_start, start-IsSound}

-- The key of row 1 and column 2 is down.
abbrev one_high : ℕ → ℕ → Bool
one_high row pin = row == 1 && pin == 18

abbrev at_rest : Task
at_rest = record {
  matrix = record { debouncing = 0; matrix = replicate 5 0; matrix_debouncing = replicate 5 0 };
  matrix_prev = replicate 5 0;
  tapping = at_start;
}

at_rest-IsValid : IsValid at_rest
at_rest-IsValid = record {
  debounced = record { rows = refl; read = refl; count = omega arith; settled = λ e j h. refl };
  narrow = record { reported = zeros-AreColumns 5; read = zeros-AreColumns 5 };
  rows = refl;
  columns = zeros-AreColumns 5;
  sound = start-IsSound;
}

keyboard_task-Done_example : Done one_key one_high at_rest (keyboard_task one_key one_high at_rest)
keyboard_task-Done_example = keyboard_task-Done one_key one_high at_rest at_rest-IsValid

-- The time goes on from task to task.
abbrev later : ℕ → Board
later n = record one_key { rt_tick = λ k. n * 10 }

held_key_reported_example :
    (i : ℕ) × (i < 5)
    × Memᴰ (record { row = 1; col = 2; down = true }) (events later one_high i at_rest)
    × ((tasks later one_high (suc i) at_rest).tapping
        ≡ finish (later i) (
            run_changes
              (later i)
              (events later one_high i at_rest)
              (tasks later one_high i at_rest).tapping))
unfolding bit read_cols cols_from
held_key_reported_example =
    held_key_reported later one_high at_rest 1 2 true at_rest-IsValid (omega arith) (omega arith)
      refl refl

Running-IsValid_example : IsValid (keyboard_task one_key one_high begun)
Running-IsValid_example =
    Running-IsValid (keyboard_task one_key one_high begun) (round one_key one_high begun start)
