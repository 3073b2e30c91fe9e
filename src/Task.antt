-- ===== src/Task.antt =====
-- `keyboard_task` of TMK/keyboard.c: a scan of the matrix, an event for each key that changed, and the
-- tick. keyboard/zora61 defines MOUSEKEY_ENABLE, and neither MATRIX_HAS_GHOST, RGB_TOP_ENABLE nor
-- another mouse; the hooks are empty, and debug output is left out.
pub mod Changes
pub mod Rows
pub mod Settle
pub mod Held
pub mod Running
use ch583_kbd_rtt.Base.{
  ℕ, zero, suc, ◌+◌, ◌*◌, Bool, true, false, List, ltb, ◌==◌, ◌!=◌, if◌then◌else◌, get_or, set,
  bit_and, bit_or, bit_xor, u16,
}
use ch583_kbd_rtt.Event.{KeyEvent}
use ch583_kbd_rtt.Timer.{timer_read, timer_elapsed}
use ch583_kbd_rtt.Storage.{matrix_rows, matrix_cols}
use ch583_kbd_rtt.Matrix.{Matrix, matrix_scan, matrix_get_row}
use ch583_kbd_rtt.Mouse.Repeat.{is_still, repeat_move, repeat_delay}
use ch583_kbd_rtt.Keyboard.{Keyboard, Board, mouse_send}
use ch583_kbd_rtt.Tapping.{Tapping}
use ch583_kbd_rtt.Action.{action_exec}

-- The whole keyboard; `matrix_prev` is the static of `keyboard_task`.
pub record Task : Type 0 where
  pub matrix : Matrix
  pub matrix_prev : List ℕ
  pub tapping : Tapping Keyboard

module _ (b : Board) where
  open b use {rt_tick}

  -- An event of now.
  unfoldable pub event_now : ℕ → ℕ → Bool → Keyboard → KeyEvent
  unfolding timer_read
  event_now row col pressed k = record {
    key = record { col = col; row = row };
    pressed = pressed;
    time = bit_or (timer_read (rt_tick k)) 1;
  }

  unfoldable pub exec_now : ℕ → ℕ → Bool → Tapping Keyboard → Tapping Keyboard
  unfolding event_now action_exec
  exec_now row col pressed s = action_exec b (event_now row col pressed s.keyboard) s

  -- The body of the loop over the columns.
  unfoldable pub key_changed : ℕ → ℕ → ℕ → ℕ → Task → Task
  unfolding exec_now
  key_changed r c mask row t = record t {
    tapping = exec_now r c (bit_and row mask != 0) t.tapping;
    matrix_prev = set t.matrix_prev r (bit_xor (get_or t.matrix_prev r 0) mask);
  }

  -- The loop over the columns from column `c`, with `left` of them to go.
  unfoldable pub scan_cols : ℕ → ℕ → ℕ → ℕ → ℕ → ℕ → Task → Task
  unfolding key_changed
  scan_cols zero r c mask row change t = t
  scan_cols (suc left) r c mask row change t =
      scan_cols left r (c + 1) (u16 (mask * 2)) row change
        (if bit_and change mask != 0 then key_changed r c mask row t else t)

  -- The body of the loop over the rows.
  unfoldable pub scan_task_row : ℕ → Task → Task
  unfolding scan_cols matrix_get_row
  scan_task_row r t =
      let row = matrix_get_row r t.matrix in
      let change = bit_xor row (get_or t.matrix_prev r 0) in
      if change != 0 then scan_cols matrix_cols r 0 1 row change t else t

  unfoldable pub scan_task_rows : ℕ → ℕ → Task → Task
  unfolding scan_task_row
  scan_task_rows zero r t = t
  scan_task_rows (suc left) r t = scan_task_rows left (r + 1) (scan_task_row r t)

  -- `mousekey_task`
  unfoldable pub mousekey_task : Keyboard → Keyboard
  unfolding timer_elapsed repeat_delay is_still repeat_move mouse_send
  mousekey_task k =
      if ltb (timer_elapsed (rt_tick k) k.last_timer) (repeat_delay k.mouse)
      then k
      else if is_still k.mouse
      then k
      else mouse_send b (record k { mouse = repeat_move k.mouse })

  -- The tick, and what follows it.
  unfoldable pub finish : Tapping Keyboard → Tapping Keyboard
  unfolding exec_now mousekey_task
  finish s =
      let ticked = exec_now 255 255 false s in
      record ticked { keyboard = mousekey_task ticked.keyboard }

  unfoldable pub keyboard_task : (ℕ → ℕ → Bool) → Task → Task
  unfolding matrix_scan scan_task_rows finish
  keyboard_task high t =
      let t' = scan_task_rows matrix_rows 0 (record t { matrix = matrix_scan high t.matrix }) in
      record t' { tapping = finish t'.tapping }
