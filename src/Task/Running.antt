-- ===== src/Task/Running.antt =====
-- APP/task_thread.c: the thread of the keyboard, from the variables as the firmware starts with them:
-- those of TMK/action_util.c, action_layer.c, host.c, mousekey.c, action_tapping.c and keyboard.c, of
-- DRIVERS/keyboard_matrix.c and keyboard_host_driver.c.
use ch583_kbd_rtt.Base.{ℕ, zero, suc, refl, Bool, true, false, [], arith, replicate}
use ch583_kbd_rtt.Event.{no_record}
use ch583_kbd_rtt.Storage.{matrix_rows}
use ch583_kbd_rtt.Report.{Report}
use ch583_kbd_rtt.Layer.{Layers}
use ch583_kbd_rtt.Host.{Host, host_set_driver}
use ch583_kbd_rtt.Mouse.{Mouse}
use ch583_kbd_rtt.Matrix.{Matrix, debounce}
use ch583_kbd_rtt.Matrix.Columns.{AreColumns}
use ch583_kbd_rtt.Keyboard.{Keyboard, Board}
use ch583_kbd_rtt.Tapping.{Tapping, waiting_buffer_size}
use ch583_kbd_rtt.Task.{Task, keyboard_task}
use ch583_kbd_rtt.Task.Settle.{IsValid, keyboard_task-Done}

abbrev pub first_report : Report
first_report = record {
  raw = replicate 28 0;
  cb_head = 0;
  cb_tail = 0;
  cb_count = 0;
  real_mods = 0;
  weak_mods = 0;
  oneshot_mods = 0;
  keyboard_protocol = 1;
  keyboard_nkro = false;
}

abbrev pub first_layers : Layers
first_layers = record { default_layer_state = 0; layer_state = 0; layer_pressed = λ row col. 0 }

abbrev pub first_host : Host
first_host = record { driver = false; last_system_report = 0; last_consumer_report = 0; sent = [] }

abbrev pub first_mouse : Mouse
first_mouse = record {
  report = record { buttons = 0; x = 0; y = 0; v = 0; h = 0 };
  mousekey_repeat = 0;
  mousekey_accel = 0;
  mk_delay = 30;
  mk_interval = 50;
  mk_max_speed = 10;
  mk_time_to_max = 20;
  mk_wheel_max_speed = 8;
  mk_wheel_time_to_max = 40;
}

abbrev pub first_matrix : Matrix
first_matrix = record {
  debouncing = debounce;
  matrix = replicate matrix_rows 0;
  matrix_debouncing = replicate matrix_rows 0;
}

abbrev pub first_tapping : Keyboard → Tapping Keyboard
first_tapping k = record {
  tapping_key = no_record;
  waiting_buffer = replicate waiting_buffer_size no_record;
  waiting_buffer_head = 0;
  waiting_buffer_tail = 0;
  keyboard = k;
}

-- The thread before its loop: the pins are configured, and the driver is set.
abbrev pub begun : Task
begun = record {
  matrix = first_matrix;
  matrix_prev = replicate matrix_rows 0;
  tapping = first_tapping (record {
    report = first_report;
    layers = first_layers;
    host = host_set_driver true first_host;
    mouse = first_mouse;
    last_timer = 0;
    jumped = false;
  });
}

-- The states of the loop of `kbd_task_entry`. In each round the key map, the lights, the time and the
-- levels of the pins may be others.
pub data Running : Task → Type 0 where
  start : Running begun
  round :
      (b : Board) (high : ℕ → ℕ → Bool) (t : Task) → Running t → Running (keyboard_task b high t)

pub zeros-AreColumns : (n : ℕ) → AreColumns (replicate {A = ℕ} n 0)
zeros-AreColumns zero j = omega arith
zeros-AreColumns (suc n) zero = omega arith
zeros-AreColumns (suc n) (suc j) = zeros-AreColumns n j

begun-IsValid : IsValid begun
unfolding host_set_driver
begun-IsValid = record {
  debounced = record {
    rows = refl;
    read = refl;
    count = omega arith;
    settled = λ e j h. absurd (omega (arith, e));
  };
  narrow = record { reported = zeros-AreColumns 5; read = zeros-AreColumns 5 };
  rows = refl;
  columns = zeros-AreColumns 5;
  sound = record {
    buffer = record { size = refl; head_in = omega arith; tail_in = omega arith };
    keyboard = record {
      ring = record { head_in = omega arith; tail_in = omega arith; size = refl };
      sent = tt;
    };
  };
}

-- In the thread of the keyboard, from the first values of the variables on and after every round of
-- its loop, whatever the key map, the lights, the time and the levels of the pins in each round,
-- the state is valid: the rows are five with bits for columns only, the debouncing counter is at
-- most 5 and when it is zero the reported matrix is the one last read, the rings have their indices
-- in range, and every keyboard report that was sent has 28 bytes.
pub Running-IsValid : (t : Task) → Running t → IsValid t
Running-IsValid _ start = begun-IsValid
Running-IsValid _ (round b high t running) =
    (keyboard_task-Done b high t (Running-IsValid t running)).valid
