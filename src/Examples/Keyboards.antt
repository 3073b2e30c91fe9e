-- ===== src/Examples/Keyboards.antt =====
-- TMK/action.c, its utilities and action_macro.c at a keyboard of one key, which is left control when held
-- and `a` when tapped.
use ch583_kbd_rtt.Base.{
  ℕ, zero, suc, ◌<◌, ◌≤◌, ◌≡◌, refl, All, Bool, true, false, not, ◌&&◌, ◌||◌, some, List, [], ◌∷◌,
  arith, ◌==◌, replicate, get_or,
}
use ch583_kbd_rtt.Base.Bits.{bit}
use ch583_kbd_rtt.Event.{KeyEvent, KeyRecord, no_record, no_tap}
use ch583_kbd_rtt.Layer.{layer_switch_get_action, current_layer_for_key, top_layer}
use ch583_kbd_rtt.Report.Ring.{add_key, del_key}
use ch583_kbd_rtt.Report.SixKey.{IsRing}
use ch583_kbd_rtt.Report.Nkro.{IsReport, is_down}
use ch583_kbd_rtt.Mouse.{mousekey_clear}
use ch583_kbd_rtt.Keyboard.{
  Keyboard, Board, settled, register_code, unregister_code, register_mods, type_code,
  clear_keyboard,
}
use ch583_kbd_rtt.Keyboard.Invariant.{keys-settled}
use ch583_kbd_rtt.Keyboard.Keys.{Reports, plain_key-Reports}
use ch583_kbd_rtt.Keyboard.Clear.{clear_keyboard_releases}
use ch583_kbd_rtt.Tapping.{Tapping}
use ch583_kbd_rtt.Tapping.Queue.{waiting, slots}
use ch583_kbd_rtt.Tapping.Queue
use ch583_kbd_rtt.Action.{act, get_action, action_exec}
use ch583_kbd_rtt.Action.Macro.{play, command}
use ch583_kbd_rtt.Action.Macro.Steps.{
  Step, down, up, press, release, wait, store, restore, clear, encode_all, run_steps,
  play-encode_all,
}
use ch583_kbd_rtt.Action.Macro.TapMacro.{
  action_tapmacro_play, tap_loop, tap_case, tap_position, tap_result, tap_command, byte_at,
}
use ch583_kbd_rtt.Timer.{timer_elapsed32}
use ch583_kbd_rtt.Action.Exec.{IsSound, action_exec-IsSound}
use ch583_kbd_rtt.Action.LayerKeys.{with_pressed, momentary_layer}
use ch583_kbd_rtt.Action.Lookup.{looked_up}
use ch583_kbd_rtt.Action.ModsTap.{mods_key_tapped, mods_key_held}

abbrev pub one_key : Board
one_key = record {
  action_for_key = λ layer row col. 0x2104;
  process_record_kb = λ r action. true;
  keyboard_leds = λ k. 0;
  rt_tick = λ k. 7;
}

-- One bit for each key, a driver, and nothing down.
abbrev pub quiet : Keyboard
quiet = record {
  report = record {
    raw = replicate 28 0;
    cb_head = 0;
    cb_tail = 0;
    cb_count = 0;
    real_mods = 0;
    weak_mods = 0;
    oneshot_mods = 0;
    keyboard_protocol = 1;
    keyboard_nkro = true;
  };
  layers = record { default_layer_state = 0; layer_state = 0; layer_pressed = λ row col. 0 };
  host = record { driver = true; last_system_report = 0; last_consumer_report = 0; sent = [] };
  mouse = record {
    report = record { buttons = 0; x = 0; y = 0; v = 0; h = 0 };
    mousekey_repeat = 0;
    mousekey_accel = 0;
    mk_delay = 30;
    mk_interval = 50;
    mk_max_speed = 10;
    mk_time_to_max = 20;
    mk_wheel_max_speed = 8;
    mk_wheel_time_to_max = 40;
  };
  last_timer = 0;
  jumped = false;
}

bytes_zero : (n : ℕ) → All (λ b. b < 256) (replicate {A = ℕ} n 0)
bytes_zero zero = tt
bytes_zero (suc n) = (omega arith, bytes_zero n)

quiet-IsReport : IsReport quiet.report
quiet-IsReport = record { size = refl; bytes = bytes_zero 28 }

quiet-IsRing : IsRing quiet.report
quiet-IsRing = record { head_in = omega arith; tail_in = omega arith; size = refl }

abbrev pub at_start : Tapping Keyboard
at_start = record {
  tapping_key = no_record;
  waiting_buffer = replicate 8 no_record;
  waiting_buffer_head = 0;
  waiting_buffer_tail = 0;
  keyboard = quiet;
}

start-IsValid : Queue.IsValid at_start
start-IsValid = record { size = refl; head_in = omega arith; tail_in = omega arith }

pub start-IsSound : IsSound at_start
start-IsSound = record {
  buffer = start-IsValid;
  keyboard = record { ring = quiet-IsRing; sent = tt };
}

abbrev key_event : Bool → ℕ → KeyEvent
key_event pressed time = record {
  key = record { col = 1; row = 0 };
  pressed = pressed;
  time = time;
}

abbrev tick : ℕ → KeyEvent
tick time = record { key = record { col = 255; row = 255 }; pressed = false; time = time }

-- The key is down, and nothing is decided.
abbrev pending : Tapping Keyboard
pending = record at_start { tapping_key = record { event = key_event true 101; tap = no_tap } }

mods_key_tapped_example :
    let s' =
      action_exec one_key
        (key_event false 181)
        (action_exec one_key (key_event true 101) at_start) in
    (s'.keyboard ≡ type_code one_key 4 (looked_up one_key (key_event true 101) quiet))
    × (waiting s' ≡ [])
unfolding slots get_action layer_switch_get_action current_layer_for_key top_layer
mods_key_tapped_example =
    mods_key_tapped one_key (key_event true 101) (key_event false 181) at_start start-IsValid refl
      refl refl refl refl refl refl refl (λ r action. refl) refl

mods_key_held_example :
    let s' = action_exec one_key (tick 303) pending in
    (s'.keyboard ≡ register_mods 1 (get_action one_key (key_event true 101) quiet).0)
    × (s'.tapping_key ≡ no_record)
unfolding slots get_action layer_switch_get_action current_layer_for_key top_layer
mods_key_held_example =
    mods_key_held one_key (tick 303) pending refl refl refl refl refl refl (λ r action. refl) refl

action_exec-IsSound_example : IsSound (action_exec one_key (key_event true 101) at_start)
action_exec-IsSound_example =
    action_exec-IsSound one_key (key_event true 101) at_start start-IsSound

keys-settled_example :
    (add_key 4 quiet.report ≡ some (settled quiet.report (add_key 4 quiet.report)))
    × (del_key 4 quiet.report ≡ some (settled quiet.report (del_key 4 quiet.report)))
    × IsRing (settled quiet.report (add_key 4 quiet.report))
    × IsRing (settled quiet.report (del_key 4 quiet.report))
keys-settled_example = keys-settled 4 quiet.report quiet-IsRing

plain_key-Reports_example :
    Reports quiet (register_code one_key 4 quiet) (λ d. is_down quiet.report d || 4 == d)
    × Reports quiet (unregister_code one_key 4 quiet) (λ d. is_down quiet.report d && not (4 == d))
plain_key-Reports_example =
    plain_key-Reports one_key 4 quiet refl refl quiet-IsReport refl refl refl

-- Both shifts and a key are down, and a system report has been sent.
abbrev busy : Keyboard
busy = record quiet {
  report = record quiet.report { raw = 2 ∷ 16 ∷ replicate 26 0; real_mods = 2; weak_mods = 32 };
  host = record quiet.host { last_system_report = 0x82 };
}

clear_keyboard_releases_example :
    let k' = clear_keyboard one_key busy in
    ((j : ℕ) → 1 ≤ j → j < 28 → get_or k'.report.raw j 0 ≡ 0)
    × (k'.report.real_mods ≡ 0)
    × (k'.report.weak_mods ≡ 0)
    × (k'.mouse ≡ mousekey_clear busy.mouse)
    × (k'.host.last_system_report ≡ 0)
    × (k'.host.last_consumer_report ≡ 0)
clear_keyboard_releases_example = clear_keyboard_releases one_key busy refl

-- ACTION_LAYER_MOMENTARY(3)
momentary_layer_example :
    let r : KeyRecord = record { event = key_event true 101; tap = no_tap } in
    let down = (act one_key 0xA3F1 (with_pressed true r) quiet).0 in
    let up = (act one_key 0xA3F1 (with_pressed false r) down).0 in
    (bit down.layers.layer_state 3 ≡ (bit 0 3 || 3 == 3))
    × (bit up.layers.layer_state 3 ≡ (bit 0 3 && not (3 == 3)))
    × (up.report ≡ quiet.report)
    × (up.host ≡ quiet.host)
momentary_layer_example =
    momentary_layer one_key 0xA3F1 3 (record { event = key_event true 101; tap = no_tap }) quiet
      refl (omega arith)

-- Shift is held while `a` is typed, and restored.
abbrev shifted : List Step
shifted = store ∷ clear ∷ down 0xE1 ∷ press 4 ∷ wait 10 ∷ release 4 ∷ up 0xE1 ∷ restore ∷ []

play-encode_all_example :
    play one_key (encode_all shifted (9 ∷ [])) command 0 quiet
    ≡ some (run_steps one_key shifted 0 quiet)
play-encode_all_example = play-encode_all one_key shifted (9 ∷ []) 0 quiet (
  tt,
  (tt, (tt, ((omega arith, omega arith), (tt, ((omega arith, omega arith), (tt, (tt, tt))))))),
)

-- The first tap presses and releases `a`, and goes on at byte 4; the second, in time, does so with `b`.
abbrev two_taps : List ℕ
two_taps = 1 ∷ 4 ∷ 2 ∷ 4 ∷ 1 ∷ 5 ∷ 2 ∷ 5 ∷ 0 ∷ []

tap_places_run :
    ((tap_position 1000 900 4 ≡ 4) × (tap_position 3000 900 4 ≡ 0)) × (tap_position 3000 900 0 ≡ 0)
unfolding tap_position timer_elapsed32
tap_places_run = ((refl, refl), refl)

tap_macro_run :
    action_tapmacro_play one_key 1000 (some two_taps) 4 900 quiet
    ≡ (1000, some (tap_command one_key 2 5 (tap_command one_key 1 5 quiet), 0))
unfolding action_tapmacro_play tap_loop tap_case tap_position timer_elapsed32 tap_result byte_at
tap_macro_run = refl
