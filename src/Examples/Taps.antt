-- ===== src/Examples/Taps.antt =====
-- TMK/action_tapping.c with a keyboard that writes down what it processes: column 1 is a tap key.
use ch583_kbd_rtt.Base.{
  ℕ, ◌≡◌, refl, Bool, true, false, List, [], ◌∷◌, ◌++◌, arith, ◌==◌, replicate,
}
use ch583_kbd_rtt.Event.{KeyRecord, no_record, no_tap}
use ch583_kbd_rtt.Tapping.{Actions, Tapping}
use ch583_kbd_rtt.Tapping.Machine.{action_tapping_process}
use ch583_kbd_rtt.Tapping.Queue.{IsValid, slots, waiting}
use ch583_kbd_rtt.Tapping.Scenario.{tapped, tap}

abbrev log : Actions
log = record {
  State = List KeyRecord;
  process_action = λ r s. (s ++ (r ∷ []), r);
  is_tap_key = λ e s. (s, e.key.col == 1);
  layer_switch_get_action = λ e s. (s, 0);
  clear_keyboard = λ s. s;
}

abbrev key_event : ℕ → Bool → ℕ → KeyRecord
key_event c pressed time = record {
  event = record { key = record { col = c; row = 0 }; pressed = pressed; time = time };
  tap = no_tap;
}

-- The event that action_exec gets when nothing happens.
abbrev tick : ℕ → KeyRecord
tick time = record {
  event = record { key = record { col = 255; row = 255 }; pressed = false; time = time };
  tap = no_tap;
}

abbrev start : Tapping (List KeyRecord)
start = record {
  tapping_key = no_record;
  waiting_buffer = replicate 8 no_record;
  waiting_buffer_head = 0;
  waiting_buffer_tail = 0;
  keyboard = [];
}

-- The tap key has gone down, and nothing is decided.
abbrev pending : Tapping (List KeyRecord)
pending = record start { tapping_key = key_event 1 true 100 }

abbrev crowded : Tapping (List KeyRecord)
crowded = record pending { waiting_buffer_head = 2; waiting_buffer_tail = 3 }

start-IsValid : IsValid start
start-IsValid = record { size = refl; head_in = omega arith; tail_in = omega arith }

crowded-IsValid : IsValid crowded
crowded-IsValid = record { size = refl; head_in = omega arith; tail_in = omega arith }

tap_example :
    let press = key_event 1 true 100 in
    let release = key_event 1 false 180 in
    let s' = action_tapping_process log release (action_tapping_process log press start) in
    (s'.keyboard ≡ tapped press ∷ tapped release ∷ [])
    × (s'.tapping_key ≡ tapped release)
    × (waiting s' ≡ [])
unfolding slots
tap_example =
    tap log start start-IsValid (key_event 1 true 100) (key_event 1 false 180) refl refl refl refl
      refl refl refl refl refl refl refl
