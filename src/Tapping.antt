-- ===== src/Tapping.antt =====
-- TMK/action_tapping.c: the state of the tapping code and its waiting buffer. TAPPING_TERM is the
-- default of action_tapping.h, 200, so the branch for terms of 500 and more is not compiled.
-- Debug output is left out.
pub mod Machine
pub mod Queue
pub mod Keyboard
pub mod Invariant
pub mod Single
pub mod Scenario
use ch583_kbd_rtt.Base.{
  ℕ, zero, suc, ◌+◌, ◌-◌, ◌%◌, Bool, true, false, not, ◌&&◌, ◌||◌, Option, none, some, List, [],
  ◌∷◌, ltb, ◌==◌, if◌then◌else◌, get_or, set, replicate,
}
use ch583_kbd_rtt.Event.{
  KeyPos, KeyEvent, Tap, KeyRecord, keyeq, is_noevent, no_record, timer_diff_16,
}

abbrev pub tapping_term : ℕ
tapping_term = 200

abbrev pub waiting_buffer_size : ℕ
waiting_buffer_size = 8

-- What action_tapping.c calls in action.c and action_layer.c, over the state that those keep.
-- `process_action` takes a pointer to a record, and returns what it leaves there.
pub record Actions : Type 1 where
  pub State : Type 0
  pub process_action : KeyRecord → State → State × KeyRecord
  pub is_tap_key : KeyEvent → State → State × Bool
  pub layer_switch_get_action : KeyEvent → State → State × ℕ
  pub clear_keyboard : State → State

-- The statics of action_tapping.c, and the rest of the keyboard.
pub record Tapping (S : Type 0) : Type 0 where
  pub tapping_key : KeyRecord
  pub waiting_buffer : List KeyRecord
  pub waiting_buffer_head : ℕ
  pub waiting_buffer_tail : ℕ
  pub keyboard : S

abbrev pub slot : List KeyRecord → ℕ → KeyRecord
slot buffer i = get_or buffer i no_record

abbrev pub next_slot : ℕ → ℕ
next_slot i = (i + 1) % waiting_buffer_size

-- The rounds of `for (i = tail; i != head; i = (i + 1) % WAITING_BUFFER_SIZE)`.
abbrev pub rounds : ℕ → ℕ → ℕ
rounds head tail = (head + waiting_buffer_size - tail) % waiting_buffer_size

-- `IS_TAPPING`, `IS_TAPPING_PRESSED`, `IS_TAPPING_RELEASED`
abbrev pub is_tapping : KeyRecord → Bool
is_tapping t = not (is_noevent t.event)

abbrev pub is_tapping_pressed : KeyRecord → Bool
is_tapping_pressed t = is_tapping t && t.event.pressed

abbrev pub is_tapping_released : KeyRecord → Bool
is_tapping_released t = is_tapping t && not t.event.pressed

-- `IS_TAPPING_KEY`
abbrev pub is_tapping_key : KeyRecord → KeyPos → Bool
is_tapping_key t k = is_tapping t && keyeq t.event.key k

-- `WITHIN_TAPPING_TERM`
abbrev pub within_tapping_term : KeyRecord → KeyEvent → Bool
within_tapping_term t e = ltb (timer_diff_16 e.time t.event.time) tapping_term

-- `waiting_buffer_typed`: the loop from slot `i`.
unfoldable pub typed_from : ℕ → ℕ → KeyEvent → List KeyRecord → Bool
typed_from zero i e buffer = false
typed_from (suc left) i e buffer =
    let rest = typed_from left (next_slot i) e buffer in
    let other = (slot buffer i).event in
    if keyeq e.key other.key
      && ((e.pressed && not other.pressed) || (not e.pressed && other.pressed))
    then true
    else rest

-- The slot at which `waiting_buffer_scan_tap` finds the release of the tapping key.
unfoldable pub find_release : ℕ → ℕ → KeyRecord → List KeyRecord → Option ℕ
find_release zero i t buffer = none
find_release (suc left) i t buffer =
    let rest = find_release left (next_slot i) t buffer in
    let other = (slot buffer i).event in
    if is_tapping_key t other.key && not other.pressed && within_tapping_term t other
    then some i
    else rest

module _ {S : Type 0} where
  unfoldable pub waiting_buffer_enq : KeyRecord → Tapping S → Tapping S × Bool
  waiting_buffer_enq r s =
      if is_noevent r.event
      then (s, true)
      else if next_slot s.waiting_buffer_head == s.waiting_buffer_tail
      then (s, false)
      else (
        record s {
          waiting_buffer = set s.waiting_buffer s.waiting_buffer_head r;
          waiting_buffer_head = next_slot s.waiting_buffer_head;
        },
        true,
      )

  unfoldable pub waiting_buffer_clear : Tapping S → Tapping S
  waiting_buffer_clear s = record s { waiting_buffer_head = 0; waiting_buffer_tail = 0 }

  unfoldable pub waiting_buffer_typed : KeyEvent → Tapping S → Bool
  unfolding typed_from
  waiting_buffer_typed e s =
      typed_from (rounds s.waiting_buffer_head s.waiting_buffer_tail) s.waiting_buffer_tail e
        s.waiting_buffer

  unfoldable pub initial : S → Tapping S
  initial k = record {
    tapping_key = no_record;
    waiting_buffer = replicate waiting_buffer_size no_record;
    waiting_buffer_head = 0;
    waiting_buffer_tail = 0;
    keyboard = k;
  }
