-- ===== src/Event.antt =====
-- TMK/keyboard.h, action.h and timer.h: key positions, key events, the record that carries an
-- event through the tapping code, and the differences of 16-bit times.
use ch583_kbd_rtt.Base.{ℕ, ◌+◌, ◌-◌, Bool, false, not, ◌&&◌, ◌||◌, ◌==◌, u16}

-- `keypos_t`
pub record KeyPos : Type 0 where
  pub col : ℕ
  pub row : ℕ

-- `keyevent_t`
pub record KeyEvent : Type 0 where
  pub key : KeyPos
  pub pressed : Bool
  pub time : ℕ

-- `tap_t`, less its reserved bits
pub record Tap : Type 0 where
  pub interrupted : Bool
  pub count : ℕ

-- `keyrecord_t`
pub record KeyRecord : Type 0 where
  pub event : KeyEvent
  pub tap : Tap

-- `KEYEQ`
abbrev pub keyeq : KeyPos → KeyPos → Bool
keyeq a b = a.row == b.row && a.col == b.col

-- `IS_NOEVENT`
abbrev pub is_noevent : KeyEvent → Bool
is_noevent e = e.time == 0 || (e.key.row == 255 && e.key.col == 255)

-- `IS_PRESSED`
abbrev pub is_pressed : KeyEvent → Bool
is_pressed e = not (is_noevent e) && e.pressed

-- `IS_RELEASED`
abbrev pub is_released : KeyEvent → Bool
is_released e = not (is_noevent e) && not e.pressed

abbrev pub no_tap : Tap
no_tap = record { interrupted = false; count = 0 }

-- `(keyrecord_t){}`
abbrev pub no_record : KeyRecord
no_record = record {
  event = record { key = record { col = 0; row = 0 }; pressed = false; time = 0 };
  tap = no_tap;
}

-- `TIMER_DIFF_16`
abbrev pub timer_diff_16 : ℕ → ℕ → ℕ
timer_diff_16 a b = u16 (a + 65536 - b)
