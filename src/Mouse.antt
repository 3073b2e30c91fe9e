-- ===== src/Mouse.antt =====
-- TMK/mousekey.c: keys that move the mouse. The components of a movement are `int8_t`, here their
-- bit patterns.
pub mod Moves
pub mod Repeat
pub mod Course
use ch583_kbd_rtt.Base.{
  List, [], ◌∷◌, ℕ, ◌+◌, ◌-◌, ◌*◌, ◌/◌, ◌^◌, Bool, true, false, ◌&&◌, ltb, leb, ◌==◌, ◌!=◌,
  if◌then◌else◌, bit_and, bit_or, u8, u16, complement,
}
use ch583_kbd_rtt.Timer.{timer_read}
use ch583_kbd_rtt.Host.{Host, host_mouse_send}

-- `report_mouse_t`
pub record MouseReport : Type 0 where
  pub buttons : ℕ
  pub x : ℕ
  pub y : ℕ
  pub v : ℕ
  pub h : ℕ

-- The variables of mousekey.c.
pub record Mouse : Type 0 where
  pub report : MouseReport
  pub mousekey_repeat : ℕ
  pub mousekey_accel : ℕ
  pub mk_delay : ℕ
  pub mk_interval : ℕ
  pub mk_max_speed : ℕ
  pub mk_time_to_max : ℕ
  pub mk_wheel_max_speed : ℕ
  pub mk_wheel_time_to_max : ℕ

-- `(int8_t)(v * -1)`
abbrev pub negate : ℕ → ℕ
negate v = u8 (256 - v)

abbrev pub is_negative : ℕ → Bool
is_negative v = leb 128 v

abbrev pub is_positive : ℕ → Bool
is_positive v = ltb 0 v && ltb v 128

-- The common text of `move_unit` and `wheel_unit`: the unit, and its bounds 1 and 127.
unfoldable pub unit_at : ℕ → ℕ → ℕ → ℕ → ℕ → ℕ
unit_at delta speed time_to_max accel repeat =
    if bit_and accel 1 != 0
    then u16 (delta * speed / 4)
    else if bit_and accel 2 != 0
    then u16 (delta * speed / 2)
    else if bit_and accel 4 != 0
    then u16 (delta * speed)
    else if repeat == 0
    then delta
    else if leb time_to_max repeat
    then u16 (delta * speed)
    else u16 (delta * speed * repeat / time_to_max)

unfoldable pub bounded : ℕ → ℕ
bounded unit = if ltb 127 unit then 127 else if unit == 0 then 1 else unit

unfoldable pub move_unit : Mouse → ℕ
unfolding unit_at bounded
move_unit m = bounded (unit_at 5 m.mk_max_speed m.mk_time_to_max m.mousekey_accel m.mousekey_repeat)

unfoldable pub wheel_unit : Mouse → ℕ
unfolding unit_at bounded
wheel_unit m =
    bounded
      (unit_at 1 m.mk_wheel_max_speed m.mk_wheel_time_to_max m.mousekey_accel m.mousekey_repeat)

unfoldable pub with_buttons : ℕ → Mouse → Mouse
with_buttons b m = record m { report = record m.report { buttons = b } }

unfoldable pub with_x : ℕ → Mouse → Mouse
with_x n m = record m { report = record m.report { x = n } }

unfoldable pub with_y : ℕ → Mouse → Mouse
with_y n m = record m { report = record m.report { y = n } }

unfoldable pub with_v : ℕ → Mouse → Mouse
with_v n m = record m { report = record m.report { v = n } }

unfoldable pub with_h : ℕ → Mouse → Mouse
with_h n m = record m { report = record m.report { h = n } }

unfoldable pub press_bit : ℕ → Mouse → Mouse
unfolding with_buttons
press_bit b m = with_buttons (bit_or m.report.buttons b) m

unfoldable pub release_bit : ℕ → Mouse → Mouse
unfolding with_buttons
release_bit b m = with_buttons (bit_and m.report.buttons (complement 8 b)) m

unfoldable pub accel_on : ℕ → Mouse → Mouse
accel_on b m = record m { mousekey_accel = bit_or m.mousekey_accel b }

unfoldable pub accel_off : ℕ → Mouse → Mouse
accel_off b m = record m { mousekey_accel = bit_and m.mousekey_accel (complement 8 b) }

unfoldable pub mousekey_on : ℕ → Mouse → Mouse
unfolding with_x with_y with_v with_h press_bit accel_on
mousekey_on code m =
    if code == 0xF0
    then with_y (negate (move_unit m)) m
    else if code == 0xF1
    then with_y (move_unit m) m
    else if code == 0xF2
    then with_x (negate (move_unit m)) m
    else if code == 0xF3
    then with_x (move_unit m) m
    else if code == 0xF9
    then with_v (wheel_unit m) m
    else if code == 0xFA
    then with_v (negate (wheel_unit m)) m
    else if code == 0xFB
    then with_h (negate (wheel_unit m)) m
    else if code == 0xFC
    then with_h (wheel_unit m) m
    else if code == 0xF4
    then press_bit 1 m
    else if code == 0xF5
    then press_bit 2 m
    else if code == 0xF6
    then press_bit 4 m
    else if code == 0xF7
    then press_bit 8 m
    else if code == 0xF8
    then press_bit 16 m
    else if code == 0xFD
    then accel_on 1 m
    else if code == 0xFE
    then accel_on 2 m
    else if code == 0xFF
    then accel_on 4 m
    else m

-- The first statement of `mousekey_off`.
unfoldable pub stop : ℕ → Mouse → Mouse
unfolding with_x with_y with_v with_h release_bit accel_off
stop code m =
    if code == 0xF0 && is_negative m.report.y
    then with_y 0 m
    else if code == 0xF1 && is_positive m.report.y
    then with_y 0 m
    else if code == 0xF2 && is_negative m.report.x
    then with_x 0 m
    else if code == 0xF3 && is_positive m.report.x
    then with_x 0 m
    else if code == 0xF9 && is_positive m.report.v
    then with_v 0 m
    else if code == 0xFA && is_negative m.report.v
    then with_v 0 m
    else if code == 0xFB && is_negative m.report.h
    then with_h 0 m
    else if code == 0xFC && is_positive m.report.h
    then with_h 0 m
    else if code == 0xF4
    then release_bit 1 m
    else if code == 0xF5
    then release_bit 2 m
    else if code == 0xF6
    then release_bit 4 m
    else if code == 0xF7
    then release_bit 8 m
    else if code == 0xF8
    then release_bit 16 m
    else if code == 0xFD
    then accel_off 1 m
    else if code == 0xFE
    then accel_off 2 m
    else if code == 0xFF
    then accel_off 4 m
    else m

unfoldable pub mousekey_off : ℕ → Mouse → Mouse
unfolding stop
mousekey_off code m =
    let s = stop code m in
    let r = s.report in
    if (r.x == 0 && r.y == 0) && (r.v == 0 && r.h == 0) then record s { mousekey_repeat = 0 } else s

unfoldable pub mousekey_clear : Mouse → Mouse
mousekey_clear m = record m {
  report = record { buttons = 0; x = 0; y = 0; v = 0; h = 0 };
  mousekey_repeat = 0;
  mousekey_accel = 0;
}

-- The bytes of the report.
abbrev pub mouse_bytes : MouseReport → List ℕ
mouse_bytes r = r.buttons ∷ r.x ∷ r.y ∷ r.v ∷ r.h ∷ []

-- The host after it, and the new `last_timer`.
unfoldable pub mousekey_send : ℕ → Mouse → Host → Host × ℕ
unfolding host_mouse_send timer_read
mousekey_send tick m h = (host_mouse_send (mouse_bytes m.report) h, timer_read tick)
