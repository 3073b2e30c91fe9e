-- ===== src/Mouse/Moves.antt =====
-- TMK/mousekey.c: a movement key moves while it is down, and only its own component.
use ch583_kbd_rtt.Base.{ℕ, ◌≤◌, ◌≡◌, refl, ◌∙◌, true, arith}
use ch583_kbd_rtt.Mouse.{
  MouseReport, Mouse, negate, is_negative, is_positive, bounded, move_unit, wheel_unit, with_x,
  with_y, with_v, with_h, mousekey_on, stop, mousekey_off, unit_at,
}

-- The keys KC_MS_UP to KC_MS_RIGHT and KC_MS_WH_UP to KC_MS_WH_RIGHT.
pub data Move : Type 0 where
  up down left right wheel_up wheel_down wheel_left wheel_right : Move

abbrev pub move_code : Move → ℕ
move_code up = 0xF0
move_code down = 0xF1
move_code left = 0xF2
move_code right = 0xF3
move_code wheel_up = 0xF9
move_code wheel_down = 0xFA
move_code wheel_left = 0xFB
move_code wheel_right = 0xFC

-- The report with another component for the key.
abbrev pub put : Move → ℕ → MouseReport → MouseReport
put up n r = record r { y = n }
put down n r = record r { y = n }
put left n r = record r { x = n }
put right n r = record r { x = n }
put wheel_up n r = record r { v = n }
put wheel_down n r = record r { v = n }
put wheel_left n r = record r { h = n }
put wheel_right n r = record r { h = n }

bounded_range : (u : ℕ) → (1 ≤ bounded u) × (bounded u ≤ 127)
unfolding bounded
bounded_range u = ground arith

positive : (u : ℕ) → 1 ≤ u → u ≤ 127 → is_positive u ≡ true
positive u low high = ground arith

negative : (u : ℕ) → 1 ≤ u → u ≤ 127 → is_negative (negate u) ≡ true
negative u low high = ground arith

move_range : (m : Mouse) → (1 ≤ move_unit m) × (move_unit m ≤ 127)
unfolding move_unit
move_range m =
    bounded_range (unit_at 5 m.mk_max_speed m.mk_time_to_max m.mousekey_accel m.mousekey_repeat)

pub wheel_range : (m : Mouse) → (1 ≤ wheel_unit m) × (wheel_unit m ≤ 127)
unfolding wheel_unit
wheel_range m =
    bounded_range
      (unit_at 1 m.mk_wheel_max_speed m.mk_wheel_time_to_max m.mousekey_accel m.mousekey_repeat)

move_positive : (m : Mouse) → is_positive (move_unit m) ≡ true
move_positive m = positive (move_unit m) (move_range m).0 (move_range m).1

move_negative : (m : Mouse) → is_negative (negate (move_unit m)) ≡ true
move_negative m = negative (move_unit m) (move_range m).0 (move_range m).1

wheel_positive : (m : Mouse) → is_positive (wheel_unit m) ≡ true
wheel_positive m = positive (wheel_unit m) (wheel_range m).0 (wheel_range m).1

wheel_negative : (m : Mouse) → is_negative (negate (wheel_unit m)) ≡ true
wheel_negative m = negative (wheel_unit m) (wheel_range m).0 (wheel_range m).1

off_report : (code : ℕ) (m : Mouse) → (mousekey_off code m).report ≡ (stop code m).report
unfolding mousekey_off
off_report code m = ground arith

stopped :
    (d : Move) (m : Mouse)
    → (stop (move_code d) (mousekey_on (move_code d) m)).report ≡ put d 0 m.report
unfolding stop mousekey_on with_x with_y with_v with_h
stopped up m = rw (move_negative m) refl
stopped down m = rw (move_positive m) refl
stopped left m = rw (move_negative m) refl
stopped right m = rw (move_positive m) refl
stopped wheel_up m = rw (wheel_positive m) refl
stopped wheel_down m = rw (wheel_negative m) refl
stopped wheel_left m = rw (wheel_negative m) refl
stopped wheel_right m = rw (wheel_positive m) refl

-- How far a key moves, and which way.
abbrev pub unit_of : Move → Mouse → ℕ
unit_of up m = move_unit m
unit_of down m = move_unit m
unit_of left m = move_unit m
unit_of right m = move_unit m
unit_of wheel_up m = wheel_unit m
unit_of wheel_down m = wheel_unit m
unit_of wheel_left m = wheel_unit m
unit_of wheel_right m = wheel_unit m

abbrev pub signed : Move → ℕ → ℕ
signed up n = negate n
signed down n = n
signed left n = negate n
signed right n = n
signed wheel_up n = n
signed wheel_down n = negate n
signed wheel_left n = negate n
signed wheel_right n = n

unit_range : (d : Move) (m : Mouse) → (1 ≤ unit_of d m) × (unit_of d m ≤ 127)
unit_range up m = move_range m
unit_range down m = move_range m
unit_range left m = move_range m
unit_range right m = move_range m
unit_range wheel_up m = wheel_range m
unit_range wheel_down m = wheel_range m
unit_range wheel_left m = wheel_range m
unit_range wheel_right m = wheel_range m

pressed :
    (d : Move) (m : Mouse)
    → (mousekey_on (move_code d) m).report ≡ put d (signed d (unit_of d m)) m.report
unfolding mousekey_on with_x with_y with_v with_h
pressed up m = refl
pressed down m = refl
pressed left m = refl
pressed right m = refl
pressed wheel_up m = refl
pressed wheel_down m = refl
pressed wheel_left m = refl
pressed wheel_right m = refl

-- For each of the eight movement keys, from any state: the press sets its component of the report
-- to the unit, with the sign of the key, and the unit is from 1 to 127; the release after it sets
-- that component to 0; every other component, and the buttons, stay.
pub press_release :
    (d : Move) (m : Mouse)
    → let m' = mousekey_on (move_code d) m in
      (m'.report ≡ put d (signed d (unit_of d m)) m.report)
      × (1 ≤ unit_of d m)
      × (unit_of d m ≤ 127)
      × ((mousekey_off (move_code d) m').report ≡ put d 0 m.report)
press_release d m =
    let (low, high) = unit_range d m in
    (pressed d m, low, high, off_report (move_code d) (mousekey_on (move_code d) m) ∙ stopped d m)
