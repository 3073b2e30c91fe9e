-- ===== src/Examples/Pointer.antt =====
-- TMK/mousekey.c with the default speeds: at rest, and moving diagonally.
use ch583_kbd_rtt.Base.{◌≤◌, ◌≡◌, refl, arith}
use ch583_kbd_rtt.Mouse.{
  Mouse, mousekey_on, mousekey_off, move_unit, wheel_unit, unit_at, bounded, with_x, with_y, with_v,
  with_h,
}
use ch583_kbd_rtt.Mouse.Repeat.{
  seven_tenths, shorten, directed, faster, diagonal, move_on, repeat_move,
}
use ch583_kbd_rtt.Mouse.Course.{IsFast, SameCourse, repeats, repeats-SameCourse}
use ch583_kbd_rtt.Mouse.Moves.{left, move_code, put, signed, unit_of, press_release}

abbrev still : Mouse
still = record {
  report = record { buttons = 1; x = 0; y = 5; v = 0; h = 0 };
  mousekey_repeat = 0;
  mousekey_accel = 0;
  mk_delay = 30;
  mk_interval = 50;
  mk_max_speed = 10;
  mk_time_to_max = 20;
  mk_wheel_max_speed = 8;
  mk_wheel_time_to_max = 40;
}

press_release_example :
    let m' = mousekey_on (move_code left) still in
    (m'.report ≡ put left (signed left (unit_of left still)) still.report)
    × (1 ≤ unit_of left still)
    × (unit_of left still ≤ 127)
    × ((mousekey_off (move_code left) m').report ≡ put left 0 still.report)
press_release_example = press_release left still

-- Up and to the right.
abbrev sloping : Mouse
sloping = record still { report = record { buttons = 1; x = 5; y = 251; v = 0; h = 0 } }

sloping-IsFast : IsFast sloping
sloping-IsFast = record { low = omega arith; high = omega arith; ramp = omega arith }

repeats-SameCourse_example : SameCourse (repeats 3 sloping).report sloping.report
repeats-SameCourse_example = repeats-SameCourse 3 sloping sloping-IsFast

-- 50 * 3 / 20 is 7, and seven tenths of it 4.
sloping_run : (repeats 3 sloping).report ≡ record { buttons = 1; x = 4; y = 252; v = 0; h = 0 }
unfolding repeats repeat_move faster move_on diagonal shorten seven_tenths directed move_unit
    wheel_unit unit_at bounded with_x with_y with_v with_h
sloping_run = refl

unit_run : move_unit (record still { mousekey_repeat = 10 }) ≡ 25
unfolding move_unit unit_at bounded
unit_run = refl
