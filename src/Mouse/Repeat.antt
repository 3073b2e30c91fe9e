-- ===== src/Mouse/Repeat.antt =====
-- TMK/mousekey.c: the movement that `mousekey_task` repeats while a mouse key is held.
use ch583_kbd_rtt.Base.{ℕ, ◌+◌, ◌-◌, ◌*◌, ◌/◌, Bool, ◌&&◌, ◌==◌, ◌!=◌, if◌then◌else◌}
use ch583_kbd_rtt.Mouse.{
  Mouse, negate, is_negative, is_positive, move_unit, wheel_unit, with_x, with_y, with_v, with_h,
}

-- `(int8_t)(n * 0.7)` for `n` up to 128. The double nearest to 0.7 is below it, and of these products
-- only that of 90 is rounded to a double below its whole number.
unfoldable pub seven_tenths : ℕ → ℕ
seven_tenths n = if n == 90 then 62 else n * 7 / 10

-- `v *= 0.7`, which rounds to zero.
unfoldable pub shorten : ℕ → ℕ
unfolding seven_tenths
shorten v = if is_negative v then negate (seven_tenths (256 - v)) else seven_tenths v

-- `if (v > 0) v = unit; if (v < 0) v = unit * -1;` The unit is at most 127.
unfoldable pub directed : ℕ → ℕ → ℕ
directed unit v =
    let first = if is_positive v then unit else v in
    if is_negative first then negate unit else first

unfoldable pub is_still : Mouse → Bool
is_still m = ((m.report.x == 0 && m.report.y == 0) && m.report.v == 0) && m.report.h == 0

unfoldable pub faster : Mouse → Mouse
faster m =
    if m.mousekey_repeat != 255 then record m { mousekey_repeat = m.mousekey_repeat + 1 } else m

unfoldable pub diagonal : Mouse → Mouse
unfolding with_x with_y shorten
diagonal m =
    if m.report.x != 0 && m.report.y != 0
    then with_y (shorten m.report.y) (with_x (shorten m.report.x) m)
    else m

-- The four components in their order.
unfoldable pub move_on : Mouse → Mouse
unfolding with_x with_y with_v with_h move_unit wheel_unit directed diagonal
move_on m =
    let m1 = with_x (directed (move_unit m) m.report.x) m in
    let m2 = diagonal (with_y (directed (move_unit m) m1.report.y) m1) in
    let m3 = with_v (directed (wheel_unit m) m2.report.v) m2 in
    with_h (directed (wheel_unit m) m3.report.h) m3

-- From the increment of `mousekey_repeat` on.
unfoldable pub repeat_move : Mouse → Mouse
unfolding faster move_on
repeat_move m = move_on (faster m)

-- The time that has to pass before the next movement.
unfoldable pub repeat_delay : Mouse → ℕ
repeat_delay m = if m.mousekey_repeat != 0 then m.mk_interval else m.mk_delay * 10
