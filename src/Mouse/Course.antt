-- ===== src/Mouse/Course.antt =====
-- TMK/mousekey.c: a movement keeps its course while `mousekey_task` repeats it, also a diagonal one,
-- which is multiplied by 0.7.
use mathlib.Core.Path.{subst}
use native.Mathlib.Nat.{
  le-div_iff_mul-le, le-mul_of_pos_right, div-le_of_le-mul, mul-le-mul_left, le_trans, mul_comm,
}
use ch583_kbd_rtt.Base.{
  ℕ, zero, suc, ◌*◌, ◌/◌, ◌≤◌, ◌<◌, ◌≡◌, refl, ◌∙◌, ◌&&◌, ◌==◌, ◌!=◌, leb, if◌then◌else◌, inl, inr,
  Bool-cases, arith,
}
use ch583_kbd_rtt.Mouse.{
  Mouse, MouseReport, is_negative, bounded, move_unit, wheel_unit, unit_at, with_x, with_y, with_v,
  with_h,
}
use ch583_kbd_rtt.Mouse.Moves.{wheel_range}
use ch583_kbd_rtt.Mouse.Repeat.{
  seven_tenths, shorten, directed, faster, diagonal, move_on, repeat_move,
}

-- Which way a component moves.
pub data Course : Type 0 where
  rest forth back : Course

unfoldable pub course : ℕ → Course
course v = if v == 0 then rest else if is_negative v then back else forth

course-directed : (u v : ℕ) → 1 ≤ u → u ≤ 127 → course (directed u v) ≡ course v
unfolding course directed
course-directed u v low high = ground arith

course-shorten :
    (u v : ℕ) → 2 ≤ u → u ≤ 127 → course (shorten (directed u v)) ≡ course (directed u v)
unfolding course shorten seven_tenths directed
course-shorten u v low high = ground arith

-- Speeds with which the pointer moves by at least two.
pub record IsFast (m : Mouse) : Type 0 where
  pub low : 2 ≤ m.mk_max_speed
  pub high : m.mk_max_speed ≤ 255
  pub ramp : 2 * m.mk_time_to_max ≤ 5 * m.mk_max_speed

ramp_range :
    (s t r : ℕ) → 1 ≤ r → r < t → 2 * t ≤ 5 * s → (2 ≤ 5 * s * r / t) × (5 * s * r / t ≤ 5 * s)
ramp_range s t r one less enough = (
  (le-div_iff_mul-le {k = t} {x = 2} {y = 5 * s * r} (omega arith)).1
      (le_trans enough (le-mul_of_pos_right (5 * s) one)),
  div-le_of_le-mul t (rw (mul_comm t (5 * s)) (mul-le-mul_left (5 * s) (omega arith))),
)

unit_fast : (s t a r : ℕ) → 2 ≤ s → s ≤ 255 → 2 * t ≤ 5 * s → 2 ≤ unit_at 5 s t a r
unfolding unit_at
unit_fast s t a r low high enough = elim (Bool-cases (r == 0)) [
  | inl none_yet ↦ ground arith
  | inr some_yet ↦ elim (Bool-cases (leb t r)) [
    | inl full ↦ ground arith
    | inr less ↦
        let (two, most) = ramp_range s t r (ground arith) (ground arith) enough in ground arith
  ]
]

move_fast : (m : Mouse) → IsFast m → (2 ≤ move_unit m) × (move_unit m ≤ 127)
unfolding move_unit bounded
move_fast m fast =
    let two =
      unit_fast m.mk_max_speed m.mk_time_to_max m.mousekey_accel m.mousekey_repeat fast.low
        fast.high fast.ramp in
    ground arith

diagonal_speeds :
    (m : Mouse)
    → ((diagonal m).mk_max_speed ≡ m.mk_max_speed)
      × ((diagonal m).mk_time_to_max ≡ m.mk_time_to_max)
unfolding diagonal with_x with_y
diagonal_speeds m = elim (Bool-cases (m.report.x != 0 && m.report.y != 0)) [
  | inl far ↦ rw far (refl, refl)
  | inr near ↦ rw near (refl, refl)
]

move_on-IsFast : (m : Mouse) → IsFast m → IsFast (move_on m)
unfolding move_on with_x with_y with_v with_h
move_on-IsFast m fast =
    let u = move_unit m in
    let (speed, time) =
      diagonal_speeds (with_y (directed u m.report.y) (with_x (directed u m.report.x) m)) in
    record { low = rw speed fast.low; high = rw speed fast.high; ramp = rw (speed, time) fast.ramp }

faster_keeps : (m : Mouse) → IsFast m → IsFast (faster m) × ((faster m).report ≡ m.report)
unfolding faster
faster_keeps m fast = elim (Bool-cases (m.mousekey_repeat != 255)) [
  | inl more ↦ rw more (record { low = fast.low; high = fast.high; ramp = fast.ramp }, refl)
  | inr most ↦ rw most (fast, refl)
]

-- The course of every component, and the buttons.
abbrev pub SameCourse : MouseReport → MouseReport → Type 0
SameCourse r r' =
    (course r.x ≡ course r'.x)
    × (course r.y ≡ course r'.y)
    × (course r.v ≡ course r'.v)
    × (course r.h ≡ course r'.h)
    × (r.buttons ≡ r'.buttons)

diagonal-SameCourse :
    (m : Mouse)
    → course (shorten m.report.x) ≡ course m.report.x
    → course (shorten m.report.y) ≡ course m.report.y
    → SameCourse (diagonal m).report m.report
unfolding diagonal with_x with_y
diagonal-SameCourse m hx hy = elim (Bool-cases (m.report.x != 0 && m.report.y != 0)) [
  | inl far ↦ rw far (hx, hy, refl, refl, refl)
  | inr near ↦ rw near (refl, refl, refl, refl, refl)
]

move_on-SameCourse : (m : Mouse) → IsFast m → SameCourse (move_on m).report m.report
unfolding move_on with_x with_y with_v with_h
move_on-SameCourse m fast =
    let (low, high) = move_fast m fast in
    let (wheel_low, wheel_high) = wheel_range m in
    let u = move_unit m in
    let w = wheel_unit m in
    let turned = with_y (directed u m.report.y) (with_x (directed u m.report.x) m) in
    let d = (diagonal turned).report in
    let (x, y, v, h, buttons) =
      diagonal-SameCourse turned (course-shorten u m.report.x low high)
        (course-shorten u m.report.y low high) in
    (
      x ∙ course-directed u m.report.x (omega arith) high,
      y ∙ course-directed u m.report.y (omega arith) high,
      course-directed w d.v wheel_low wheel_high ∙ v,
      course-directed w d.h wheel_low wheel_high ∙ h,
      buttons,
    )

-- The movement after a number of repetitions.
unfoldable pub repeats : ℕ → Mouse → Mouse
repeats zero m = m
repeats (suc n) m = repeat_move (repeats n m)

repeats-IsFast : (n : ℕ) (m : Mouse) → IsFast m → IsFast (repeats n m)
unfolding repeats repeat_move
repeats-IsFast zero m fast = fast
repeats-IsFast (suc n) m fast =
    move_on-IsFast (faster (repeats n m)) (faster_keeps (repeats n m) (repeats-IsFast n m fast)).0

SameCourse-trans : (r s t : MouseReport) → SameCourse r s → SameCourse s t → SameCourse r t
SameCourse-trans r s t (x, y, v, h, b) (x', y', v', h', b') =
    (x ∙ x', y ∙ y', v ∙ v', h ∙ h', b ∙ b')

-- With a top speed from 2 to 255, and a time to reach it of at most two and a half times that
-- speed: however often the movement of mousekey_task is repeated, each of its four components stays
-- at rest or goes the way it went, also where the pointer moves diagonally and its components are
-- multiplied by 0.7; and the buttons stay.
pub repeats-SameCourse : (n : ℕ) (m : Mouse) → IsFast m → SameCourse (repeats n m).report m.report
unfolding repeats repeat_move
repeats-SameCourse zero m fast = (refl, refl, refl, refl, refl)
repeats-SameCourse (suc n) m fast =
    let (fast', same) = faster_keeps (repeats n m) (repeats-IsFast n m fast) in
    SameCourse-trans (repeats (suc n) m).report (repeats n m).report m.report
      (subst (SameCourse (move_on (faster (repeats n m))).report) same
        (move_on-SameCourse (faster (repeats n m)) fast'))
      (repeats-SameCourse n m fast)
