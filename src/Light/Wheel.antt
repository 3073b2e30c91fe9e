-- ===== src/Light/Wheel.antt =====
-- DRIVERS/RGB/RGB_bottom/rgblight.c: `sethsv` against the wheel of colours.
use ch583_kbd_rtt.Base.{
  ℕ, ◌+◌, ◌-◌, ◌*◌, ◌/◌, ◌%◌, ◌≡◌, ◌≤◌, ◌<◌, ap, sym, refl, ◌∙◌, Bool-cases, inl, inr, ltb,
  if◌then◌else◌, arith,
}
use ch583_kbd_rtt.Light.Colour.{Led, with_levels, sector}

-- One channel round the wheel: it rises for 60 degrees from the lowest level, stays at the highest
-- for 120, falls for 60, and stays at the lowest.
abbrev pub wheel : ℕ → ℕ → ℕ → ℕ
wheel low high h =
    if ltb h 60
    then low + (high - low) * h / 60
    else if ltb h 180
    then high
    else if ltb h 240
    then high - (high - low) * (h - 180) / 60
    else low

-- Green is at the hue, red 120 degrees ahead of it and blue 240.
abbrev pub on_wheel : ℕ → ℕ → ℕ → Led
on_wheel low high hue =
    with_levels (wheel low high ((hue + 120) % 360)) (wheel low high hue)
      (wheel low high ((hue + 240) % 360))

-- The same with the part of a sixth that the hue has gone.
abbrev wheel_by : ℕ → ℕ → ℕ → ℕ → ℕ
wheel_by low high h c =
    if ltb h 60 then low + c else if ltb h 180 then high else if ltb h 240 then high - c else low

wheel_at :
    (low high h : ℕ)
    → h < 360
    → wheel low high h ≡ wheel_by low high h ((high - low) * (h % 60) / 60)
wheel_at low high h small = elim (Bool-cases (ltb h 60)) [
  | inl first ↦
      let e : h % 60 ≡ h = ground (arith, first) in
      rw first (ap (λ x. low + (high - low) * x / 60) (sym e))
  | inr later ↦ elim (Bool-cases (ltb h 180)) [
    | inl top ↦ rw (later, top) refl
    | inr falling ↦ elim (Bool-cases (ltb h 240)) [
      | inl falls ↦
          let e : h % 60 ≡ h - 180 = ground (arith, falling, falls) in
          rw (later, falling, falls) (ap (λ x. high - (high - low) * x / 60) (sym e))
      | inr rest ↦ rw (later, falling, rest) refl
    ]
  ]
]

module _ (low high hue c : ℕ) (small : hue < 360) (byte : high < 256) (fits : c ≤ high - low)
    (le : low ≤ high) where
  red_steps : (sector (hue / 60) high low c).r ≡ wheel_by low high ((hue + 120) % 360) c
  unfolding sector
  red_steps = ground arith

  green_steps : (sector (hue / 60) high low c).g ≡ wheel_by low high hue c
  unfolding sector
  green_steps = ground arith

  blue_steps : (sector (hue / 60) high low c).b ≡ wheel_by low high ((hue + 240) % 360) c
  unfolding sector
  blue_steps = ground arith

-- A channel that is `turn` degrees ahead, `turn` being whole sixths.
turned :
    (low high hue turn : ℕ)
    → turn % 60 ≡ 0
    → wheel low high ((hue + turn) % 360)
      ≡ wheel_by low high ((hue + turn) % 360) ((high - low) * (hue % 60) / 60)
turned low high hue turn sixths =
    let h = (hue + turn) % 360 in
    let e : h % 60 ≡ hue % 60 = omega arith in
    wheel_at low high h (omega arith) ∙ ap (λ x. wheel_by low high h ((high - low) * x / 60)) e

-- The switch of `sethsv` gives the channels of the wheel.
pub sector-on_wheel :
    (low high hue : ℕ)
    → hue < 360
    → low ≤ high
    → high < 256
    → let c = (high - low) * (hue % 60) / 60 in
      c ≤ high - low → sector (hue / 60) high low c ≡ on_wheel low high hue
sector-on_wheel low high hue small le byte fits =
    let c = (high - low) * (hue % 60) / 60 in
    let r = red_steps low high hue c small byte fits le ∙ sym (turned low high hue 120 refl) in
    let g = green_steps low high hue c small byte fits le ∙ sym (wheel_at low high hue small) in
    let b = blue_steps low high hue c small byte fits le ∙ sym (turned low high hue 240 refl) in
    λ i. with_levels (r i) (g i) (b i)
