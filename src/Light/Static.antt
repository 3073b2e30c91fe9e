-- ===== src/Light/Static.antt =====
-- DRIVERS/RGB/RGB_bottom/rgblight.c: the static mode, in which all lights have one colour.
use ch583_kbd_rtt.Base.{
  ℕ, ◌+◌, ◌-◌, ◌*◌, ◌/◌, ◌%◌, ◌≡◌, ◌≤◌, ◌<◌, ◌∙◌, ap, sym, refl, if_true, if_both, List, [], ◌∷◌,
  Bool, true, if◌then◌else◌, ltb, ◌==◌, u8, length, replicate, Bool-cases, inl, inr, arith,
}
use mathlib.Core.Path.{subst}
use ch583_kbd_rtt.Light.{
  Light, LightConfig, fill, show, settled, between, with_config, save, rgblight_set,
  rgblight_setrgb, rgblight_sethsv_eeprom_helper, eeconfig_update_rgblight,
}
use ch583_kbd_rtt.Light.Commands.{Command, perform}
use native.Mathlib.Nat.{mul-le-mul_left, mul-le-mul_right}
use ch583_kbd_rtt.Light.Wheel.{wheel, on_wheel, sector-on_wheel}
use ch583_kbd_rtt.Light.Colour.{
  Led, sector, base_of, color_of, hsv_levels, curve, with_levels, dark, sethsv,
}

abbrev pub higher : ℕ → ℕ → ℕ
higher a b = if ltb a b then b else a

abbrev pub lower : ℕ → ℕ → ℕ
lower a b = if ltb a b then a else b

abbrev pub highest : Led → ℕ
highest l = higher l.r (higher l.g l.b)

abbrev pub lowest : Led → ℕ
lowest l = lower l.r (lower l.g l.b)

base_le : (sat val : ℕ) → sat < 256 → val < 256 → base_of sat val ≤ val
base_le sat val hs hv =
    let p : (255 - sat) * val ≤ 255 * val = mul-le-mul_right val (omega arith) in omega arith

color_le : (hue base val : ℕ) → base ≤ val → val < 256 → color_of hue base val ≤ val - base
color_le hue base val hb hv =
    let p : (val - base) * (hue % 60) ≤ (val - base) * 59 =
      mul-le-mul_left (val - base) (omega arith) in
    omega arith

sector_span :
    (k val base color : ℕ)
    → k < 6
    → val < 256
    → base ≤ val
    → color ≤ val - base
    → (highest (sector k val base color) ≡ val) × (lowest (sector k val base color) ≡ base)
unfolding sector
sector_span k val base color hk hv hb hc = ground arith

-- The lowest level of a colour: the grey part of its value.
abbrev pub grey : ℕ → ℕ → ℕ
grey sat val = if sat == 0 then val else (255 - sat) * val / 256

levels_span :
    (hue sat val : ℕ)
    → hue < 360
    → sat < 256
    → val < 256
    → (highest (hsv_levels hue sat val) ≡ val) × (lowest (hsv_levels hue sat val) ≡ grey sat val)
unfolding hsv_levels
levels_span hue sat val hh hs hv =
    let b = base_le sat val hs hv in
    let base = base_of sat val in
    let p : (255 - sat) * val ≤ 255 * val = mul-le-mul_right val (omega arith) in
    let (top, bottom) =
      sector_span (hue / 60) val base (color_of hue base val) (omega arith) hv b
        (color_le hue base val b hv) in
    elim (Bool-cases (ltb 255 val)) [
      | inl over ↦ absurd (ground arith)
      | inr fits ↦ elim (Bool-cases (sat == 0)) [
        | inl none ↦ rw (fits, none) (ground arith)
        | inr some ↦ rw (fits, some) (top, bottom ∙ omega arith)
      ]
    ]

flat_wheel : (v h : ℕ) → wheel v v h ≡ v
flat_wheel v h = let e : v - v ≡ 0 = omega arith in rw e (ground arith)

levels-on_wheel :
    (hue sat val : ℕ)
    → hue < 360
    → sat < 256
    → val < 256
    → hsv_levels hue sat val ≡ on_wheel (grey sat val) val hue
unfolding hsv_levels
levels-on_wheel hue sat val hh hs hv =
    let base = base_of sat val in
    let b = base_le sat val hs hv in
    let p : (255 - sat) * val ≤ 255 * val = mul-le-mul_right val (omega arith) in
    let c = (val - base) * (hue % 60) / 60 in
    let q : (val - base) * (hue % 60) ≤ (val - base) * 59 =
      mul-le-mul_left (val - base) (omega arith) in
    let room : c ≤ val - base = omega arith in
    let whole : color_of hue base val ≡ c = omega arith in
    let low : base ≡ (255 - sat) * val / 256 = omega arith in
    elim (Bool-cases (ltb 255 val)) [
      | inl over ↦ absurd (ground arith)
      | inr fits ↦ elim (Bool-cases (sat == 0)) [
        | inl none ↦
            rw (fits, none)
              (λ i.
                with_levels (sym (flat_wheel val ((hue + 120) % 360)) i)
                  (sym (flat_wheel val hue) i) (sym (flat_wheel val ((hue + 240) % 360)) i))
        | inr some ↦
            rw (fits, some)
              (ap (sector (hue / 60) val base) whole
                ∙ sector-on_wheel base val hue hh b hv room
                ∙ ap (λ x. on_wheel x val hue) low)
      ]
    ]

fill_all : (l : Led) (leds : List Led) → length leds ≡ 8 → fill (λ i. l) 0 8 leds ≡ replicate 8 l
unfolding fill
fill_all l (a ∷ b ∷ c ∷ d ∷ e ∷ f ∷ g ∷ h ∷ []) n = refl
fill_all l _ n = absurd (omega arith)

show_static :
    (hue sat val : ℕ) (s : Light)
    → s.rgblight_config.enable ≡ true
    → s.rgblight_config.mode ≡ 1
    → length s.led ≡ 8
    → let leds = replicate 8 (sethsv hue sat val) in
      show hue sat val s ≡ record s { led = leds; sent = leds ∷ s.sent }
unfolding show rgblight_setrgb rgblight_set
show_static hue sat val s on static whole =
    let l = sethsv hue sat val in
    let leds = fill (λ i. l) 0 8 s.led in
    if_true _ _ (ap (λ m. m == 1) static)
    ∙ if_true _ _ on
    ∙ ap (λ leds'. record s { led = leds'; sent = leds' ∷ s.sent })
        (if_true leds (fill (λ i. dark) 0 8 leds) on ∙ fill_all l s.led whole)

settled_static :
    (hue sat val : ℕ) (c : LightConfig)
    → c.mode ≡ 1
    → hue < 360
    → sat < 256
    → val < 256
    → settled hue sat val c ≡ record c { hue = hue; sat = sat; val = val }
unfolding settled
settled_static hue sat val c static hh hs hv =
    let h : (if between 6 14 c.mode then c.hue else hue) % 512 ≡ hue =
      ap (λ m. (if between 6 14 m then c.hue else hue) % 512) static ∙ omega arith in
    let v : u8 (if between 2 5 c.mode then c.val else val) ≡ val =
      ap (λ m. u8 (if between 2 5 m then c.val else val)) static ∙ omega arith in
    let t : u8 sat ≡ sat = omega arith in λ i. record c { hue = h i; sat = t i; val = v i }

-- All lights have one colour, which the driver was given last, and the settings are these.
abbrev pub Shows : ℕ → ℕ → ℕ → Light → Light → Type 0
Shows hue sat val s s' =
    let l = hsv_levels hue sat val in
    let leds = replicate 8 (with_levels (curve l.r) (curve l.g) (curve l.b)) in
    (s'.led ≡ leds)
    × (s'.sent ≡ leds ∷ s.sent)
    × (s'.rgblight_config ≡ record (s.rgblight_config) { hue = hue; sat = sat; val = val })

-- With the lights on, in the static mode, with eight lights: setting a hue below 360, a saturation
-- and a value below 256 gives all lights one colour, sends them once and keeps the three as
-- settings. The three levels of the colour, before the curve, are those of the wheel of colours:
-- green at the hue, red 120 degrees ahead and blue 240, where a level rises for 60 degrees from the
-- lowest to the highest, stays there for 120, falls for 60 and stays at the lowest. The highest is
-- the value, and the lowest the grey part of it: the value for a saturation of 0, otherwise (255 -
-- saturation) * value / 256.
pub sethsv_all-Shows :
    (hue sat val : ℕ) (w : Bool) (s : Light)
    → s.rgblight_config.enable ≡ true
    → s.rgblight_config.mode ≡ 1
    → length s.led ≡ 8
    → hue < 360
    → sat < 256
    → val < 256
    → let l = hsv_levels hue sat val in
      Shows hue sat val s (perform (Command.sethsv_all hue sat val w) s)
      × (l ≡ on_wheel (grey sat val) val hue)
      × (highest l ≡ val)
      × (lowest l ≡ grey sat val)
unfolding perform rgblight_sethsv_eeprom_helper eeconfig_update_rgblight sethsv
sethsv_all-Shows hue sat val w s on static whole hh hs hv =
    let e = show_static hue sat val s on static whole in
    let s' = with_config (settled hue sat val s.rgblight_config) (show hue sat val s) in
    let shown : Shows hue sat val s s' = (
      ap (λ (t : Light). t.led) e,
      ap (λ (t : Light). t.sent) e,
      settled_static hue sat val s.rgblight_config static hh hs hv,
    ) in
    let written : Shows hue sat val s (if w then save s' else s') =
      if_both (Shows hue sat val s) w (if_both (Shows hue sat val s) _ shown shown) shown in
    let (top, bottom) = levels_span hue sat val hh hs hv in
    (
      subst (Shows hue sat val s) (sym (if_true (if w then save s' else s') s on)) written,
      levels-on_wheel hue sat val hh hs hv,
      top,
      bottom,
    )
