-- ===== src/Light/Lights.antt =====
-- DRIVERS/RGB/RGB_bottom/rgblight.c: the operations that change the lights and no setting.
use ch583_kbd_rtt.Base.{
  ℕ, zero, suc, ◌+◌, ◌≡◌, refl, ◌∙◌, Bool, true, false, not, ◌||◌, leb, List, ◌==◌, if◌then◌else◌,
  if_both, length, set, length-set,
}
use ch583_kbd_rtt.Light.{
  Light, fill, between, gradient_hue, rgblight_set, rgblight_setrgb, rgblight_setrgb_at,
  rgblight_sethsv_at, show,
}
use ch583_kbd_rtt.Light.Colour.{Led, dark, sethsv}
use ch583_kbd_rtt.Light.Commands.{rgblight_set_val}

-- The settings and the blocks as before, and as many lights.
abbrev pub OnlyLights : Light → Light → Type 0
OnlyLights s s' =
    (s'.rgblight_config ≡ s.rgblight_config) × (s'.store ≡ s.store) × (length s'.led ≡ length s.led)

length-fill :
    (light : ℕ → Led) (left i : ℕ) (leds : List Led) → length (fill light i left leds) ≡ length leds
unfolding fill
length-fill light zero i leds = refl
length-fill light (suc left) i leds =
    length-fill light left (i + 1) (set leds i (light i)) ∙ length-set leds i (light i)

length-lights :
    (b : Bool) (leds : List Led)
    → length (if b then leds else fill (λ i. dark) 0 8 leds) ≡ length leds
length-lights true leds = refl
length-lights false leds = length-fill (λ i. dark) 8 0 leds

set-OnlyLights :
    (s : Light) (leds : List Led)
    → length leds ≡ length s.led
    → OnlyLights s (rgblight_set (record s { led = leds }))
unfolding rgblight_set
set-OnlyLights s leds e = (refl, refl, length-lights s.rgblight_config.enable leds ∙ e)

pub turn_off-OnlyLights : (s : Light) → OnlyLights s (rgblight_set s)
turn_off-OnlyLights s = set-OnlyLights s s.led refl

pub setrgb-OnlyLights : (l : Led) (s : Light) → OnlyLights s (rgblight_setrgb l s)
unfolding rgblight_setrgb
setrgb-OnlyLights l s =
    if_both (OnlyLights s) s.rgblight_config.enable
      (set-OnlyLights s (fill (λ i. l) 0 8 s.led) (length-fill (λ i. l) 8 0 s.led))
      (refl, refl, refl)

pub show-OnlyLights : (hue sat val : ℕ) (s : Light) → OnlyLights s (show hue sat val s)
unfolding show
show-OnlyLights hue sat val s =
    let mode = s.rgblight_config.mode in
    let light : ℕ → Led = λ i. sethsv (gradient_hue mode hue i) sat val in
    if_both (OnlyLights s) (mode == 1) (setrgb-OnlyLights (sethsv hue sat val) s) (
      if_both (OnlyLights s) (between 25 34 mode)
        (set-OnlyLights s (fill light 0 8 s.led) (length-fill light 8 0 s.led)) (refl, refl, refl))

pub setrgb_at-OnlyLights :
    (l : Led) (index : ℕ) (s : Light) → OnlyLights s (rgblight_setrgb_at l index s)
unfolding rgblight_setrgb_at
setrgb_at-OnlyLights l index s =
    if_both (OnlyLights s) (not s.rgblight_config.enable || leb 8 index) (refl, refl, refl)
      (set-OnlyLights s (set s.led index l) (length-set s.led index l))

pub sethsv_at-OnlyLights :
    (hue sat val index : ℕ) (s : Light) → OnlyLights s (rgblight_sethsv_at hue sat val index s)
unfolding rgblight_sethsv_at
sethsv_at-OnlyLights hue sat val index s =
    if_both (OnlyLights s) s.rgblight_config.enable
      (setrgb_at-OnlyLights (sethsv hue sat val) index s) (refl, refl, refl)

pub set_val-OnlyLights : (value : ℕ) (s : Light) → OnlyLights s (rgblight_set_val value s)
unfolding rgblight_set_val
set_val-OnlyLights value s =
    setrgb-OnlyLights (sethsv s.rgblight_config.hue s.rgblight_config.sat value) s
