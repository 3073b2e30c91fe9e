-- ===== src/Light/Modes.antt =====
-- DRIVERS/RGB/RGB_bottom/rgblight.c: a step of the mode and the step back.
use ch583_kbd_rtt.Base.{
  ℕ, ◌≡◌, ◌≤◌, ◌<◌, ◌%◌, ◌∙◌, ap, refl, [], ◌∷◌, true, false, if◌then◌else◌, if_both, if_true, u8,
  arith,
}
use ch583_kbd_rtt.Light.{
  Light, LightConfig, between, settled, mode_in_range, eeconfig_update_rgblight, raw, save,
  rgblight_mode_eeprom_helper, rgblight_sethsv_eeprom_helper, with_config,
}
use ch583_kbd_rtt.Light.Commands.{Command, perform, performs, rgblight_mode, stepped, stepped_back}
use ch583_kbd_rtt.Light.Settings.{IsInRange, performs-IsInRange}

cycle :
    (m : ℕ)
    → 1 ≤ m
    → m ≤ 36
    → (mode_in_range (stepped_back (mode_in_range (stepped m))) ≡ m)
      × (mode_in_range (stepped (mode_in_range (stepped_back m))) ≡ m)
unfolding mode_in_range
cycle m low high = ground arith

update_config :
    (w : ℕ) (s : Light) → (eeconfig_update_rgblight w s).rgblight_config ≡ s.rgblight_config
unfolding eeconfig_update_rgblight
update_config w s = if_both (λ (s' : Light). s'.rgblight_config ≡ s.rgblight_config) _ refl refl

settled_same :
    (c : LightConfig) → c.hue < 360 → c.sat < 256 → c.val < 256 → settled c.hue c.sat c.val c ≡ c
unfolding settled
settled_same c h s v =
    let hue : (if between 6 14 c.mode then c.hue else c.hue) % 512 ≡ c.hue =
      if_both (λ x. x % 512 ≡ c.hue) (between 6 14 c.mode) (omega arith) (omega arith) in
    let val : u8 (if between 2 5 c.mode then c.val else c.val) ≡ c.val =
      if_both (λ x. u8 x ≡ c.val) (between 2 5 c.mode) (omega arith) (omega arith) in
    let sat : u8 c.sat ≡ c.sat = omega arith in
    λ i. record c { hue = hue i; sat = sat i; val = val i }

sethsv_config :
    (hue sat val : ℕ) (s : Light)
    → s.rgblight_config.enable ≡ true
    → (rgblight_sethsv_eeprom_helper hue sat val false s).rgblight_config
      ≡ settled hue sat val s.rgblight_config
unfolding rgblight_sethsv_eeprom_helper
sethsv_config hue sat val s on = ap (λ (s' : Light). s'.rgblight_config) (if_true _ _ on)

mode_config :
    (m : ℕ) (s : Light)
    → s.rgblight_config.enable ≡ true
    → IsInRange s
    → (rgblight_mode m s).rgblight_config ≡ record (s.rgblight_config) { mode = mode_in_range m }
unfolding rgblight_mode_eeprom_helper
mode_config m s on r =
    let c = record (s.rgblight_config) { mode = mode_in_range m } in
    let s2 = save (with_config c s) in
    let e : s2.rgblight_config ≡ c = update_config (raw c) (with_config c s) in
    ap (λ (s' : Light). s'.rgblight_config) (if_true _ _ on)
    ∙ sethsv_config c.hue c.sat c.val s2 (ap (λ (d : LightConfig). d.enable) e ∙ on)
    ∙ ap (settled c.hue c.sat c.val) e
    ∙ settled_same c r.hue_high r.sat_high r.val_high

back :
    (f g : ℕ → ℕ) (s : Light)
    → s.rgblight_config.enable ≡ true
    → IsInRange s
    → IsInRange (rgblight_mode (f s.rgblight_config.mode) s)
    → mode_in_range (g (mode_in_range (f s.rgblight_config.mode))) ≡ s.rgblight_config.mode
    → (rgblight_mode
        (g (rgblight_mode (f s.rgblight_config.mode) s).rgblight_config.mode)
        (rgblight_mode (f s.rgblight_config.mode) s)).rgblight_config
      ≡ s.rgblight_config
back f g s on r r' e =
    let s' = rgblight_mode (f s.rgblight_config.mode) s in
    let c = mode_config (f s.rgblight_config.mode) s on r in
    mode_config (g s'.rgblight_config.mode) s' (ap (λ (d : LightConfig). d.enable) c ∙ on) r'
    ∙ ap (λ (d : LightConfig). record d { mode = mode_in_range (g d.mode) }) c
    ∙ ap (λ m. record (s.rgblight_config) { mode = m }) e

-- With the lights on and settings in their ranges, rgblight_step and then rgblight_step_reverse
-- lead back to the same settings, and so do the two in the other order.
pub step-step_reverse :
    (s : Light)
    → s.rgblight_config.enable ≡ true
    → IsInRange s
    → ((perform Command.step_reverse (perform Command.step s)).rgblight_config ≡ s.rgblight_config)
      × ((perform Command.step (perform Command.step_reverse s)).rgblight_config
          ≡ s.rgblight_config)
unfolding perform performs
step-step_reverse s on r =
    let (there, again) = cycle s.rgblight_config.mode r.mode_low r.mode_high in
    (
      back stepped stepped_back s on r (performs-IsInRange (Command.step ∷ []) s (_, _) r) there,
      back stepped_back stepped s on r (performs-IsInRange (Command.step_reverse ∷ []) s (_, _) r)
          again,
    )
