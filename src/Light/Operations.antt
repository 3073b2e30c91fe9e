-- ===== src/Light/Operations.antt =====
-- DRIVERS/RGB/RGB_bottom/rgblight.c: what each operation on the lights keeps, from what its parts
-- keep.
use mathlib.Core.Path.{subst}
use ch583_kbd_rtt.Base.{
  ℕ, ◌<◌, Bool, true, false, List, [], ◌∷◌, if◌then◌else◌, if_both, All, arith,
}
use ch583_kbd_rtt.Light.{
  Light, LightConfig, of_raw, with_config, save, raw, settled, mode_in_range,
  eeconfig_update_rgblight, show, rgblight_sethsv_eeprom_helper, rgblight_mode_eeprom_helper,
  rgblight_set, rgblight_setrgb, rgblight_setrgb_at, rgblight_sethsv_at, rgblight_sat_step,
  rgblight_val_step,
}
use ch583_kbd_rtt.Light.Colour.{rgblight_limit_val}
use ch583_kbd_rtt.Light.Commands.{
  Command, rgblight_mode, rgblight_update_dword, rgblight_show_solid_color, perform, performs,
  next_hue, last_hue, increased, decreased, stepped, stepped_back, raised, lowered, rgblight_enable,
  rgblight_disable, rgblight_toggle, rgblight_set_val,
}
use ch583_kbd_rtt.Light.Lights.{
  OnlyLights, show-OnlyLights, turn_off-OnlyLights, setrgb-OnlyLights, setrgb_at-OnlyLights,
  sethsv_at-OnlyLights, set_val-OnlyLights,
}

-- A property of the lights that the parts of the operations keep. `Hue` holds of the hues that may
-- be set, and `Word` of the settings that may be loaded whole.
pub record IsClosed (Hue : ℕ → Type 0) (Word : LightConfig → Type 0) (P : Light → Type 0)
    : Type 0 where
  pub turned : (hue : ℕ) → hue < 360 → Hue hue
  pub held : (s : Light) → P s → Hue s.rgblight_config.hue
  pub lights : (s s' : Light) → OnlyLights s s' → P s → P s'
  pub saved : (w : ℕ) (s : Light) → P s → P (eeconfig_update_rgblight w s)
  pub settles :
      (hue sat val : ℕ) (s : Light)
      → Hue hue
      → P s
      → P (with_config (settled hue sat val s.rgblight_config) s)
  pub loaded : (c : LightConfig) (s : Light) → Word c → P s → P (with_config c s)
  pub moded :
      (m : ℕ) (s : Light)
      → P s
      → P (with_config (record (s.rgblight_config) { mode = mode_in_range m }) s)
  pub enabled :
      (b : Bool) (s : Light) → P s → P (with_config (record (s.rgblight_config) { enable = b }) s)

-- The commands whose hue or settings may be set.
abbrev pub Allowed : (ℕ → Type 0) → (LightConfig → Type 0) → Command → Type 0
Allowed Hue Word (Command.sethsv_all hue sat val w) = Hue hue
Allowed Hue Word (Command.update_dword dword) = Word (of_raw dword)
Allowed Hue Word _ = Unit {0}

next_hue_bound : (hue : ℕ) → next_hue hue < 360
next_hue_bound hue = omega arith

last_hue_bound : (hue : ℕ) → last_hue hue < 360
last_hue_bound hue = ground arith

module _ {Hue : ℕ → Type 0} {Word : LightConfig → Type 0} {P : Light → Type 0}
    (closed : IsClosed Hue Word P) where
  sethsv-keeps :
      (hue sat val : ℕ) (w : Bool) (s : Light)
      → Hue hue
      → P s
      → P (rgblight_sethsv_eeprom_helper hue sat val w s)
  unfolding rgblight_sethsv_eeprom_helper
  sethsv-keeps hue sat val w s h p =
      let shown = show hue sat val s in
      let (c, st, n) = show-OnlyLights hue sat val s in
      let q = closed.settles hue sat val shown h (closed.lights s shown (c, st, n) p) in
      let q' = subst (λ d. P (with_config (settled hue sat val d) shown)) c q in
      if_both P s.rgblight_config.enable (if_both P w (closed.saved _ _ q') q') p

  pub mode-keeps : (m : ℕ) (w : Bool) (s : Light) → P s → P (rgblight_mode_eeprom_helper m w s)
  unfolding rgblight_mode_eeprom_helper
  mode-keeps m w s p =
      let c = record (s.rgblight_config) { mode = mode_in_range m } in
      let q = closed.moded m s p in
      if_both P s.rgblight_config.enable
        (sethsv-keeps c.hue c.sat c.val false _ (closed.held s p)
          (if_both P w (closed.saved _ _ q) q))
        p

  enable-keeps : (w : Bool) (s : Light) → P s → P (rgblight_enable w s)
  unfolding rgblight_enable
  enable-keeps w s p = mode-keeps s.rgblight_config.mode w _ (closed.enabled true s p)

  disable-keeps : (w : Bool) (s : Light) → P s → P (rgblight_disable w s)
  unfolding rgblight_disable
  disable-keeps w s p =
      let q = closed.enabled false s p in
      let off = with_config (record (s.rgblight_config) { enable = false }) s in
      let kept = if w then save off else off in
      closed.lights kept (rgblight_set kept) (turn_off-OnlyLights kept)
        (if_both P w (closed.saved (raw off.rgblight_config) off q) q)

  perform-keeps : (c : Command) (s : Light) → Allowed Hue Word c → P s → P (perform c s)
  unfolding perform rgblight_toggle rgblight_update_dword rgblight_show_solid_color
  perform-keeps Command.increase s ok p = mode-keeps (increased s.rgblight_config.mode) true s p
  perform-keeps Command.decrease s ok p = mode-keeps (decreased s.rgblight_config.mode) true s p
  perform-keeps Command.step s ok p = mode-keeps (stepped s.rgblight_config.mode) true s p
  perform-keeps Command.step_reverse s ok p =
      mode-keeps (stepped_back s.rgblight_config.mode) true s p
  perform-keeps (Command.mode m w) s ok p = mode-keeps m w s p
  perform-keeps (Command.enable w) s ok p = enable-keeps w s p
  perform-keeps (Command.disable w) s ok p = disable-keeps w s p
  perform-keeps (Command.toggle w) s ok p =
      if_both P s.rgblight_config.enable (disable-keeps w s p) (enable-keeps w s p)
  perform-keeps Command.increase_hue s ok p =
      sethsv-keeps (next_hue s.rgblight_config.hue) s.rgblight_config.sat s.rgblight_config.val true
        s (closed.turned (next_hue s.rgblight_config.hue) (next_hue_bound s.rgblight_config.hue)) p
  perform-keeps Command.decrease_hue s ok p =
      sethsv-keeps (last_hue s.rgblight_config.hue) s.rgblight_config.sat s.rgblight_config.val true
        s (closed.turned (last_hue s.rgblight_config.hue) (last_hue_bound s.rgblight_config.hue)) p
  perform-keeps Command.increase_sat s ok p =
      sethsv-keeps s.rgblight_config.hue (raised 255 rgblight_sat_step s.rgblight_config.sat)
        s.rgblight_config.val true s (closed.held s p) p
  perform-keeps Command.decrease_sat s ok p =
      sethsv-keeps s.rgblight_config.hue (lowered rgblight_sat_step s.rgblight_config.sat)
        s.rgblight_config.val true s (closed.held s p) p
  perform-keeps Command.increase_val s ok p =
      sethsv-keeps s.rgblight_config.hue s.rgblight_config.sat
        (raised rgblight_limit_val rgblight_val_step s.rgblight_config.val) true s (closed.held s p)
        p
  perform-keeps Command.decrease_val s ok p =
      sethsv-keeps s.rgblight_config.hue s.rgblight_config.sat
        (lowered rgblight_val_step s.rgblight_config.val) true s (closed.held s p) p
  perform-keeps (Command.sethsv_all hue sat val w) s ok p = sethsv-keeps hue sat val w s ok p
  perform-keeps (Command.update_dword dword) s ok p =
      let loaded = with_config (of_raw dword) s in
      let kept = save loaded in
      let q =
        closed.saved (raw loaded.rgblight_config) loaded (closed.loaded (of_raw dword) s ok p) in
      if_both P kept.rgblight_config.enable (mode-keeps kept.rgblight_config.mode true kept q)
        (closed.lights kept (rgblight_set kept) (turn_off-OnlyLights kept) q)
  perform-keeps (Command.set_val value) s ok p =
      closed.lights s (rgblight_set_val value s) (set_val-OnlyLights value s) p
  perform-keeps (Command.setrgb l) s ok p =
      closed.lights s (rgblight_setrgb l s) (setrgb-OnlyLights l s) p
  perform-keeps (Command.show_solid_color l) s ok p =
      let on = rgblight_enable true s in
      let static = rgblight_mode 1 on in
      closed.lights static (rgblight_setrgb l static) (setrgb-OnlyLights l static)
        (mode-keeps 1 true on (enable-keeps true s p))
  perform-keeps (Command.setrgb_at l index) s ok p =
      closed.lights s (rgblight_setrgb_at l index s) (setrgb_at-OnlyLights l index s) p
  perform-keeps (Command.sethsv_at hue sat val index) s ok p =
      closed.lights s (rgblight_sethsv_at hue sat val index s)
        (sethsv_at-OnlyLights hue sat val index s) p

  pub performs-keeps :
      (cs : List Command) (s : Light) → All (Allowed Hue Word) cs → P s → P (performs cs s)
  unfolding performs
  performs-keeps [] s ok p = p
  performs-keeps (c ∷ cs) s (ok, oks) p =
      performs-keeps cs (perform c s) oks (perform-keeps c s ok p)

command-Allowed :
    (Hue : ℕ → Type 0) (Word : LightConfig → Type 0)
    → ((hue : ℕ) → Hue hue)
    → ((c : LightConfig) → Word c)
    → (c : Command) → Allowed Hue Word c
command-Allowed Hue Word any word (Command.sethsv_all hue sat val w) = any hue
command-Allowed Hue Word any word (Command.update_dword dword) = word (of_raw dword)
command-Allowed Hue Word any word Command.increase = _
command-Allowed Hue Word any word Command.decrease = _
command-Allowed Hue Word any word Command.step = _
command-Allowed Hue Word any word Command.step_reverse = _
command-Allowed Hue Word any word (Command.mode m w) = _
command-Allowed Hue Word any word (Command.enable w) = _
command-Allowed Hue Word any word (Command.disable w) = _
command-Allowed Hue Word any word (Command.toggle w) = _
command-Allowed Hue Word any word Command.increase_hue = _
command-Allowed Hue Word any word Command.decrease_hue = _
command-Allowed Hue Word any word Command.increase_sat = _
command-Allowed Hue Word any word Command.decrease_sat = _
command-Allowed Hue Word any word Command.increase_val = _
command-Allowed Hue Word any word Command.decrease_val = _
command-Allowed Hue Word any word (Command.set_val value) = _
command-Allowed Hue Word any word (Command.setrgb l) = _
command-Allowed Hue Word any word (Command.show_solid_color l) = _
command-Allowed Hue Word any word (Command.setrgb_at l index) = _
command-Allowed Hue Word any word (Command.sethsv_at hue sat val index) = _

-- Where all may be set, every list of commands is allowed.
pub lists-Allowed :
    (Hue : ℕ → Type 0) (Word : LightConfig → Type 0)
    → ((hue : ℕ) → Hue hue)
    → ((c : LightConfig) → Word c)
    → (cs : List Command) → All (Allowed Hue Word) cs
lists-Allowed Hue Word any word [] = _
lists-Allowed Hue Word any word (c ∷ cs) =
    (command-Allowed Hue Word any word c, lists-Allowed Hue Word any word cs)
