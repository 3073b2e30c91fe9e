-- ===== src/Light/Commands.antt =====
-- DRIVERS/RGB/RGB_bottom/rgblight.c: the operations that the keyboard offers for its lights, and
-- `rgblight_init`.
use ch583_kbd_rtt.Base.{
  ℕ, ◌+◌, ◌-◌, ◌%◌, Bool, true, false, List, [], ◌∷◌, ltb, ◌==◌, if◌then◌else◌, u8,
}
use ch583_kbd_rtt.Light.{
  Light, of_raw, with_config, save, rgblight_modes, rgblight_hue_step, rgblight_sat_step,
  rgblight_val_step, raw, eeconfig_read_rgblight, eeconfig_update_rgblight,
  eeconfig_update_rgblight_default, rgblight_set, rgblight_setrgb, rgblight_setrgb_at,
  rgblight_sethsv_at, rgblight_mode_eeprom_helper, rgblight_sethsv_eeprom_helper,
}
use ch583_kbd_rtt.Light.Colour.{Led, rgblight_limit_val, sethsv}

abbrev pub rgblight_mode : ℕ → Light → Light
rgblight_mode mode s = rgblight_mode_eeprom_helper mode true s

abbrev pub rgblight_mode_noeeprom : ℕ → Light → Light
rgblight_mode_noeeprom mode s = rgblight_mode_eeprom_helper mode false s

abbrev pub rgblight_sethsv : ℕ → ℕ → ℕ → Light → Light
rgblight_sethsv hue sat val s = rgblight_sethsv_eeprom_helper hue sat val true s

unfoldable pub rgblight_init : Light → Light
unfolding eeconfig_read_rgblight of_raw eeconfig_update_rgblight_default rgblight_mode_eeprom_helper
rgblight_init s =
    let s1 = with_config (of_raw (eeconfig_read_rgblight s.store)) s in
    let s2 = eeconfig_update_rgblight_default s1 in
    let s3 =
      if s1.rgblight_config.mode == 0
      then with_config (of_raw (eeconfig_read_rgblight s2.store)) s2
      else s1 in
    if s3.rgblight_config.enable then rgblight_mode_noeeprom s3.rgblight_config.mode s3 else s3

unfoldable pub rgblight_update_dword : ℕ → Light → Light
unfolding of_raw eeconfig_update_rgblight raw rgblight_set rgblight_mode_eeprom_helper
rgblight_update_dword dword s =
    let s' = save (with_config (of_raw dword) s) in
    if s'.rgblight_config.enable then rgblight_mode s'.rgblight_config.mode s' else rgblight_set s'

-- The modes that the four operations ask for, from the mode before; `mode` is a `uint8_t`.
abbrev pub increased : ℕ → ℕ
increased mode = if ltb mode rgblight_modes then mode + 1 else 0

abbrev pub decreased : ℕ → ℕ
decreased mode = if ltb 1 mode then mode - 1 else 0

abbrev pub stepped : ℕ → ℕ
stepped mode = if ltb rgblight_modes (mode + 1) then 1 else mode + 1

abbrev pub stepped_back : ℕ → ℕ
stepped_back mode = if ltb (u8 (mode + 255)) 1 then rgblight_modes else u8 (mode + 255)

unfoldable pub rgblight_enable : Bool → Light → Light
unfolding rgblight_mode_eeprom_helper
rgblight_enable write_to_eeprom s =
    let s' = with_config (record (s.rgblight_config) { enable = true }) s in
    rgblight_mode_eeprom_helper s'.rgblight_config.mode write_to_eeprom s'

unfoldable pub rgblight_disable : Bool → Light → Light
unfolding eeconfig_update_rgblight raw rgblight_set
rgblight_disable write_to_eeprom s =
    let s' = with_config (record (s.rgblight_config) { enable = false }) s in
    rgblight_set (if write_to_eeprom then save s' else s')

unfoldable pub rgblight_toggle : Bool → Light → Light
unfolding rgblight_enable rgblight_disable
rgblight_toggle write_to_eeprom s =
    if s.rgblight_config.enable
    then rgblight_disable write_to_eeprom s
    else rgblight_enable write_to_eeprom s

-- The hue, saturation and value after a step; the sums are of `int`s.
abbrev pub next_hue : ℕ → ℕ
next_hue hue = (hue + rgblight_hue_step) % 360

abbrev pub last_hue : ℕ → ℕ
last_hue hue =
    if ltb hue rgblight_hue_step
    then (hue + 360 - rgblight_hue_step) % 360
    else (hue - rgblight_hue_step) % 360

-- A byte a step further, up to `most`, and a step back, down to zero.
abbrev pub raised : ℕ → ℕ → ℕ → ℕ
raised most step x = if ltb most (x + step) then most else x + step

abbrev pub lowered : ℕ → ℕ → ℕ
lowered step x = if ltb x step then 0 else x - step

unfoldable pub rgblight_set_val : ℕ → Light → Light
unfolding rgblight_setrgb sethsv
rgblight_set_val value s =
    rgblight_setrgb (sethsv s.rgblight_config.hue s.rgblight_config.sat value) s

unfoldable pub rgblight_show_solid_color : Led → Light → Light
unfolding rgblight_enable rgblight_mode_eeprom_helper rgblight_setrgb
rgblight_show_solid_color l s = rgblight_setrgb l (rgblight_mode 1 (rgblight_enable true s))

-- The operations of rgblight.h; the Booleans tell those that save from their `_noeeprom`.
pub data Command : Type 0 where
  increase decrease step step_reverse : Command
  mode : ℕ → Bool → Command
  enable disable toggle : Bool → Command
  increase_hue decrease_hue increase_sat decrease_sat increase_val decrease_val : Command
  update_dword : ℕ → Command
  sethsv_all : ℕ → ℕ → ℕ → Bool → Command
  set_val : ℕ → Command
  setrgb show_solid_color : Led → Command
  setrgb_at : Led → ℕ → Command
  sethsv_at : ℕ → ℕ → ℕ → ℕ → Command

unfoldable pub perform : Command → Light → Light
unfolding rgblight_mode_eeprom_helper rgblight_sethsv_eeprom_helper rgblight_enable rgblight_disable
    rgblight_toggle rgblight_set_val rgblight_update_dword rgblight_show_solid_color rgblight_setrgb
    rgblight_setrgb_at rgblight_sethsv_at
perform increase s = rgblight_mode (increased s.rgblight_config.mode) s
perform decrease s = rgblight_mode (decreased s.rgblight_config.mode) s
perform step s = rgblight_mode (stepped s.rgblight_config.mode) s
perform step_reverse s = rgblight_mode (stepped_back s.rgblight_config.mode) s
perform (mode m w) s = rgblight_mode_eeprom_helper m w s
perform (enable w) s = rgblight_enable w s
perform (disable w) s = rgblight_disable w s
perform (toggle w) s = rgblight_toggle w s
perform increase_hue s = let c = s.rgblight_config in rgblight_sethsv (next_hue c.hue) c.sat c.val s
perform decrease_hue s = let c = s.rgblight_config in rgblight_sethsv (last_hue c.hue) c.sat c.val s
perform increase_sat s =
    let c = s.rgblight_config in rgblight_sethsv c.hue (raised 255 rgblight_sat_step c.sat) c.val s
perform decrease_sat s =
    let c = s.rgblight_config in rgblight_sethsv c.hue (lowered rgblight_sat_step c.sat) c.val s
perform increase_val s =
    let c = s.rgblight_config in
    rgblight_sethsv c.hue c.sat (raised rgblight_limit_val rgblight_val_step c.val) s
perform decrease_val s =
    let c = s.rgblight_config in rgblight_sethsv c.hue c.sat (lowered rgblight_val_step c.val) s
perform (update_dword dword) s = rgblight_update_dword dword s
perform (sethsv_all hue sat val w) s = rgblight_sethsv_eeprom_helper hue sat val w s
perform (set_val value) s = rgblight_set_val value s
perform (setrgb l) s = rgblight_setrgb l s
perform (show_solid_color l) s = rgblight_show_solid_color l s
perform (setrgb_at l index) s = rgblight_setrgb_at l index s
perform (sethsv_at hue sat val index) s = rgblight_sethsv_at hue sat val index s

unfoldable pub performs : List Command → Light → Light
unfolding perform
performs [] s = s
performs (c ∷ cs) s = performs cs (perform c s)
