-- ===== src/Light.antt =====
-- DRIVERS/RGB/RGB_bottom/rgblight.c: the settings of the lights under the keys, the operations that
-- change them, and where they are saved. RGBLED_NUM is 8, as in keyboard/zora61/config.h. The pin
-- of RGB_PWR_PIN is not written by this code, so the two functions for the power do nothing.
pub mod Colour
pub mod Commands
pub mod Kept
pub mod Lights
pub mod Operations
pub mod Settings
pub mod Modes
pub mod Wheel
pub mod Static
use ch583_kbd_rtt.Base.{
  ℕ, zero, suc, ◌+◌, ◌-◌, ◌*◌, ◌/◌, ◌%◌, Bool, true, false, not, ◌&&◌, ◌||◌, List, [], ◌∷◌, ltb,
  leb, ◌==◌, ◌!=◌, if◌then◌else◌, bool_to_nat, get_or, set, u8, u32, bit_or, ◌<<<◌, ◌>>>◌,
}
use ch583_kbd_rtt.Storage.{Storage}
use Colour.{Led, dark, rgblight_limit_val, sethsv}

abbrev pub rgbled_num : ℕ
rgbled_num = 8

abbrev pub rgblight_modes : ℕ
rgblight_modes = 36

abbrev pub rgblight_hue_step : ℕ
rgblight_hue_step = 6

abbrev pub rgblight_sat_step : ℕ
rgblight_sat_step = 17

abbrev pub rgblight_val_step : ℕ
rgblight_val_step = 17

abbrev pub rgbled_gradient_ranges : List ℕ
rgbled_gradient_ranges = 360 ∷ 240 ∷ 180 ∷ 120 ∷ 90 ∷ []

-- `rgblight_config_t`: its bit fields, of 1, 6, 9, 8 and 8 bits, and its `raw` word.
pub record LightConfig : Type 0 where
  pub enable : Bool
  pub mode : ℕ
  pub hue : ℕ
  pub sat : ℕ
  pub val : ℕ

unfoldable pub raw : LightConfig → ℕ
raw c = bool_to_nat c.enable + 2 * c.mode + 128 * c.hue + 65536 * c.sat + 16777216 * c.val

unfoldable pub of_raw : ℕ → LightConfig
of_raw w = record {
  enable = w % 2 == 1;
  mode = w / 2 % 64;
  hue = w / 128 % 512;
  sat = w / 65536 % 256;
  val = w / 16777216 % 256;
}

-- `rgblight_config`, `led` and the blocks; `sent` are the lights that `ws2812_setleds` was given and
-- `saved` the blocks at each call of `storage_write(1 << STORAGE_CONFIG)`, the last ones first.
pub record Light : Type 0 where
  pub rgblight_config : LightConfig
  pub led : List Led
  pub store : Storage
  pub sent : List (List Led)
  pub saved : List Storage

abbrev pub rgb_light_config_p : ℕ
rgb_light_config_p = 5

-- A byte of `config_block`.
abbrev pub config_byte : ℕ → Storage → ℕ
config_byte i s = get_or s.config_block i 0

unfoldable pub eeconfig_read_rgblight : Storage → ℕ
eeconfig_read_rgblight s = u32 (
    bit_or
      (bit_or
        (bit_or (config_byte (3 + rgb_light_config_p) s)
          (config_byte (2 + rgb_light_config_p) s <<< 8))
        (config_byte (1 + rgb_light_config_p) s <<< 16))
      (config_byte rgb_light_config_p s <<< 24))

-- The four assignments of `eeconfig_update_rgblight`.
unfoldable pub put_word : ℕ → List ℕ → List ℕ
put_word w bytes =
    set (set (set (set bytes 3 (u8 w)) 2 (u8 (w >>> 8))) 1 (u8 (w >>> 16))) 0 (u8 (w >>> 24))

unfoldable pub eeconfig_update_rgblight : ℕ → Light → Light
unfolding eeconfig_read_rgblight put_word
eeconfig_update_rgblight w s =
    let store' = record (s.store) { config_block = put_word w s.store.config_block } in
    if eeconfig_read_rgblight s.store != w
    then record s { store = store'; saved = store' ∷ s.saved }
    else s

abbrev pub with_config : LightConfig → Light → Light
with_config c s = record s { rgblight_config = c }

abbrev pub save : Light → Light
save s = eeconfig_update_rgblight (raw s.rgblight_config) s

unfoldable pub eeconfig_update_rgblight_default : Light → Light
unfolding eeconfig_update_rgblight raw
eeconfig_update_rgblight_default s = save (
    with_config (record { enable = true; mode = 1; hue = 0; sat = 255; val = rgblight_limit_val })
      s)

-- A loop over `led` from index `i`, with `left` rounds to go: each light becomes `light i`.
unfoldable pub fill : (ℕ → Led) → ℕ → ℕ → List Led → List Led
fill light i zero leds = leds
fill light i (suc left) leds = fill light (i + 1) left (set leds i (light i))

unfoldable pub rgblight_set : Light → Light
unfolding fill
rgblight_set s =
    let leds = if s.rgblight_config.enable then s.led else fill (λ i. dark) 0 rgbled_num s.led in
    record s { led = leds; sent = leds ∷ s.sent }

unfoldable pub rgblight_setrgb : Led → Light → Light
unfolding fill rgblight_set
rgblight_setrgb l s =
    if s.rgblight_config.enable
    then rgblight_set (record s { led = fill (λ i. l) 0 rgbled_num s.led })
    else s

unfoldable pub rgblight_setrgb_at : Led → ℕ → Light → Light
unfolding rgblight_set
rgblight_setrgb_at l index s =
    if not s.rgblight_config.enable || leb rgbled_num index
    then s
    else rgblight_set (record s { led = set s.led index l })

unfoldable pub rgblight_sethsv_at : ℕ → ℕ → ℕ → ℕ → Light → Light
unfolding rgblight_setrgb_at sethsv
rgblight_sethsv_at hue sat val index s =
    if s.rgblight_config.enable then rgblight_setrgb_at (sethsv hue sat val) index s else s

-- `_hue` of light `i` in the static gradients, modes 25 to 34. The sum is of `int`s and is not
-- negative: `range / RGBLED_NUM * i` is at most 315.
unfoldable pub gradient_hue : ℕ → ℕ → ℕ → ℕ
gradient_hue mode hue i =
    let turn = get_or rgbled_gradient_ranges ((mode - 25) / 2) 0 / rgbled_num * i in
    if (mode - 25) % 2 != 0 then (hue + 360 - turn) % 360 else (turn + hue + 360) % 360

abbrev pub between : ℕ → ℕ → ℕ → Bool
between low high x = leb low x && leb x high

-- The lights that `rgblight_sethsv_eeprom_helper` sets, by the mode.
unfoldable pub show : ℕ → ℕ → ℕ → Light → Light
unfolding rgblight_setrgb sethsv fill gradient_hue rgblight_set
show hue sat val s =
    let mode = s.rgblight_config.mode in
    if mode == 1
    then rgblight_setrgb (sethsv hue sat val) s
    else if between 25 34 mode
    then rgblight_set
        (record s { led = fill (λ i. sethsv (gradient_hue mode hue i) sat val) 0 rgbled_num s.led })
    else s

-- The settings that it leaves: breathing keeps its value, rainbow mood and swirl their hue.
unfoldable pub settled : ℕ → ℕ → ℕ → LightConfig → LightConfig
settled hue sat val c = record c {
  hue = (if between 6 14 c.mode then c.hue else hue) % 512;
  sat = u8 sat;
  val = u8 (if between 2 5 c.mode then c.val else val);
}

unfoldable pub rgblight_sethsv_eeprom_helper : ℕ → ℕ → ℕ → Bool → Light → Light
unfolding show settled eeconfig_update_rgblight raw
rgblight_sethsv_eeprom_helper hue sat val write_to_eeprom s =
    let s' = with_config (settled hue sat val s.rgblight_config) (show hue sat val s) in
    if s.rgblight_config.enable then if write_to_eeprom then save s' else s' else s

-- The mode that `rgblight_mode_eeprom_helper` sets.
unfoldable pub mode_in_range : ℕ → ℕ
mode_in_range mode =
    if ltb mode 1 then 1 else if ltb rgblight_modes mode then rgblight_modes else mode

unfoldable pub rgblight_mode_eeprom_helper : ℕ → Bool → Light → Light
unfolding mode_in_range eeconfig_update_rgblight raw rgblight_sethsv_eeprom_helper
rgblight_mode_eeprom_helper mode write_to_eeprom s =
    let c = record (s.rgblight_config) { mode = mode_in_range mode } in
    let s1 = with_config c s in
    let s2 = if write_to_eeprom then save s1 else s1 in
    if s.rgblight_config.enable then rgblight_sethsv_eeprom_helper c.hue c.sat c.val false s2 else s
