-- ===== src/Examples/Lamps.antt =====
-- DRIVERS/RGB/RGB_bottom/rgblight.c with lights that are on, over blocks that are mostly zero.
use ch583_kbd_rtt.Base.{◌≡◌, ◌<◌, refl, true, false, [], ◌∷◌, List, All, replicate, arith}
use ch583_kbd_rtt.Storage.{Storage}
use ch583_kbd_rtt.Light.{
  Light, of_raw, raw, put_word, eeconfig_read_rgblight, eeconfig_update_rgblight,
  eeconfig_update_rgblight_default, rgblight_set, fill,
}
use ch583_kbd_rtt.Light.Colour.{dark, sethsv, hsv_levels, sector, curve}
use ch583_kbd_rtt.Light.Commands.{Command, perform, performs, rgblight_init, rgblight_update_dword}
use ch583_kbd_rtt.Light.Operations.{Allowed}
use ch583_kbd_rtt.Light.Settings.{IsInRange, Loadable, performs-IsInRange}
use ch583_kbd_rtt.Light.Kept.{performs_not_stored}
use ch583_kbd_rtt.Light.Modes.{step-step_reverse}
use ch583_kbd_rtt.Light.Wheel.{on_wheel}
use ch583_kbd_rtt.Light.Static.{Shows, highest, lowest, grey, sethsv_all-Shows}

abbrev blocks : Storage
blocks = record {
  keymap_block = [];
  macro_block = [];
  config_block = replicate 24 0;
  keymap_valid = false;
}

abbrev lit : Light
lit = record {
  rgblight_config = record { enable = true; mode = 1; hue = 10; sat = 255; val = 200 };
  led = replicate 8 dark;
  store = blocks;
  sent = [];
  saved = [];
}

lit-IsInRange : IsInRange lit
lit-IsInRange = record {
  mode_low = omega arith;
  mode_high = omega arith;
  hue_high = omega arith;
  sat_high = omega arith;
  val_high = omega arith;
  whole = refl;
}

abbrev course : List Command
course =
    Command.toggle true
    ∷ Command.sethsv_all 300 17 90 true
    ∷ Command.toggle true
    ∷ Command.step
    ∷ Command.increase_hue
    ∷ Command.update_dword 0x80FF0A05
    ∷ []

course-Allowed : All (Allowed (λ hue. hue < 360) Loadable) course
unfolding of_raw
course-Allowed = (
  _,
  (
    omega arith,
    (_, (_, (_, ((omega arith, omega arith, omega arith, omega arith, omega arith), _)))),
  ),
)

performs-IsInRange_example : IsInRange (performs course lit)
performs-IsInRange_example = performs-IsInRange course lit course-Allowed lit-IsInRange

performs_not_stored_example :
    eeconfig_read_rgblight (performs course (rgblight_init lit)).store
    ≡ eeconfig_read_rgblight lit.store
performs_not_stored_example = performs_not_stored course lit

step-step_reverse_example :
    ((perform Command.step_reverse (perform Command.step lit)).rgblight_config
      ≡ lit.rgblight_config)
    × ((perform Command.step (perform Command.step_reverse lit)).rgblight_config
        ≡ lit.rgblight_config)
step-step_reverse_example = step-step_reverse lit refl lit-IsInRange

sethsv_all-Shows_example :
    Shows 200 128 255 lit (perform (Command.sethsv_all 200 128 255 true) lit)
    × (hsv_levels 200 128 255 ≡ on_wheel (grey 128 255) 255 200)
    × (highest (hsv_levels 200 128 255) ≡ 255)
    × (lowest (hsv_levels 200 128 255) ≡ grey 128 255)
sethsv_all-Shows_example =
    sethsv_all-Shows 200 128 255 true lit refl refl refl (omega arith) (omega arith) (omega arith)

-- A word of zeros, which update_dword does not refuse, leaves the ranges of the settings.
mode_lost : (perform (Command.update_dword 0) lit).rgblight_config.mode ≡ 0
unfolding perform rgblight_update_dword of_raw eeconfig_read_rgblight eeconfig_update_rgblight
    put_word raw rgblight_set fill
mode_lost = refl

-- Blocks that are zero leave the lights off and dark at every start.
fresh_start : (rgblight_init lit).rgblight_config ≡ of_raw 0
unfolding rgblight_init eeconfig_read_rgblight of_raw eeconfig_update_rgblight_default
    eeconfig_update_rgblight put_word raw
fresh_start = refl

-- Red at full saturation and value.
red : sethsv 0 255 255 ≡ record { r = 255; g = 0; b = 0 }
unfolding sethsv hsv_levels sector curve
red = refl
