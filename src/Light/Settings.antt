-- ===== src/Light/Settings.antt =====
-- DRIVERS/RGB/RGB_bottom/rgblight.c: the ranges of the settings.
use ch583_kbd_rtt.Base.{ℕ, ◌≡◌, ◌≤◌, ◌<◌, ◌%◌, ◌∙◌, List, ◌!=◌, if_both, length, All, arith}
use ch583_kbd_rtt.Light.{
  Light, LightConfig, between, settled, mode_in_range, eeconfig_read_rgblight,
  eeconfig_update_rgblight,
}
use ch583_kbd_rtt.Light.Commands.{Command, performs}
use ch583_kbd_rtt.Light.Operations.{IsClosed, Allowed, performs-keeps}

-- The settings in their ranges, and as many lights as RGBLED_NUM.
pub record IsInRange (s : Light) : Type 0 where
  pub mode_low : 1 ≤ s.rgblight_config.mode
  pub mode_high : s.rgblight_config.mode ≤ 36
  pub hue_high : s.rgblight_config.hue < 360
  pub sat_high : s.rgblight_config.sat < 256
  pub val_high : s.rgblight_config.val < 256
  pub whole : length s.led ≡ 8

-- Settings that may be loaded whole.
abbrev pub Loadable : LightConfig → Type 0
Loadable c = (1 ≤ c.mode) × (c.mode ≤ 36) × (c.hue < 360) × (c.sat < 256) × (c.val < 256)

settled_hue :
    (hue sat val : ℕ) (c : LightConfig)
    → c.hue < 360
    → hue < 360
    → (settled hue sat val c).hue < 360
unfolding settled
settled_hue hue sat val c r h =
    if_both (λ h0. h0 % 512 < 360) (between 6 14 c.mode) (omega arith) (omega arith)

in_range : (m : ℕ) → (1 ≤ mode_in_range m) × (mode_in_range m ≤ 36)
unfolding mode_in_range
in_range m = ground arith

IsInRange-IsClosed : IsClosed (λ hue. hue < 360) Loadable IsInRange
unfolding settled eeconfig_update_rgblight
IsInRange-IsClosed = record {
  turned = λ hue h. h;
  held = λ s r. r.hue_high;
  lights = λ s s' (c, st, n) r. record {
    mode_low = rw c r.mode_low;
    mode_high = rw c r.mode_high;
    hue_high = rw c r.hue_high;
    sat_high = rw c r.sat_high;
    val_high = rw c r.val_high;
    whole = n ∙ r.whole;
  };
  saved = λ w s r.
      if_both IsInRange (eeconfig_read_rgblight s.store != w)
        (record {
          mode_low = r.mode_low;
          mode_high = r.mode_high;
          hue_high = r.hue_high;
          sat_high = r.sat_high;
          val_high = r.val_high;
          whole = r.whole;
        })
        r;
  settles = λ hue sat val s h r. record {
    mode_low = r.mode_low;
    mode_high = r.mode_high;
    hue_high = settled_hue hue sat val s.rgblight_config r.hue_high h;
    sat_high = omega arith;
    val_high = omega arith;
    whole = r.whole;
  };
  loaded = λ c s (low, high, hue, sat, val) r. record {
    mode_low = low;
    mode_high = high;
    hue_high = hue;
    sat_high = sat;
    val_high = val;
    whole = r.whole;
  };
  moded = λ m s r. record {
    mode_low = (in_range m).0;
    mode_high = (in_range m).1;
    hue_high = r.hue_high;
    sat_high = r.sat_high;
    val_high = r.val_high;
    whole = r.whole;
  };
  enabled = λ b s r. record {
    mode_low = r.mode_low;
    mode_high = r.mode_high;
    hue_high = r.hue_high;
    sat_high = r.sat_high;
    val_high = r.val_high;
    whole = r.whole;
  };
}

-- From settings in their ranges (mode 1 to 36, hue below 360, saturation and value below 256) and
-- eight lights, any operations, in which a hue given by rgblight_sethsv is below 360 and a word
-- given by rgblight_update_dword has a mode from 1 to 36 and a hue below 360 in its fields, leave
-- settings in their ranges and eight lights.
pub performs-IsInRange :
    (cs : List Command) (s : Light)
    → All (Allowed (λ hue. hue < 360) Loadable) cs
    → IsInRange s
    → IsInRange (performs cs s)
performs-IsInRange = performs-keeps IsInRange-IsClosed
