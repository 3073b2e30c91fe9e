-- ===== src/Light/Colour.antt =====
-- DRIVERS/RGB/RGB_bottom/rgblight.c: `sethsv`, a colour given as hue, saturation and value, with the
-- curve of led_tables.c.
use ch583_kbd_rtt.Base.{
  ℕ, ◌+◌, ◌-◌, ◌*◌, ◌/◌, ◌%◌, List, [], ◌∷◌, ltb, ◌==◌, if◌then◌else◌, get_or, u8, ◌>>>◌,
}

-- One light, as `cRGB`.
pub record Led : Type 0 where
  pub r : ℕ
  pub g : ℕ
  pub b : ℕ

abbrev pub dark : Led
dark = record { r = 0; g = 0; b = 0 }

abbrev pub rgblight_limit_val : ℕ
rgblight_limit_val = 255

-- `CIE1931_CURVE`
abbrev pub cie1931_curve : List ℕ
cie1931_curve =
    0 ∷ 0 ∷ 0 ∷ 0 ∷ 0 ∷ 1 ∷ 1 ∷ 1 ∷ 1 ∷ 1 ∷ 1 ∷ 1 ∷ 1 ∷ 1 ∷ 2 ∷ 2 ∷ 2 ∷ 2 ∷ 2 ∷ 2 ∷ 2 ∷ 2 ∷ 2 ∷ 3
    ∷ 3 ∷ 3 ∷ 3 ∷ 3 ∷ 3 ∷ 3 ∷ 3 ∷ 4 ∷ 4 ∷ 4 ∷ 4 ∷ 4 ∷ 4 ∷ 5 ∷ 5 ∷ 5 ∷ 5 ∷ 5 ∷ 6 ∷ 6 ∷ 6 ∷ 6 ∷ 6 ∷ 7
    ∷ 7 ∷ 7 ∷ 7 ∷ 8 ∷ 8 ∷ 8 ∷ 8 ∷ 9 ∷ 9 ∷ 9 ∷ 10 ∷ 10 ∷ 10 ∷ 10 ∷ 11 ∷ 11 ∷ 11 ∷ 12 ∷ 12 ∷ 12 ∷ 13
    ∷ 13 ∷ 13 ∷ 14 ∷ 14 ∷ 15 ∷ 15 ∷ 15 ∷ 16 ∷ 16 ∷ 17 ∷ 17 ∷ 17 ∷ 18 ∷ 18 ∷ 19 ∷ 19 ∷ 20 ∷ 20 ∷ 21
    ∷ 21 ∷ 22 ∷ 22 ∷ 23 ∷ 23 ∷ 24 ∷ 24 ∷ 25 ∷ 25 ∷ 26 ∷ 26 ∷ 27 ∷ 28 ∷ 28 ∷ 29 ∷ 29 ∷ 30 ∷ 31 ∷ 31
    ∷ 32 ∷ 32 ∷ 33 ∷ 34 ∷ 34 ∷ 35 ∷ 36 ∷ 37 ∷ 37 ∷ 38 ∷ 39 ∷ 39 ∷ 40 ∷ 41 ∷ 42 ∷ 43 ∷ 43 ∷ 44 ∷ 45
    ∷ 46 ∷ 47 ∷ 47 ∷ 48 ∷ 49 ∷ 50 ∷ 51 ∷ 52 ∷ 53 ∷ 54 ∷ 54 ∷ 55 ∷ 56 ∷ 57 ∷ 58 ∷ 59 ∷ 60 ∷ 61 ∷ 62
    ∷ 63 ∷ 64 ∷ 65 ∷ 66 ∷ 67 ∷ 68 ∷ 70 ∷ 71 ∷ 72 ∷ 73 ∷ 74 ∷ 75 ∷ 76 ∷ 77 ∷ 79 ∷ 80 ∷ 81 ∷ 82 ∷ 83
    ∷ 85 ∷ 86 ∷ 87 ∷ 88 ∷ 90 ∷ 91 ∷ 92 ∷ 94 ∷ 95 ∷ 96 ∷ 98 ∷ 99 ∷ 100 ∷ 102 ∷ 103 ∷ 105 ∷ 106 ∷ 108
    ∷ 109 ∷ 110 ∷ 112 ∷ 113 ∷ 115 ∷ 116 ∷ 118 ∷ 120 ∷ 121 ∷ 123 ∷ 124 ∷ 126 ∷ 128 ∷ 129 ∷ 131 ∷ 132
    ∷ 134 ∷ 136 ∷ 138 ∷ 139 ∷ 141 ∷ 143 ∷ 145 ∷ 146 ∷ 148 ∷ 150 ∷ 152 ∷ 154 ∷ 155 ∷ 157 ∷ 159 ∷ 161
    ∷ 163 ∷ 165 ∷ 167 ∷ 169 ∷ 171 ∷ 173 ∷ 175 ∷ 177 ∷ 179 ∷ 181 ∷ 183 ∷ 185 ∷ 187 ∷ 189 ∷ 191 ∷ 193
    ∷ 196 ∷ 198 ∷ 200 ∷ 202 ∷ 204 ∷ 207 ∷ 209 ∷ 211 ∷ 214 ∷ 216 ∷ 218 ∷ 220 ∷ 223 ∷ 225 ∷ 228 ∷ 230
    ∷ 232 ∷ 235 ∷ 237 ∷ 240 ∷ 242 ∷ 245 ∷ 247 ∷ 250 ∷ 252 ∷ 255 ∷ []

abbrev pub with_levels : ℕ → ℕ → ℕ → Led
with_levels r g b = record { r = r; g = g; b = b }

-- The `switch` of `sethsv` on `hue / 60`, from `base` and `color`; the levels stay zero for a hue
-- that no case names.
unfoldable pub sector : ℕ → ℕ → ℕ → ℕ → Led
sector k val base color =
    if k == 0
    then with_levels val (u8 (base + color)) base
    else if k == 1
    then with_levels (u8 (val - color)) val base
    else if k == 2
    then with_levels base val (u8 (base + color))
    else if k == 3
    then with_levels base (u8 (val - color)) val
    else if k == 4
    then with_levels (u8 (base + color)) base val
    else if k == 5
    then with_levels val base (u8 (val - color))
    else dark

abbrev pub base_of : ℕ → ℕ → ℕ
base_of sat val = u8 (((255 - sat) * val) >>> 8)

abbrev pub color_of : ℕ → ℕ → ℕ → ℕ
color_of hue base val = u8 ((val - base) * (hue % 60) / 60)

-- `sethsv` before the curve, from its first line that limits `val`.
unfoldable pub hsv_levels : ℕ → ℕ → ℕ → Led
unfolding sector
hsv_levels hue sat val0 =
    let val = if ltb rgblight_limit_val val0 then rgblight_limit_val else val0 in
    let base = base_of sat val in
    if sat == 0 then with_levels val val val else sector (hue / 60) val base (color_of hue base val)

unfoldable pub curve : ℕ → ℕ
curve x = get_or cie1931_curve x 0

unfoldable pub sethsv : ℕ → ℕ → ℕ → Led
unfolding hsv_levels curve
sethsv hue sat val =
    let l = hsv_levels hue sat val in with_levels (curve l.r) (curve l.g) (curve l.b)
