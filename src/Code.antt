-- ===== src/Code.antt =====
-- TMK/action_code.h, keycode.h, led.h and report.h: the fields of an action's 16-bit code, the
-- ranges of key codes, and the usages that keys stand for.
use ch583_kbd_rtt.Base.{ℕ, ◌/◌, ◌%◌, Bool, ◌&&◌, ◌||◌, leb, ◌==◌, if◌then◌else◌, bit_and, u8, ◌<<<◌}

-- The bit fields of `action_t`, from the lowest bit on.
abbrev pub kind_id : ℕ → ℕ
kind_id code = code / 4096 % 16

abbrev pub key_code : ℕ → ℕ
key_code code = code % 256

abbrev pub key_mods : ℕ → ℕ
key_mods code = code / 256 % 16

abbrev pub bitop_bits : ℕ → ℕ
bitop_bits code = code % 16

abbrev pub bitop_xbit : ℕ → ℕ
bitop_xbit code = code / 16 % 2

abbrev pub bitop_part : ℕ → ℕ
bitop_part code = code / 32 % 8

abbrev pub bitop_on : ℕ → ℕ
bitop_on code = code / 256 % 4

abbrev pub bitop_op : ℕ → ℕ
bitop_op code = code / 1024 % 4

abbrev pub layer_tap_code : ℕ → ℕ
layer_tap_code code = code % 256

abbrev pub layer_tap_val : ℕ → ℕ
layer_tap_val code = code / 256 % 32

abbrev pub usage_code : ℕ → ℕ
usage_code code = code % 1024

abbrev pub usage_page : ℕ → ℕ
usage_page code = code / 1024 % 4

abbrev pub func_id : ℕ → ℕ
func_id code = code % 256

abbrev pub func_opt : ℕ → ℕ
func_opt code = code / 256 % 16

-- `IS_KEY`, `IS_MOD`, `IS_SYSTEM`, `IS_CONSUMER`
abbrev pub is_key : ℕ → Bool
is_key code = leb 0x04 code && leb code 0xA4

abbrev pub is_mod : ℕ → Bool
is_mod code = leb 0xE0 code && leb code 0xE7

abbrev pub is_system : ℕ → Bool
is_system code = leb 0xA5 code && leb code 0xA7

abbrev pub is_consumer : ℕ → Bool
is_consumer code = leb 0xA8 code && leb code 0xBE

-- `MOD_BIT`, into a `uint8_t`
abbrev pub mod_bit : ℕ → ℕ
mod_bit code = u8 (1 <<< bit_and code 7)

-- KC_LOCKING_CAPS, KC_LOCKING_NUM and KC_LOCKING_SCROLL, the keys that they stand for, and the
-- bits of their lights.
abbrev pub is_locking : ℕ → Bool
is_locking code = (code == 0x82 || code == 0x83) || code == 0x84

abbrev pub locking_key : ℕ → ℕ
locking_key code = if code == 0x82 then 0x39 else if code == 0x83 then 0x53 else 0x47

abbrev pub locking_led : ℕ → ℕ
locking_led code = if code == 0x82 then 2 else if code == 0x83 then 1 else 4

-- `KEYCODE2SYSTEM`
unfoldable pub keycode2system : ℕ → ℕ
keycode2system key =
    if key == 0xA5 then 0x81 else if key == 0xA6 then 0x82 else if key == 0xA7 then 0x83 else 0

-- `KEYCODE2CONSUMER`
unfoldable pub keycode2consumer : ℕ → ℕ
keycode2consumer key =
    if key == 0xA8
    then 0xE2
    else if key == 0xA9
    then 0xE9
    else if key == 0xAA
    then 0xEA
    else if key == 0xAB
    then 0xB5
    else if key == 0xAC
    then 0xB6
    else if key == 0xAD
    then 0xB3
    else if key == 0xAE
    then 0xB4
    else if key == 0xAF
    then 0xB7
    else if key == 0xB1
    then 0xCC
    else if key == 0xB0
    then 0xCD
    else if key == 0xB2
    then 0x183
    else if key == 0xB3
    then 0x18A
    else if key == 0xB4
    then 0x192
    else if key == 0xB5
    then 0x194
    else if key == 0xB6
    then 0x221
    else if key == 0xB7
    then 0x223
    else if key == 0xB8
    then 0x224
    else if key == 0xB9
    then 0x225
    else if key == 0xBA
    then 0x226
    else if key == 0xBB
    then 0x227
    else if key == 0xBC
    then 0x22A
    else if key == 0xBD
    then 0x6F
    else if key == 0xBE
    then 0x70
    else 0
