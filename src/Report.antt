-- ===== src/Report.antt =====
-- TMK/action_util.c and report.h: the keyboard report, the modifiers, and the two ways to enter a
-- key, six keys in a ring or one bit for each key. keyboard/zora61 defines NKRO_ENABLE,
-- USB_6KRO_ENABLE and NKRO_EPSIZE = 28, and no ONESHOT_TIMEOUT.
pub mod Ring
pub mod First
pub mod Nkro
pub mod SixKey
pub mod Send
use ch583_kbd_rtt.Base.{
  ℕ, zero, suc, ◌+◌, ◌-◌, ◌*◌, ◌/◌, ◌%◌, ◌^◌, Bool, true, false, not, ◌&&◌, ◌||◌, Option, none,
  some, List, [], ◌∷◌, ◌++◌, ltb, ◌==◌, ◌!=◌, if◌then◌else◌, bit_and, bit_or, u8, ◌<<<◌, ◌>>>◌,
  complement, get_or, set, replicate,
}
use ch583_kbd_rtt.Util.{bitpop, biton}

abbrev pub keyboard_report_size : ℕ
keyboard_report_size = 28

-- `KEYBOARD_REPORT_BITS`
abbrev pub keyboard_report_bits : ℕ
keyboard_report_bits = keyboard_report_size - 1

-- `USB_6KRO_KEYS`
abbrev pub six_keys : ℕ
six_keys = 6

-- The statics of action_util.c, with the two switches of host.c and keyboard_host_driver.c that it
-- reads. `raw` is the union `report_keyboard_t` byte by byte: `mods` is byte 0, `keys[i]` byte
-- `2 + i`, `nkro.bits[i]` byte `1 + i`. `cb_count`, an `int8_t` that is only tested against 0,
-- is its bit pattern.
pub record Report : Type 0 where
  pub raw : List ℕ
  pub cb_head : ℕ
  pub cb_tail : ℕ
  pub cb_count : ℕ
  pub real_mods : ℕ
  pub weak_mods : ℕ
  pub oneshot_mods : ℕ
  pub keyboard_protocol : ℕ
  pub keyboard_nkro : Bool

-- The modifiers.
unfoldable pub add_mods : ℕ → Report → Report
add_mods mods r = record r { real_mods = bit_or r.real_mods mods }

unfoldable pub del_mods : ℕ → Report → Report
del_mods mods r = record r { real_mods = bit_and r.real_mods (complement 8 mods) }

unfoldable pub set_mods : ℕ → Report → Report
set_mods mods r = record r { real_mods = mods }

unfoldable pub clear_mods : Report → Report
clear_mods r = record r { real_mods = 0 }

unfoldable pub add_weak_mods : ℕ → Report → Report
add_weak_mods mods r = record r { weak_mods = bit_or r.weak_mods mods }

unfoldable pub del_weak_mods : ℕ → Report → Report
del_weak_mods mods r = record r { weak_mods = bit_and r.weak_mods (complement 8 mods) }

unfoldable pub set_weak_mods : ℕ → Report → Report
set_weak_mods mods r = record r { weak_mods = mods }

unfoldable pub clear_weak_mods : Report → Report
clear_weak_mods r = record r { weak_mods = 0 }

unfoldable pub set_oneshot_mods : ℕ → Report → Report
set_oneshot_mods mods r = record r { oneshot_mods = mods }

unfoldable pub clear_oneshot_mods : Report → Report
clear_oneshot_mods r = record r { oneshot_mods = 0 }

-- The loop of `clear_keys`, from byte `i`, with `left` rounds to go.
unfoldable pub zero_from : ℕ → ℕ → List ℕ → List ℕ
zero_from zero i raw = raw
zero_from (suc left) i raw = zero_from left (i + 1) (set raw i 0)

unfoldable pub clear_keys : Report → Report
unfolding zero_from
clear_keys r = record r { raw = zero_from (keyboard_report_size - 1) 1 r.raw }

-- The loop of `has_anykey`.
unfoldable pub count_from : ℕ → ℕ → ℕ → List ℕ → ℕ
count_from zero i cnt raw = cnt
count_from (suc left) i cnt raw =
    count_from left (i + 1) (if get_or raw i 0 != 0 then u8 (cnt + 1) else cnt) raw

unfoldable pub has_anykey : Report → ℕ
unfolding count_from
has_anykey r = count_from (keyboard_report_size - 1) 1 0 r.raw

-- The report that `send_keyboard_report` hands to the host driver, and the state after it.
unfoldable pub send_keyboard_report : Report → Report × List ℕ
unfolding has_anykey clear_oneshot_mods
send_keyboard_report r =
    let mods = bit_or r.real_mods r.weak_mods in
    let plain = record r { raw = set r.raw 0 mods } in
    let shot = record r { raw = set r.raw 0 (bit_or mods r.oneshot_mods) } in
    if r.oneshot_mods != 0
    then (if has_anykey shot != 0 then clear_oneshot_mods shot else shot, shot.raw)
    else (plain, plain.raw)

-- `keyboard_protocol && keyboard_nkro`
abbrev pub nkro_mode : Report → Bool
nkro_mode r = r.keyboard_protocol != 0 && r.keyboard_nkro

unfoldable pub add_key_bit : ℕ → Report → Report
add_key_bit code r =
    let i = 1 + (code >>> 3) in
    if ltb (code >>> 3) keyboard_report_bits
    then record r { raw = set r.raw i (u8 (bit_or (get_or r.raw i 0) (1 <<< bit_and code 7))) }
    else r

unfoldable pub del_key_bit : ℕ → Report → Report
del_key_bit code r =
    let i = 1 + (code >>> 3) in
    if ltb (code >>> 3) keyboard_report_bits
    then record r {
      raw = set r.raw i (bit_and (get_or r.raw i 0) (complement 8 (1 <<< bit_and code 7)));
    }
    else r

unfoldable pub has_anymod : Report → Option ℕ
has_anymod r = bitpop r.real_mods
