-- ===== src/Report/First.antt =====
-- `get_first_key` of TMK/action_util.c.
use ch583_kbd_rtt.Base.{
  ℕ, zero, suc, ◌+◌, Option, none, some, List, ◌==◌, ◌!=◌, if◌then◌else◌, bit_or, u8, ◌<<<◌, get_or,
}
use ch583_kbd_rtt.Util.{biton}
use ch583_kbd_rtt.Report.{Report, keyboard_report_bits, six_keys, nkro_mode}
use ch583_kbd_rtt.Report.Ring.{key_at, ro_inc}

-- The loop over `nkro.bits`: the first byte set, or the size.
unfoldable pub first_bits : ℕ → ℕ → List ℕ → ℕ
first_bits zero i raw = i
first_bits (suc left) i raw =
    let rest = first_bits left (i + 1) raw in if get_or raw (1 + i) 0 != 0 then i else rest

-- The loop over the ring, with fuel; `none` means that the fuel ran out.
unfoldable pub first_slot : ℕ → List ℕ → ℕ → ℕ → Option ℕ
first_slot zero raw tail i = none
first_slot (suc fuel) raw tail i =
    let rest = first_slot fuel raw tail (ro_inc i) in
    if key_at raw i != 0 then some i else if ro_inc i == tail then some (ro_inc i) else rest

-- `none` also stands for the read of `nkro.bits` behind its end, which is what happens with no bit set.
unfoldable pub get_first_key : Report → Option ℕ
unfolding first_bits first_slot
get_first_key r =
    let i = first_bits keyboard_report_bits 0 r.raw in
    let key = u8 (bit_or (i <<< 3) (biton (get_or r.raw (1 + i) 0))) in
    if nkro_mode r
    then if i == keyboard_report_bits then none else some key
    else elim (first_slot six_keys r.raw r.cb_tail r.cb_head) [
      | none ↦ none
      | some j ↦ some (key_at r.raw j)
    ]
