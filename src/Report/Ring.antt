-- ===== src/Report/Ring.antt =====
-- The ring of six keys of TMK/action_util.c (USB_6KRO_ENABLE), and the choice between the two ways
-- to enter a key.
use ch583_kbd_rtt.Base.{
  ℕ, zero, suc, ◌+◌, ◌-◌, ◌%◌, Option, none, some, List, ◌==◌, ◌!=◌, if◌then◌else◌, u8, get_or, set,
}
use ch583_kbd_rtt.Report.{Report, six_keys, nkro_mode, add_key_bit, del_key_bit}

-- `keys[i]`
abbrev pub key_at : List ℕ → ℕ → ℕ
key_at raw i = get_or raw (2 + i) 0

abbrev pub put_key : List ℕ → ℕ → ℕ → List ℕ
put_key raw i code = set raw (2 + i) code

abbrev pub ro_inc : ℕ → ℕ
ro_inc a = (a + 1) % six_keys

abbrev pub ro_sub : ℕ → ℕ → ℕ
ro_sub a b = (a + six_keys - b) % six_keys

abbrev pub ro_dec : ℕ → ℕ
ro_dec a = ro_sub a 1

-- How the first loop of `add_key_byte` ends: at the key itself, or at the tail with the first
-- empty place if it met one (`empty` is -1 otherwise).
pub data Scan : Type 0 where
  present : Scan
  absent : Option ℕ → Scan

abbrev pub first_empty : Option ℕ → ℕ → ℕ → Option ℕ
first_empty none i k = if k == 0 then some i else none
first_empty (some e) i k = some e

-- The `do … while (i != cb_tail)` loops, with fuel; `none` means that the fuel ran out.
unfoldable pub scan_ring : ℕ → List ℕ → ℕ → ℕ → ℕ → Option ℕ → Option Scan
scan_ring zero raw code tail i empty = none
scan_ring (suc fuel) raw code tail i empty =
    let empty' = first_empty empty i (key_at raw i) in
    let rest = scan_ring fuel raw code tail (ro_inc i) empty' in
    if key_at raw i == code
    then some present
    else if ro_inc i == tail
    then some (absent empty')
    else rest

-- What the left shift of `add_key_byte` carries.
pub record Shift : Type 0 where
  pub raw : List ℕ
  pub empty : ℕ
  pub offset : ℕ

abbrev pub shift_step : ℕ → Shift → Shift
shift_step i s =
    if key_at s.raw i != 0
    then record {
      raw = put_key (put_key s.raw s.empty (key_at s.raw i)) i 0;
      empty = ro_inc s.empty;
      offset = s.offset;
    }
    else record s { offset = u8 (s.offset + 1) }

unfoldable pub shift_ring : ℕ → ℕ → ℕ → Shift → Option Shift
shift_ring zero tail i s = none
shift_ring (suc fuel) tail i s =
    let rest = shift_ring fuel tail (ro_inc i) (shift_step i s) in
    if ro_inc i == tail then some (shift_step i s) else rest

-- `keys[cb_tail] = code; cb_tail = RO_INC(cb_tail); cb_count++;`
unfoldable pub append_key : ℕ → Report → Report
append_key code r = record r {
  raw = put_key r.raw r.cb_tail code;
  cb_tail = ro_inc r.cb_tail;
  cb_count = u8 (r.cb_count + 1);
}

-- What `add_key_byte` does between its scan and its append.
unfoldable pub make_room : Option ℕ → Report → Option Report
make_room none r =
    if r.cb_tail == r.cb_head
    then some (record r { cb_head = ro_inc r.cb_head; cb_count = u8 (r.cb_count + 255) })
    else some r
make_room (some e) r =
    if r.cb_tail == r.cb_head
    then elim (shift_ring six_keys r.cb_tail (ro_inc e)
        (record { raw = r.raw; empty = e; offset = 1 })) [
          | none ↦ none
          | some s ↦ some (record r { raw = s.raw; cb_tail = ro_sub r.cb_tail s.offset })
        ]
    else some r

-- How `add_key_byte` goes on after the scan.
unfoldable pub after_scan : ℕ → Report → Option Scan → Option Report
unfolding append_key make_room
after_scan code r none = none
after_scan code r (some present) = some r
after_scan code r (some (absent empty)) = elim (make_room empty r) [
  | none ↦ none
  | some r' ↦ some (append_key code r')
]

unfoldable pub add_key_byte : ℕ → Report → Option Report
unfolding after_scan append_key
add_key_byte code r =
    if r.cb_count != 0
    then after_scan code r (scan_ring six_keys r.raw code r.cb_tail r.cb_head none)
    else some (append_key code r)

-- The inner loop of `del_key_byte`, which takes the tail back to the last key.
unfoldable pub retreat : ℕ → List ℕ → ℕ → ℕ → Option ℕ
retreat zero raw head tail = none
retreat (suc fuel) raw head tail =
    let tail' = ro_dec tail in
    let rest = retreat fuel raw head tail' in
    if key_at raw (ro_dec tail') != 0
    then some tail'
    else if tail' == head
    then some tail'
    else rest

-- `keys[i] = 0; cb_count--; if (cb_count == 0) cb_tail = cb_head = 0;`
unfoldable pub take_out : ℕ → Report → Report
take_out i r =
    let count = u8 (r.cb_count + 255) in
    record r {
      raw = put_key r.raw i 0;
      cb_count = count;
      cb_head = if count == 0 then 0 else r.cb_head;
      cb_tail = if count == 0 then 0 else r.cb_tail;
    }

-- What follows the removal of the key at `i`.
unfoldable pub close_gap : ℕ → Report → Option Report
unfolding retreat
close_gap i r =
    if i == ro_dec r.cb_tail
    then elim (retreat six_keys r.raw r.cb_head r.cb_tail) [
      | none ↦ none
      | some tail ↦ some (record r { cb_tail = tail })
    ]
    else some r

-- The outer loop of `del_key_byte`.
unfoldable pub del_from : ℕ → ℕ → ℕ → Report → Option Report
unfolding take_out close_gap
del_from zero code i r = none
del_from (suc fuel) code i r =
    let rest = del_from fuel code (ro_inc i) r in
    if key_at r.raw i == code
    then close_gap i (take_out i r)
    else if ro_inc i == r.cb_tail
    then some r
    else rest

unfoldable pub del_key_byte : ℕ → Report → Option Report
unfolding del_from
del_key_byte code r = if r.cb_count != 0 then del_from six_keys code r.cb_head r else some r

unfoldable pub add_key : ℕ → Report → Option Report
add_key key r = if nkro_mode r then some (add_key_bit key r) else add_key_byte key r

unfoldable pub del_key : ℕ → Report → Option Report
del_key key r = if nkro_mode r then some (del_key_bit key r) else del_key_byte key r
