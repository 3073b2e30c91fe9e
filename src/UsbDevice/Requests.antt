-- ===== src/UsbDevice/Requests.antt =====
-- DRIVERS/USB/usbuser1.c: the requests of the host on endpoint 0, from the setup packet to the answer.
use ch583_kbd_rtt.Base.{
  ℕ, ◌-◌, ◌/◌, Bool, true, false, Option, none, some, List, ltb, leb, ◌==◌, ◌!=◌, if◌then◌else◌,
  get_or, u8, bit_and, bit_or, complement,
}
use ch583_kbd_rtt.Storage.{Access, ok, ◌>>=◌}
use ch583_kbd_rtt.UsbDevice.{
  UsbState, request_type, request, w_value, w_index, w_length, packet_len, put_byte, copy_descr,
  respond, direction_mask, stall, ready, Endpoint, ep1, ep2, ep3, ep_ctrl, set_ep_ctrl,
}
use ch583_kbd_rtt.UsbDevice.Descriptors.{
  device_descriptor, report_descriptor, report_descriptor2, report_descriptor3, config_descriptor,
  manufacturer_string, product_string, serial_number_string,
}

-- The device after a request, and whether `errflag` is set.
abbrev pub Answer : Type 0
Answer = UsbState × Bool

-- What the switch of GET_DESCRIPTOR sets: `pDescr` and `len`; or only `len = 0xff`, for a report
-- descriptor of an interface that there is not; or `errflag`.
pub data Choice : Type 0 where
  found : List ℕ → ℕ → Choice
  beyond unknown : Choice

unfoldable pub report_of : ℕ → Choice
report_of index =
    if index == 0
    then found report_descriptor (u8 63)
    else if index == 1
    then found report_descriptor2 (u8 173)
    else if index == 2
    then found report_descriptor3 (u8 38)
    else beyond

unfoldable pub string_of : ℕ → Choice
string_of index =
    if index == 1
    then found manufacturer_string 14
    else if index == 2
    then found product_string 16
    else if index == 0
    then found serial_number_string 10
    else unknown

unfoldable pub descriptor_of : ℕ → ℕ → Choice
unfolding report_of string_of
descriptor_of value index =
    let kind = value / 256 in
    if kind == 1
    then found device_descriptor 18
    else if kind == 2
    then found config_descriptor (u8 98)
    else if kind == 0x22
    then report_of (bit_and index 0xff)
    else if kind == 3
    then string_of (bit_and value 0xff)
    else unknown

-- The end of the case USB_GET_DESCRIPTOR.
unfoldable pub load : ℕ → Bool → UsbState → Access Answer
unfolding copy_descr
load len err d =
    let n = if ltb len d.setup_req_len then len else d.setup_req_len in
    copy_descr (packet_len n) (record d { setup_req_len = n }) >>= λ d'. ok (d', err)

unfoldable pub load_choice : Choice → UsbState → Access Answer
unfolding load
load_choice (found bytes len) d = load len false (record d { descr = bytes })
load_choice beyond d = load 0xff false d
load_choice unknown d = load 0 true d

unfoldable pub get_descriptor : UsbState → Access Answer
unfolding load_choice
get_descriptor d = load_choice (descriptor_of (w_value d) (w_index d)) d

-- `if(SetupReqLen > n) SetupReqLen = n;`
abbrev pub at_most : ℕ → UsbState → UsbState
at_most n d = if ltb n d.setup_req_len then record d { setup_req_len = n } else d

-- An endpoint address as the switches spell it; `true` is IN.
unfoldable pub endpoint_of : ℕ → Option (Endpoint × Bool)
endpoint_of address =
    if address == 0x83
    then some (ep3, true)
    else if address == 0x03
    then some (ep3, false)
    else if address == 0x82
    then some (ep2, true)
    else if address == 0x02
    then some (ep2, false)
    else if address == 0x81
    then some (ep1, true)
    else if address == 0x01
    then some (ep1, false)
    else none

abbrev pub to_endpoint : UsbState → Bool
to_endpoint d = bit_and (request_type d) 0x1F == 2

abbrev pub to_device : UsbState → Bool
to_device d = bit_and (request_type d) 0x1F == 0

-- The common text of the two switches on endpoints, with what each answers for a direction.
unfoldable pub respond_endpoint : (Bool → ℕ) → Option (Endpoint × Bool) → UsbState → Answer
unfolding ep_ctrl set_ep_ctrl
respond_endpoint response none d = (d, true)
respond_endpoint response (some (n, dir)) d =
    (set_ep_ctrl n (respond (direction_mask dir) (response dir) (ep_ctrl n d)) d, false)

unfoldable pub clear_feature : UsbState → Answer
unfolding endpoint_of respond_endpoint
clear_feature d =
    if to_endpoint d
    then respond_endpoint ready (endpoint_of (bit_and (w_index d) 0xff)) d
    else if to_device d
    then (
      if w_value d == 1
          then record d { usb_sleep_status = bit_and d.usb_sleep_status (complement 8 1) }
          else d,
      false,
    )
    else (d, true)

unfoldable pub set_feature : UsbState → Answer
unfolding endpoint_of respond_endpoint
set_feature d =
    if to_endpoint d
    then respond_endpoint stall (endpoint_of (w_index d)) d
    else if to_device d
    then (
      if w_value d == 1 then record d { usb_sleep_status = bit_or d.usb_sleep_status 1 } else d,
      false,
    )
    else (d, true)

-- The first byte of the status of an endpoint.
unfoldable pub endpoint_status : UsbState → ℕ
unfolding endpoint_of ep_ctrl
endpoint_status d = elim (endpoint_of (w_index d)) [
  | none ↦ 0
  | some (n, dir) ↦ if bit_and (ep_ctrl n d) (direction_mask dir) == stall dir then 1 else 0
]

unfoldable pub get_status : UsbState → Answer
unfolding endpoint_status
get_status d =
    let d1 =
      if to_endpoint d
      then put_byte 0 (endpoint_status d) d
      else if to_device d
      then put_byte 0 (if d.usb_sleep_status != 0 then 2 else 0) d
      else d in
    let d2 = put_byte 1 0 d1 in
    (if leb 2 d2.setup_req_len then record d2 { setup_req_len = 2 } else d2, false)

unfoldable pub standard_request : UsbState → Access Answer
unfolding get_descriptor clear_feature set_feature get_status
standard_request d =
    let code = d.setup_req_code in
    if code == 6
    then get_descriptor d
    else if code == 5
    then ok (record d { setup_req_len = bit_and (w_value d) 0xff }, false)
    else if code == 8
    then ok (at_most 1 (put_byte 0 d.dev_config d), false)
    else if code == 9
    then ok (record d { dev_config = bit_and (w_value d) 0xff }, false)
    else if code == 1
    then ok (clear_feature d)
    else if code == 3
    then ok (set_feature d)
    else if code == 0x0A
    then ok (at_most 1 (put_byte 0 0 d), false)
    else if code == 0x0B
    then ok (d, false)
    else if code == 0
    then ok (get_status d)
    else ok (d, true)

-- Requests that are not standard ones: nothing is done for a vendor's.
unfoldable pub class_request : UsbState → Answer
class_request d =
    let code = d.setup_req_code in
    if bit_and (request_type d) 0x40 != 0
    then (d, false)
    else if bit_and (request_type d) 0x20 != 0
    then if code == 0x0A
      then (record d { idle_value = get_or d.ep0_databuf 3 0 }, false)
      else if code == 9
      then (d, false)
      else if code == 0x0B
      then (record d { report_value = get_or d.ep0_databuf 2 0 }, false)
      else if code == 2
      then (put_byte 0 d.idle_value d, false)
      else if code == 3
      then (put_byte 0 d.report_value d, false)
      else (d, true)
    else (d, false)

-- The answer to the setup packet, whose bmRequestType is `chtype`.
unfoldable pub answer : ℕ → Answer → UsbState
answer chtype (d, err) =
    let n = packet_len d.setup_req_len in
    if err
    then record d { ep0_ctrl = 0xCF }
    else if bit_and chtype 0x80 != 0
    then record d { setup_req_len = d.setup_req_len - n; ep0_t_len = n; ep0_ctrl = 0xC0 }
    else record d { ep0_t_len = 0; ep0_ctrl = 0xC0 }

-- RB_UIS_SETUP_ACT
unfoldable pub setup : UsbState → Access UsbState
unfolding standard_request class_request answer
setup d =
    let chtype = request_type d in
    let start = record d {
      ep0_ctrl = 0xC2;
      setup_req_len = w_length d;
      setup_req_code = request d;
    } in
    let done =
      if bit_and chtype 0x60 != 0 then ok (class_request start) else standard_request start in
    done >>= λ r. ok (record (answer chtype r) { int_fg = 2 })
