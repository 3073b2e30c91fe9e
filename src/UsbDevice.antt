-- ===== src/UsbDevice.antt =====
-- DRIVERS/USB/usbuser1.c: the USB device, driven by the interrupts of the controller. A register is
-- the byte that was last written to it; DevEPn_IN_Deal of the maker's library is a parameter.
pub mod Descriptors
pub mod Endpoints
pub mod Requests
pub mod Interrupt
pub mod Chunks
pub mod Transfer
pub mod Responses
pub mod Halts
pub mod Overrun
pub mod Safety
pub mod Returning
pub mod Dealing
pub mod Serving
pub mod Support
pub mod Address
pub mod Tool
use ch583_kbd_rtt.Base.{
  ℕ, ◌+◌, ◌-◌, ◌*◌, Bool, true, false, List, ltb, leb, ◌==◌, ◌!=◌, if◌then◌else◌, length, get_or,
  set, take, drop, ◌++◌, bit_and, bit_or, complement,
}
use ch583_kbd_rtt.Storage.{Access, ok, fault, Storage}
use ch583_kbd_rtt.Hid.{Effect}

-- The variables of usbuser1.c, its buffers and the registers that it writes; `descr` is what pDescr
-- points at, to the end of the table. `stack` is what stands in the place of `buff` of hid_send_data
-- before it is set, and nothing is known of it. `int_fg` is the last value written to R8_USB_INT_FG, and the
-- store and the effects are those of hid_configuration.c.
pub record UsbState : Type 0 where
  pub dev_config : ℕ
  pub setup_req_code : ℕ
  pub setup_req_len : ℕ
  pub descr : List ℕ
  pub report_value : ℕ
  pub idle_value : ℕ
  pub usb_sleep_status : ℕ
  pub ep0_databuf : List ℕ
  pub ep1_databuf : List ℕ
  pub ep2_databuf : List ℕ
  pub ep3_databuf : List ℕ
  pub dev_ad : ℕ
  pub int_fg : ℕ
  pub ep0_t_len : ℕ
  pub ep0_ctrl : ℕ
  pub ep1_ctrl : ℕ
  pub ep2_ctrl : ℕ
  pub ep3_ctrl : ℕ
  pub ep4_ctrl : ℕ
  pub stack : List ℕ
  pub store : Storage
  pub effects : List Effect

-- The fields of `pSetupReqPak`, which is the start of the buffer of endpoint 0.
abbrev pub request_type : UsbState → ℕ
request_type d = get_or d.ep0_databuf 0 0

abbrev pub request : UsbState → ℕ
request d = get_or d.ep0_databuf 1 0

abbrev pub w_value : UsbState → ℕ
w_value d = get_or d.ep0_databuf 2 0 + get_or d.ep0_databuf 3 0 * 256

abbrev pub w_index : UsbState → ℕ
w_index d = get_or d.ep0_databuf 4 0 + get_or d.ep0_databuf 5 0 * 256

abbrev pub w_length : UsbState → ℕ
w_length d = get_or d.ep0_databuf 6 0 + get_or d.ep0_databuf 7 0 * 256

-- `(n >= DevEP0SIZE) ? DevEP0SIZE : n`
abbrev pub packet_len : ℕ → ℕ
packet_len n = if leb 64 n then 64 else n

-- `pEP0_DataBuf[i] = v`
abbrev pub put_byte : ℕ → ℕ → UsbState → UsbState
put_byte i v d = record d { ep0_databuf = set d.ep0_databuf i v }

-- `memcpy(pEP0_DataBuf, pDescr, len); pDescr += len;` for `len` up to 64
unfoldable pub copy_descr : ℕ → UsbState → Access UsbState
copy_descr n d =
    if leb n (length d.descr)
    then ok
        (record d { ep0_databuf = take n d.descr ++ drop n d.ep0_databuf; descr = drop n d.descr })
    else fault

-- `(ctrl & ~mask) | response`
abbrev pub respond : ℕ → ℕ → ℕ → ℕ
respond mask response ctrl = bit_or (bit_and ctrl (complement 8 mask)) response

-- The bits of a direction in R8_UEPn_CTRL: the toggle and the response. `true` is IN.
abbrev pub direction_mask : Bool → ℕ
direction_mask true = 0x43
direction_mask false = 0x8C

abbrev pub stall : Bool → ℕ
stall true = 3
stall false = 0x0C

-- NAK for IN, ACK for OUT
abbrev pub ready : Bool → ℕ
ready true = 2
ready false = 0

-- The endpoints that the switches on wIndex know.
pub data Endpoint : Type 0 where
  ep1 ep2 ep3 : Endpoint

unfoldable pub ep_ctrl : Endpoint → UsbState → ℕ
ep_ctrl ep1 d = d.ep1_ctrl
ep_ctrl ep2 d = d.ep2_ctrl
ep_ctrl ep3 d = d.ep3_ctrl

unfoldable pub set_ep_ctrl : Endpoint → ℕ → UsbState → UsbState
set_ep_ctrl ep1 c d = record d { ep1_ctrl = c }
set_ep_ctrl ep2 c d = record d { ep2_ctrl = c }
set_ep_ctrl ep3 c d = record d { ep3_ctrl = c }
