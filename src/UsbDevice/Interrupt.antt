-- ===== src/UsbDevice/Interrupt.antt =====
-- DRIVERS/USB/usbuser1.c: `USB_DevTransProcess`, an interrupt of the controller.
use ch583_kbd_rtt.Base.{ℕ, ◌-◌, List, ◌==◌, ◌!=◌, if◌then◌else◌, u8, bit_and, bit_or, bit_xor}
use ch583_kbd_rtt.Storage.{Access, ok, ◌>>=◌}
use ch583_kbd_rtt.UsbDevice.{UsbState, packet_len, copy_descr}
use ch583_kbd_rtt.UsbDevice.Requests.{setup}
use ch583_kbd_rtt.UsbDevice.Endpoints.{out_token, in_token}

-- UIS_TOKEN_IN on endpoint 0: the packet before has been taken.
unfoldable pub control_in : UsbState → Access UsbState
unfolding copy_descr
control_in d =
    let n = packet_len d.setup_req_len in
    if d.setup_req_code == 6
    then (copy_descr n d >>= λ d'. ok (record d' {
      setup_req_len = d.setup_req_len - n;
      ep0_t_len = n;
      ep0_ctrl = bit_xor d.ep0_ctrl 0x40;
    }))
    else if d.setup_req_code == 5
    then ok
        (record d { dev_ad = u8 (bit_or (bit_and d.dev_ad 0x80) d.setup_req_len); ep0_ctrl = 2 })
    else if d.setup_req_code == 3
    then ok d
    else ok (record d { ep0_t_len = 0; ep0_ctrl = 2 })

-- RB_UIF_BUS_RST
unfoldable pub bus_reset : UsbState → UsbState
bus_reset d = record d {
  dev_ad = 0;
  ep0_ctrl = 2;
  ep1_ctrl = 2;
  ep2_ctrl = 2;
  ep3_ctrl = 2;
  int_fg = 1;
}

module _ (deal : ℕ → ℕ → UsbState → UsbState) (maps : List (List (List ℕ))) (info : List ℕ) where
  -- The switch on token and endpoint; on endpoint 0 an OUT token does nothing.
  unfoldable pub token : ℕ → ℕ → UsbState → Access UsbState
  unfolding control_in in_token out_token
  token int_st rx_len d =
      let n = bit_and int_st 0x0F in
      if bit_and int_st 0x30 == 0x20
      then if n == 0 then control_in d else ok (in_token n d)
      else if bit_and int_st 0x30 == 0
      then if bit_and int_st 0x40 != 0 then out_token deal maps info n rx_len d else ok d
      else ok d

  -- RB_UIF_TRANSFER, with what R8_USB_INT_ST reads.
  unfoldable pub transfer : ℕ → ℕ → UsbState → Access UsbState
  unfolding token setup
  transfer int_st rx_len d =
      (if bit_and int_st 0x30 != 0x30
        then (token int_st rx_len d >>= λ d'. ok (record d' { int_fg = 2 }))
        else ok d)
      >>= λ d'. if bit_and int_st 0x80 != 0 then setup d' else ok d'

  -- `int_fg` is what R8_USB_INT_FG reads.
  unfoldable pub usb_dev_trans_process : ℕ → ℕ → ℕ → UsbState → Access UsbState
  unfolding transfer bus_reset
  usb_dev_trans_process int_fg int_st rx_len d =
      if bit_and int_fg 2 != 0
      then transfer int_st rx_len d
      else if bit_and int_fg 1 != 0
      then ok (bus_reset d)
      else if bit_and int_fg 4 != 0
      then ok (record d { int_fg = 4 })
      else ok (record d { int_fg = int_fg })
