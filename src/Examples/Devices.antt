-- ===== src/Examples/Devices.antt =====
-- DRIVERS/USB/usbuser1.c with a host that asks for descriptors, sets the address and halts endpoints.
use ch583_kbd_rtt.Base.{
  ℕ, ◌+◌, ◌≡◌, ◌≢◌, refl, Bool, true, ◌&&◌, [], ◌∷◌, arith, ◌==◌, ◌/◌, ◌*◌, if◌then◌else◌,
  replicate, take, bit_and,
}
use ch583_kbd_rtt.Storage.{ok, fault, ◌>>=◌}
use ch583_kbd_rtt.UsbDevice.{UsbState, respond, Endpoint, ep2, ep_ctrl, w_length}
use ch583_kbd_rtt.UsbDevice.Descriptors.{report_descriptor2}
use ch583_kbd_rtt.UsbDevice.Requests.{beyond, descriptor_of, report_of, setup}
use ch583_kbd_rtt.UsbDevice.Interrupt.{control_in, usb_dev_trans_process}
use ch583_kbd_rtt.UsbDevice.Transfer.{packet, read, descriptor_read}
use ch583_kbd_rtt.UsbDevice.Overrun.{vendor_overrun}
use ch583_kbd_rtt.UsbDevice.Responses.{halted, same_endpoint, same_direction}
use ch583_kbd_rtt.UsbDevice.Halts.{feature_halts, halt_status}
use ch583_kbd_rtt.UsbDevice.Safety.{Returns}
use ch583_kbd_rtt.UsbDevice.Returning.{IsSafe, IsProper}
use ch583_kbd_rtt.UsbDevice.Dealing.{IsDeal}
use ch583_kbd_rtt.UsbDevice.Serving.{interrupt-Returns}
use ch583_kbd_rtt.UsbDevice.Support.{supports, setup_answers}
use ch583_kbd_rtt.UsbDevice.Address.{general_bit, address_set}
use ch583_kbd_rtt.Examples.Stores.{one_key}

-- The buffer of endpoint 0 with a setup packet.
abbrev asked : ℕ → ℕ → ℕ → ℕ → ℕ → UsbState
asked kind code value index len = record {
  dev_config = 0;
  setup_req_code = 0;
  setup_req_len = 0;
  descr = [];
  report_value = 0;
  idle_value = 0;
  usb_sleep_status = 0;
  ep0_databuf =
      kind
      ∷ code
      ∷ bit_and value 255
      ∷ (value / 256)
      ∷ index
      ∷ 0
      ∷ bit_and len 255
      ∷ (len / 256)
      ∷ replicate 184 0;
  ep1_databuf = replicate 128 0;
  ep2_databuf = replicate 128 0;
  ep3_databuf = replicate 128 0;
  dev_ad = 128;
  int_fg = 0;
  ep0_t_len = 0;
  ep0_ctrl = 2;
  ep1_ctrl = 2;
  ep2_ctrl = 2;
  ep3_ctrl = 2;
  ep4_ctrl = 2;
  stack = replicate 64 7;
  store = one_key;
  effects = [];
}

-- The endpoint has a packet for the host.
abbrev pub acknowledge : ℕ → ℕ → UsbState → UsbState
acknowledge n len d =
    if n == 1
    then record d { ep1_ctrl = respond 3 0 d.ep1_ctrl }
    else if n == 2
    then record d { ep2_ctrl = respond 3 0 d.ep2_ctrl }
    else if n == 4
    then record d { ep4_ctrl = respond 3 0 d.ep4_ctrl }
    else d

acknowledge-IsDeal : IsDeal acknowledge
acknowledge-IsDeal = record { keeps = λ n len d. ground arith; keeps_len = λ n len d. ground arith }

-- The report descriptor of interface 1, with a length of 255.
abbrev pub report_request : UsbState
report_request = asked 0x81 6 0x2200 1 255

descriptor_read_example :
    (usb_dev_trans_process acknowledge [] [] 2 0xB0 0 report_request >>= λ d'.
    read acknowledge [] [] 3 d')
    ≡ ok (take (64 * 3) (take (w_length report_request) report_descriptor2))
unfolding descriptor_of report_of
descriptor_read_example =
    descriptor_read acknowledge [] [] 3 report_request report_descriptor2 173 refl refl refl refl

-- Three packets hold all of it.
whole_descriptor : take (64 * 3) (take 255 report_descriptor2) ≡ report_descriptor2
whole_descriptor = refl

vendor_overrun_example :
    (usb_dev_trans_process acknowledge [] [] 2 0xB0 0 (asked 0xC0 6 0 0 255) >>= λ d'.
    read acknowledge [] [] 1 d')
    ≡ fault
vendor_overrun_example =
    vendor_overrun acknowledge [] [] 1 (asked 0xC0 6 0 0 255) refl refl refl refl (omega arith)
      (omega arith)

abbrev halt_request : UsbState
halt_request = asked 0x02 3 0 0x82 0

feature_halts_example :
    (d' : UsbState) × (setup halt_request ≡ ok d')
    × ((m : Endpoint) (e : Bool)
        → halted m e d' ≡ (
            if same_endpoint ep2 m && same_direction true e then true else halted m e halt_request))
unfolding ep_ctrl
feature_halts_example =
    feature_halts true ep2 true halt_request
      (record { standard = refl; recipient = refl; direction = refl; asked = refl; index = refl })
      (omega arith)

abbrev status_request : UsbState
status_request = record (asked 0x82 0 0 0x82 2) { ep2_ctrl = 3 }

halt_status_example :
    (d' : UsbState) × (setup status_request ≡ ok d')
    × (packet d' ≡ (if halted ep2 true status_request then 1 else 0) ∷ 0 ∷ [])
halt_status_example =
    halt_status ep2 true status_request
      (record { standard = refl; recipient = refl; direction = refl; asked = refl; index = refl })
      (omega arith) (omega arith)

abbrev address_request : UsbState
address_request = asked 0 5 9 0 0

address_set_example :
    (d' : UsbState) × (d'' : UsbState) × (setup address_request ≡ ok d')
    × (d'.dev_ad ≡ address_request.dev_ad)
    × (packet d' ≡ [])
    × (control_in d' ≡ ok d'')
    × (d''.dev_ad ≡ general_bit address_request.dev_ad + 9)
address_set_example = address_set address_request refl refl refl (omega arith) (omega arith)

report_request-IsSafe : IsSafe report_request
report_request-IsSafe = record {
  ep0 = refl;
  ep1 = refl;
  ep2 = refl;
  ep3 = refl;
  sending = λ e. absurd (omega (arith, e));
}

there : descriptor_of 0x2200 1 ≢ beyond
unfolding descriptor_of report_of
there e = cc

report_request-IsProper : IsProper report_request
report_request-IsProper = record { standard = λ e. refl; to_host = λ e. refl; there = λ e. there }

interrupt-Returns_example :
    Returns IsSafe (usb_dev_trans_process acknowledge [] [] 2 0xB0 8 report_request)
interrupt-Returns_example =
    interrupt-Returns acknowledge acknowledge-IsDeal [] [] 2 0xB0 8 report_request (omega arith)
      (λ e. absurd (omega (arith, e))) (λ e. (refl, report_request-IsProper)) report_request-IsSafe

setup_answers_example :
    (d' : UsbState) × (setup report_request ≡ ok d')
    × IsSafe d'
    × (d'.ep0_ctrl ≡ (if supports report_request then 0xC0 else 0xCF))
setup_answers_example = setup_answers report_request report_request-IsSafe report_request-IsProper

supported : supports report_request ≡ true
unfolding supports
supported = refl
