-- ===== src/UsbDevice/Overrun.antt =====
-- DRIVERS/USB/usbuser1.c: a transfer that was not begun by GET_DESCRIPTOR, but has its code.
use ch583_kbd_rtt.Base.{
  ℕ, zero, suc, ◌+◌, ◌-◌, ◌*◌, ◌≤◌, ◌<◌, ◌≡◌, refl, ap, ◌∙◌, true, false, inl, inr, Bool-cases,
  arith, List, leb, ◌!=◌, length, length-drop, drop, bit_and,
}
use ch583_kbd_rtt.Storage.{fault, ◌>>=◌}
use ch583_kbd_rtt.UsbDevice.{UsbState, request_type, request, w_length, packet_len, copy_descr}
use ch583_kbd_rtt.UsbDevice.Requests.{class_request, answer, setup}
use ch583_kbd_rtt.UsbDevice.Interrupt.{control_in, usb_dev_trans_process, transfer, token}
use ch583_kbd_rtt.UsbDevice.Transfer.{next, poll, poll-next, read}

control_in_short :
    (d : UsbState)
    → d.setup_req_code ≡ 6
    → length d.descr < packet_len d.setup_req_len
    → control_in d ≡ fault
unfolding control_in copy_descr
control_in_short d code short =
    let missing : leb (packet_len d.setup_req_len) (length d.descr) ≡ false =
      ground (arith, short) in
    rw (code, missing) refl

module _ (deal : ℕ → ℕ → UsbState → UsbState) (maps : List (List (List ℕ))) (info : List ℕ) where
  poll_short : (d : UsbState) → control_in d ≡ fault → poll deal maps info d ≡ fault
  unfolding usb_dev_trans_process transfer token
  poll_short d short = rw short refl

  read_overruns :
      (k : ℕ) (d : UsbState)
      → d.setup_req_code ≡ 6
      → length d.descr < d.setup_req_len
      → length d.descr < 64 * k
      → read deal maps info k d ≡ fault
  unfolding read
  read_overruns zero d code more far = absurd (omega arith)
  read_overruns (suc k) d code more far =
      let n = packet_len d.setup_req_len in
      elim (Bool-cases (leb n (length d.descr))) [
        | inl inside ↦
            let room : n ≤ length d.descr = ground (arith, inside) in
            let full : n ≡ 64 = ground (arith, room, more) in
            let left : length (drop n d.descr) ≡ length d.descr - 64 =
              length-drop n d.descr ∙ ap (λ m. length d.descr - m) full in
            let rest : read deal maps info k (record (next d) { int_fg = 2 }) ≡ fault =
              read_overruns k (record (next d) { int_fg = 2 }) code
                (omega (arith, left, full, room, more)) (omega (arith, left, full, room, far)) in
            rw (poll-next deal maps info d code room, rest) refl
        | inr outside ↦ rw (poll_short d (control_in_short d code (ground (arith, outside)))) refl
      ]

  -- After a request to the host that has the vendor bit and the code 6, with a wLength more than 64
  -- above what pDescr still points at, so many IN tokens that 64 bytes each pass it read beyond the
  -- table: the code of GET_DESCRIPTOR is taken up without its check of the length.
  pub vendor_overrun :
      (k : ℕ) (d : UsbState)
      → (bit_and (request_type d) 0x60 != 0) ≡ true
      → (bit_and (request_type d) 0x40 != 0) ≡ true
      → (bit_and (request_type d) 0x80 != 0) ≡ true
      → request d ≡ 6
      → 64 + length d.descr < w_length d
      → length d.descr < 64 * k
      → (usb_dev_trans_process deal maps info 2 0xB0 0 d >>= λ d'. read deal maps info k d') ≡ fault
  unfolding usb_dev_trans_process transfer setup class_request answer
  vendor_overrun k d special vendor to_host code long far =
      let d' : UsbState = record d {
        setup_req_code = request d;
        setup_req_len = w_length d - packet_len (w_length d);
        ep0_t_len = packet_len (w_length d);
        ep0_ctrl = 0xC0;
        int_fg = 2;
      } in
      rw (special, vendor, to_host) (read_overruns k d' code (ground arith) far)
