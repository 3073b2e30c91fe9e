-- ===== src/UsbDevice/Address.antt =====
-- DRIVERS/USB/usbuser1.c: SET_ADDRESS, from the setup packet to the end of the transfer.
use ch583_kbd_rtt.Base.{
  ℕ, ◌+◌, ◌<◌, ◌≡◌, refl, false, inl, inr, Bool-cases, [], leb, ◌==◌, ◌!=◌, if◌then◌else◌, u8,
  bit_and, bit_or, ==_iff,
}
use ch583_kbd_rtt.Base.Bits.Table.{check_below, check_below_sound}
use ch583_kbd_rtt.Storage.{ok}
use ch583_kbd_rtt.UsbDevice.{UsbState, request_type, request, w_value}
use ch583_kbd_rtt.UsbDevice.Requests.{standard_request, answer, setup}
use ch583_kbd_rtt.UsbDevice.Interrupt.{control_in}
use ch583_kbd_rtt.UsbDevice.Transfer.{packet}

-- The top bit of the register.
abbrev pub general_bit : ℕ → ℕ
general_bit r = if leb 128 r then 128 else 0

top_bit : (r : ℕ) → r < 256 → bit_and r 0x80 ≡ general_bit r
unfolding check_below
top_bit r small =
    (==_iff (bit_and r 0x80) (general_bit r)).0
      (check_below_sound 256 (λ x. bit_and x 0x80 == general_bit x) r refl small)

low_bits : (a : ℕ) → a < 128 → bit_and a 0xff ≡ a
unfolding check_below
low_bits a small =
    (==_iff (bit_and a 0xff) a).0 (check_below_sound 128 (λ x. bit_and x 0xff == x) a refl small)

joined : (r a : ℕ) → a < 128 → u8 (bit_or (general_bit r) a) ≡ general_bit r + a
unfolding check_below
joined r a small = elim (Bool-cases (leb 128 r)) [
  | inl high ↦ rw high (
      (==_iff (u8 (bit_or 128 a)) (128 + a)).0
        (check_below_sound 128 (λ x. u8 (bit_or 128 x) == 128 + x) a refl small))
  | inr low ↦ rw low (
      (==_iff (u8 (bit_or 0 a)) (0 + a)).0
        (check_below_sound 128 (λ x. u8 (bit_or 0 x) == 0 + x) a refl small))
]

abbrev addressed : UsbState → ℕ → UsbState
addressed d a = record d {
  setup_req_code = request d;
  setup_req_len = a;
  ep0_t_len = 0;
  ep0_ctrl = 0xC0;
  int_fg = 2;
}

address_setup :
    (d : UsbState)
    → bit_and (request_type d) 0x60 ≡ 0
    → (bit_and (request_type d) 0x80 != 0) ≡ false
    → request d ≡ 5
    → setup d ≡ ok (addressed d (bit_and (w_value d) 0xff))
unfolding setup standard_request answer
address_setup d standard out asked = simp (standard, out, asked)

-- After a standard request SET_ADDRESS with an address below 128, the address register is as
-- before, and the answer is empty; the IN token that ends the transfer sets the address, and keeps
-- the top bit of the register.
pub address_set :
    (d : UsbState)
    → bit_and (request_type d) 0x60 ≡ 0
    → (bit_and (request_type d) 0x80 != 0) ≡ false
    → request d ≡ 5
    → w_value d < 128
    → d.dev_ad < 256
    → (d' : UsbState) × (d'' : UsbState) × (setup d ≡ ok d')
      × (d'.dev_ad ≡ d.dev_ad)
      × (packet d' ≡ [])
      × (control_in d' ≡ ok d'')
      × (d''.dev_ad ≡ general_bit d.dev_ad + w_value d)
unfolding control_in
address_set d standard out asked small byte =
    let d' = addressed d (bit_and (w_value d) 0xff) in
    let new = u8 (bit_or (bit_and d.dev_ad 0x80) (bit_and (w_value d) 0xff)) in
    (
      d',
      record d' { dev_ad = new; ep0_ctrl = 2 },
      address_setup d standard out asked,
      refl,
      refl,
      simp asked,
      rw (top_bit d.dev_ad byte, low_bits (w_value d) small) (joined d.dev_ad (w_value d) small),
    )
