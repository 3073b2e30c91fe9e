-- ===== src/UsbDevice/Serving.antt =====
-- DRIVERS/USB/usbuser1.c: every interrupt of the controller returns, in a safe state.
use ch583_kbd_rtt.Base.{
  ℕ, ◌≤◌, ◌≡◌, ◌∙◌, true, false, inl, inr, Bool-cases, arith, List, [], ◌∷◌, ◌++◌, leb, ◌==◌, ◌!=◌,
  length, get_or, drop, bit_and, bit_xor,
}
use ch583_kbd_rtt.Storage.{Storage, ok, ◌>>=◌}
use ch583_kbd_rtt.Hid.{Effect, packet, flash_write, clear_keyboard, hid_on_recv}
use ch583_kbd_rtt.UsbDevice.{UsbState}
use ch583_kbd_rtt.UsbDevice.Endpoints.{
  in_buff, hid_send_buff, send_packets, invert, out_deal1, out_deal2, out_deal3, out_deal4,
  out_token,
}
use ch583_kbd_rtt.UsbDevice.Interrupt.{bus_reset, token, transfer, usb_dev_trans_process}
use ch583_kbd_rtt.UsbDevice.Safety.{Returns, Returns-if}
use ch583_kbd_rtt.UsbDevice.Returning.{
  IsSafe, IsProper, Returns-bind, with_flag, setup-Returns, control_in-Returns,
}
use ch583_kbd_rtt.UsbDevice.Dealing.{
  IsDeal, deal-IsSafe, length-in_buff, invert-Returns, Returns-eq, Returns-when, in_token-IsSafe,
}

module _ (deal : ℕ → ℕ → UsbState → UsbState) (law : IsDeal deal) (maps : List (List (List ℕ)))
    (info : List ℕ) where
  out_deal1-Returns :
      (len : ℕ) (d : UsbState)
      → len ≤ 64
      → IsSafe d
      → Returns IsSafe (out_deal1 deal maps info len d)
  unfolding out_deal1
  out_deal1-Returns len d short v =
      Returns-bind (λ (r : List ℕ). length r ≡ length d.ep1_databuf) IsSafe
        (invert len 0 0 64 d.ep1_databuf) _
        (invert-Returns len 0 0 64 d.ep1_databuf (omega (arith, v.ep1)))
        (λ bytes size.
          deal-IsSafe deal law 1 len (record d { ep1_databuf = bytes })
            (record {
              ep0 = v.ep0;
              ep1 = size ∙ v.ep1;
              ep2 = v.ep2;
              ep3 = v.ep3;
              sending = v.sending;
            }))

  out_deal2-Returns :
      (len : ℕ) (d : UsbState)
      → len ≤ 64
      → IsSafe d
      → Returns IsSafe (out_deal2 deal maps info len d)
  unfolding out_deal2
  out_deal2-Returns len d short v =
      Returns-bind (λ (r : List ℕ). length r ≡ length d.ep2_databuf) IsSafe
        (invert len 0 0 64 d.ep2_databuf) _
        (invert-Returns len 0 0 64 d.ep2_databuf (omega (arith, v.ep2)))
        (λ bytes size.
          deal-IsSafe deal law 2 len (record d { ep2_databuf = bytes })
            (record {
              ep0 = v.ep0;
              ep1 = v.ep1;
              ep2 = size ∙ v.ep2;
              ep3 = v.ep3;
              sending = v.sending;
            }))

  out_deal4-Returns :
      (len : ℕ) (d : UsbState)
      → len ≤ 64
      → IsSafe d
      → Returns IsSafe (out_deal4 deal maps info len d)
  unfolding out_deal4
  out_deal4-Returns len d short v =
      Returns-bind (λ (r : List ℕ). length r ≡ length d.ep0_databuf) IsSafe
        (invert len 0 64 128 d.ep0_databuf) _
        (invert-Returns len 0 64 128 d.ep0_databuf (omega (arith, v.ep0)))
        (λ bytes size.
          deal-IsSafe deal law 4 len (record d { ep0_databuf = bytes })
            (record {
              ep0 = size ∙ v.ep0;
              ep1 = v.ep1;
              ep2 = v.ep2;
              ep3 = v.ep3;
              sending = v.sending;
            }))

  -- The command of the tool that is in the buffer of endpoint 3 comes back.
  abbrev pub IsServed : UsbState → Type 0
  IsServed d =
      Returns (λ (r : Storage × List Effect). Unit {0})
        (hid_on_recv maps info (get_or d.ep3_databuf 1 0) (get_or d.ep3_databuf 2 0)
          (drop 3 d.ep3_databuf) d.store)

  hid_send_buff-Returns :
      (bytes : List ℕ) (d : UsbState)
      → IsSafe d
      → Returns IsSafe (hid_send_buff deal maps info bytes d)
  unfolding hid_send_buff
  hid_send_buff-Returns bytes d v =
      let room : leb 128 (length d.ep3_databuf) ≡ true = ground (arith, v.ep3) in
      let size = length-in_buff bytes d in
      let v' : IsSafe (record d { ep3_databuf = in_buff bytes d }) = record {
        ep0 = v.ep0;
        ep1 = v.ep1;
        ep2 = v.ep2;
        ep3 = size ∙ v.ep3;
        sending = v.sending;
      } in
      Returns-eq _ _ IsSafe room
        (deal-IsSafe deal law 3 64 (record d { ep3_databuf = in_buff bytes d }) v')

  send_packets-Returns :
      (es : List Effect) (d : UsbState)
      → IsSafe d
      → Returns IsSafe (send_packets deal maps info es d)
  unfolding send_packets
  send_packets-Returns [] d v = v
  send_packets-Returns (packet bytes ∷ rest) d v =
      Returns-bind IsSafe IsSafe _ _ (hid_send_buff-Returns bytes d v)
        (λ d' v'. send_packets-Returns rest d' v')
  send_packets-Returns (flash_write mask ∷ rest) d v = send_packets-Returns rest d v
  send_packets-Returns (clear_keyboard ∷ rest) d v = send_packets-Returns rest d v

  out_deal3-Returns :
      (d : UsbState) → IsServed d → IsSafe d → Returns IsSafe (out_deal3 deal maps info d)
  unfolding out_deal3
  out_deal3-Returns d served v =
      Returns-if IsSafe (get_or d.ep3_databuf 0 0 == 0x3f) _ _
        (Returns-bind (λ (r : Storage × List Effect). Unit {0}) IsSafe _ _ served
          (λ r t.
            send_packets-Returns r.1 (record d { store = r.0; effects = d.effects ++ r.1 })
              (record { ep0 = v.ep0; ep1 = v.ep1; ep2 = v.ep2; ep3 = v.ep3; sending = v.sending })))
        v

  out_token-Returns :
      (n len : ℕ) (d : UsbState)
      → len ≤ 64
      → (n ≡ 3 → IsServed d)
      → IsSafe d
      → Returns IsSafe (out_token deal maps info n len d)
  unfolding out_token
  out_token-Returns n len d short served v =
      Returns-if IsSafe (n == 1) _ _
        (out_deal1-Returns len (record d { ep1_ctrl = bit_xor d.ep1_ctrl 0x80 }) short
          (record { ep0 = v.ep0; ep1 = v.ep1; ep2 = v.ep2; ep3 = v.ep3; sending = v.sending }))
        (Returns-if IsSafe (n == 2) _ _
          (out_deal2-Returns len (record d { ep2_ctrl = bit_xor d.ep2_ctrl 0x80 }) short
            (record { ep0 = v.ep0; ep1 = v.ep1; ep2 = v.ep2; ep3 = v.ep3; sending = v.sending }))
          (Returns-when (n == 3) _ _
            (λ e.
              out_deal3-Returns (record d { ep3_ctrl = bit_xor d.ep3_ctrl 0x80 })
                (served (ground (arith, e)))
                (record {
                  ep0 = v.ep0;
                  ep1 = v.ep1;
                  ep2 = v.ep2;
                  ep3 = v.ep3;
                  sending = v.sending;
                }))
            (Returns-if IsSafe (n == 4) _ _
              (out_deal4-Returns len (record d { ep4_ctrl = bit_xor d.ep4_ctrl 0x80 }) short
                (record {
                  ep0 = v.ep0;
                  ep1 = v.ep1;
                  ep2 = v.ep2;
                  ep3 = v.ep3;
                  sending = v.sending;
                }))
              v)))

  token-Returns :
      (int_st len : ℕ) (d : UsbState)
      → len ≤ 64
      → (bit_and int_st 0x0F ≡ 3 → IsServed d)
      → IsSafe d
      → Returns IsSafe (token deal maps info int_st len d)
  unfolding token
  token-Returns int_st len d short served v =
      let n = bit_and int_st 0x0F in
      Returns-if IsSafe (bit_and int_st 0x30 == 0x20) _ _
        (Returns-if IsSafe (n == 0) _ _ (control_in-Returns d v) (in_token-IsSafe n d v))
        (Returns-if IsSafe (bit_and int_st 0x30 == 0) _ _
          (Returns-if IsSafe (bit_and int_st 0x40 != 0) _ _
            (out_token-Returns n len d short served v) v)
          v)

  token_part :
      (int_st len : ℕ) (d : UsbState)
      → len ≤ 64
      → (bit_and int_st 0x0F ≡ 3 → IsServed d)
      → IsSafe d
      → Returns IsSafe (token deal maps info int_st len d >>= λ d'. ok (record d' { int_fg = 2 }))
  token_part int_st len d short served v =
      Returns-bind IsSafe IsSafe (token deal maps info int_st len d) _
        (token-Returns int_st len d short served v) (λ d' v'. with_flag d' 2 v')

  transfer-Returns :
      (int_st len : ℕ) (d : UsbState)
      → len ≤ 64
      → (bit_and int_st 0x0F ≡ 3 → IsServed d)
      → ((bit_and int_st 0x80 != 0) ≡ true → ((bit_and int_st 0x30 != 0x30) ≡ false) × IsProper d)
      → IsSafe d
      → Returns IsSafe (transfer deal maps info int_st len d)
  unfolding transfer
  transfer-Returns int_st len d short served arrived v =
      elim (Bool-cases (bit_and int_st 0x80 != 0)) [
        | inl setup_act ↦
            let (free, proper) = arrived setup_act in
            rw (free, setup_act) (setup-Returns d v proper)
        | inr quiet ↦
            Returns-bind IsSafe IsSafe _ _
              (Returns-if IsSafe (bit_and int_st 0x30 != 0x30) _ _
                (token_part int_st len d short served v) v)
              (λ d' v'. rw quiet v')
      ]

  -- When DevEPn_IN_Deal leaves buffers and transfer alone, the length received is at most 64, a
  -- setup packet comes alone and does not ask in an improper way for a descriptor, and the command
  -- in a packet on endpoint 3 comes back: every interrupt of the controller, from a safe state,
  -- returns in a safe state, in which the buffers have their sizes and a descriptor on its way has
  -- as many bytes left as are to be sent.
  pub interrupt-Returns :
      (int_fg int_st len : ℕ) (d : UsbState)
      → len ≤ 64
      → (bit_and int_st 0x0F ≡ 3 → IsServed d)
      → ((bit_and int_st 0x80 != 0) ≡ true → ((bit_and int_st 0x30 != 0x30) ≡ false) × IsProper d)
      → IsSafe d
      → Returns IsSafe (usb_dev_trans_process deal maps info int_fg int_st len d)
  unfolding usb_dev_trans_process bus_reset
  interrupt-Returns int_fg int_st len d short served arrived v =
      Returns-if IsSafe (bit_and int_fg 2 != 0) _ _
        (transfer-Returns int_st len d short served arrived v)
        (Returns-if IsSafe (bit_and int_fg 1 != 0) _ _
          (record { ep0 = v.ep0; ep1 = v.ep1; ep2 = v.ep2; ep3 = v.ep3; sending = v.sending })
          (Returns-if IsSafe (bit_and int_fg 4 != 0) _ _ (with_flag d 4 v) (with_flag d int_fg v)))
