-- ===== src/UsbDevice/Endpoints.antt =====
-- DRIVERS/USB/usbuser1.c: the endpoints 1 to 4, and what the packets of the host do.
use ch583_kbd_rtt.Base.{
  ℕ, zero, suc, ◌+◌, List, [], ◌∷◌, leb, take, ltb, ◌==◌, if◌then◌else◌, length, get_or, set, drop,
  ◌++◌, bit_xor, complement,
}
use ch583_kbd_rtt.Storage.{Access, ok, fault, ◌>>=◌}
use ch583_kbd_rtt.Hid.{Effect, packet, flash_write, clear_keyboard, hid_on_recv}
use ch583_kbd_rtt.UsbDevice.{UsbState, respond}

-- The loop of DevEPn_OUT_Deal from byte `i`, where the bytes for the host stand at `to` and those from
-- the host at `from`.
unfoldable pub invert : ℕ → ℕ → ℕ → ℕ → List ℕ → Access (List ℕ)
invert zero i from to bytes = ok bytes
invert (suc left) i from to bytes =
    let rest =
      invert left (i + 1) from to (set bytes (to + i) (complement 8 (get_or bytes (from + i) 0))) in
    if ltb (to + i) (length bytes) then rest else fault

-- `ctrl ^= RB_UEP_T_TOG; ctrl = (ctrl & ~MASK_UEP_T_RES) | UEP_T_RES_NAK;`
abbrev pub sent_in : ℕ → ℕ
sent_in ctrl = respond 3 2 (bit_xor ctrl 0x40)

-- `memcpy(buffer + i, bytes, length of bytes)`, inside the buffer
unfoldable pub put_from : ℕ → List ℕ → List ℕ → List ℕ
put_from i [] buffer = buffer
put_from i (x ∷ bytes) buffer = put_from (i + 1) bytes (set buffer i x)

-- `pEP3_IN_DataBuf` after hid_send_data: the 64 bytes of `buff`, of which `bytes` are set.
unfoldable pub in_buff : List ℕ → UsbState → List ℕ
unfolding put_from
in_buff bytes d = put_from 64 bytes (put_from 64 (take 64 d.stack) d.ep3_databuf)

-- `deal n len` is DevEPn_IN_Deal, `maps` the board's key map table, `info` the bytes of
-- `send_information`.
module _ (deal : ℕ → ℕ → UsbState → UsbState) (maps : List (List (List ℕ))) (info : List ℕ) where
  unfoldable pub out_deal1 : ℕ → UsbState → Access UsbState
  unfolding invert
  out_deal1 len d = invert len 0 0 64 d.ep1_databuf >>= λ bytes.
      ok (deal 1 len (record d { ep1_databuf = bytes }))

  unfoldable pub out_deal2 : ℕ → UsbState → Access UsbState
  unfolding invert
  out_deal2 len d = invert len 0 0 64 d.ep2_databuf >>= λ bytes.
      ok (deal 2 len (record d { ep2_databuf = bytes }))

  -- The end of hid_send_data: `memcpy(pEP3_IN_DataBuf, buff, 64); DevEP3_IN_Deal(64);`
  unfoldable pub hid_send_buff : List ℕ → UsbState → Access UsbState
  unfolding in_buff
  hid_send_buff bytes d =
      if leb (64 + 64) (length d.ep3_databuf)
      then ok (deal 3 64 (record d { ep3_databuf = in_buff bytes d }))
      else fault

  -- The packets among what a command does, handed over in their order.
  unfoldable pub send_packets : List Effect → UsbState → Access UsbState
  unfolding hid_send_buff
  send_packets [] d = ok d
  send_packets (packet bytes ∷ rest) d = hid_send_buff bytes d >>= λ d'. send_packets rest d'
  send_packets (flash_write mask ∷ rest) d = send_packets rest d
  send_packets (clear_keyboard ∷ rest) d = send_packets rest d

  -- `effects` has all that the command does, also the packets.
  unfoldable pub out_deal3 : UsbState → Access UsbState
  unfolding hid_on_recv send_packets
  out_deal3 d =
      let b = d.ep3_databuf in
      if get_or b 0 0 == 0x3f
      then (hid_on_recv maps info (get_or b 1 0) (get_or b 2 0) (drop 3 b) d.store >>= λ r.
          send_packets r.1 (record d { store = r.0; effects = d.effects ++ r.1 }))
      else ok d

  -- The buffers of endpoint 4 stand behind that of endpoint 0.
  unfoldable pub out_deal4 : ℕ → UsbState → Access UsbState
  unfolding invert
  out_deal4 len d = invert len 0 64 128 d.ep0_databuf >>= λ bytes.
      ok (deal 4 len (record d { ep0_databuf = bytes }))

  -- UIS_TOKEN_OUT on an endpoint but 0, when the toggle is right.
  unfoldable pub out_token : ℕ → ℕ → UsbState → Access UsbState
  unfolding out_deal1 out_deal2 out_deal3 out_deal4
  out_token n len d =
      if n == 1
      then out_deal1 len (record d { ep1_ctrl = bit_xor d.ep1_ctrl 0x80 })
      else if n == 2
      then out_deal2 len (record d { ep2_ctrl = bit_xor d.ep2_ctrl 0x80 })
      else if n == 3
      then out_deal3 (record d { ep3_ctrl = bit_xor d.ep3_ctrl 0x80 })
      else if n == 4
      then out_deal4 len (record d { ep4_ctrl = bit_xor d.ep4_ctrl 0x80 })
      else ok d

-- UIS_TOKEN_IN on an endpoint but 0.
unfoldable pub in_token : ℕ → UsbState → UsbState
in_token n d =
    if n == 1
    then record d { ep1_ctrl = sent_in d.ep1_ctrl }
    else if n == 2
    then record d { ep2_ctrl = sent_in d.ep2_ctrl }
    else if n == 3
    then record d { ep3_ctrl = sent_in d.ep3_ctrl }
    else if n == 4
    then record d { ep4_ctrl = sent_in d.ep4_ctrl }
    else d
