-- ===== src/UsbDevice/Tool.antt =====
-- From a packet of the configuration tool on endpoint 3 of DRIVERS/USB/usbuser1.c to TMK/action.c.
use ch583_kbd_rtt.Base.{
  ℕ, ◌+◌, ◌*◌, ◌<◌, ◌≡◌, ◌≢◌, refl, ◌∙◌, true, false, List, [], ◌∷◌, ◌++◌, length, leb, bit_xor,
  arith,
}
use ch583_kbd_rtt.Event.{KeyEvent, KeyRecord, is_noevent, no_tap}
use ch583_kbd_rtt.Layer.{current_layer_for_key}
use ch583_kbd_rtt.Storage.{Storage, ok, max_layer, matrix_rows, matrix_cols}
use ch583_kbd_rtt.Storage.Bounds.{IsValid}
use ch583_kbd_rtt.Hid.{packet, set_single_key, command_of, dispatch, hid_on_recv}
use ch583_kbd_rtt.Hid.RoundTrip.{with_key}
use ch583_kbd_rtt.Hid.Remap.{stored_keys, remapped_key_acts}
use ch583_kbd_rtt.Keyboard.{Keyboard, Board}
use ch583_kbd_rtt.Action.{act, get_action, process_action}
use ch583_kbd_rtt.UsbDevice.{UsbState}
use ch583_kbd_rtt.UsbDevice.Endpoints.{in_buff, hid_send_buff, send_packets, out_deal3, out_token}
use ch583_kbd_rtt.UsbDevice.Interrupt.{usb_dev_trans_process, transfer, token}

-- The device after a command that came back with one packet for the host: the packet stands in the
-- 64 bytes that endpoint 3 sends, and DevEP3_IN_Deal is called for them.
abbrev pub commanded : (ℕ → ℕ → UsbState → UsbState) → Storage → List ℕ → UsbState → UsbState
commanded deal s bytes d =
    record (deal 3 64 (record d {
      ep3_ctrl = bit_xor d.ep3_ctrl 0x80;
      ep3_databuf = in_buff bytes d;
      store = s;
      effects = d.effects ++ (packet bytes ∷ []);
    })) { int_fg = 2 }

set_single_key_received :
    (maps : List (List (List ℕ))) (info rest : List ℕ) (s : Storage)
    → hid_on_recv maps info 0x31 5 rest s ≡ dispatch set_single_key maps info 5 rest s
unfolding hid_on_recv command_of
set_single_key_received maps info rest s = refl

module _ (deal : ℕ → ℕ → UsbState → UsbState) (maps : List (List (List ℕ))) (info : List ℕ) where
  out3-hid :
      (len command size : ℕ) (rest bytes : List ℕ) (d : UsbState) (s : Storage)
      → d.ep3_databuf ≡ 0x3f ∷ command ∷ size ∷ rest
      → hid_on_recv maps info command size rest d.store ≡ ok (s, packet bytes ∷ [])
      → length d.ep3_databuf ≡ 128
      → usb_dev_trans_process deal maps info 2 0x43 len d ≡ ok (commanded deal s bytes d)
  unfolding usb_dev_trans_process transfer token out_token out_deal3 send_packets hid_send_buff
      in_buff
  out3-hid len command size rest bytes d s buffer returned room =
      let whole : length (0x3f ∷ command ∷ size ∷ rest) ≡ 128 = rw buffer at room in
      let fits : leb 128 (length (0x3f ∷ command ∷ size ∷ rest)) ≡ true = ground (arith, whole) in
      rw (buffer, returned, fits) refl

  -- In a valid store, when the buffer of endpoint 3 has its 128 bytes and starts with the packet of
  -- the configuration tool that sets a key of the eight layers to a code that is not zero: the
  -- interrupt for it stores the code, copies the answer of success into the 64 bytes that endpoint
  -- 3 sends, calls DevEP3_IN_Deal for them, and apart from what that call does changes nothing else
  -- of the device but the toggle of endpoint 3, the list of effects and the interrupt flag; and a
  -- real press of that key, with the key map of the new store, at a time when that layer is the one
  -- for the key and process_record_kb lets every event pass, makes process_action act by the new
  -- code.
  pub key_set_over_usb :
      (b : Board) (rest : List ℕ) (len layer lo hi : ℕ) (e : KeyEvent) (d : UsbState) (k : Keyboard)
      → d.ep3_databuf ≡ 0x3f ∷ 0x31 ∷ 5 ∷ layer ∷ e.key.row ∷ e.key.col ∷ lo ∷ hi ∷ rest
      → length d.ep3_databuf ≡ 128
      → IsValid d.store
      → layer < max_layer
      → e.key.row < matrix_rows
      → e.key.col < matrix_cols
      → lo < 256
      → hi < 256
      → lo + hi ≢ 0
      → is_noevent e ≡ false
      → e.pressed ≡ true
      → ((r : KeyRecord) (action : ℕ) → b.process_record_kb r action ≡ true)
      → current_layer_for_key
          (stored_keys maps (with_key layer e.key.row e.key.col lo hi d.store))
          e.key
          k.layers
        ≡ layer
      → let s' = with_key layer e.key.row e.key.col lo hi d.store in
        let b' : Board = record b { action_for_key = stored_keys maps s' } in
        let r : KeyRecord = record { event = e; tap = no_tap } in
        (usb_dev_trans_process deal maps info 2 0x43 len d
          ≡ ok (commanded deal s' (0x3f ∷ 1 ∷ 0 ∷ []) d))
        × (process_action b' r k ≡ act b' (lo + hi * 256) r (get_action b' e k).0)
  key_set_over_usb b rest len layer lo hi e d k buffer room v hl hr hc hlo hhi some_byte real down
        wanted top =
      let fields : List ℕ = layer ∷ e.key.row ∷ e.key.col ∷ lo ∷ hi ∷ rest in
      let (set_by, acts) =
        remapped_key_acts b maps info rest layer lo hi e d.store k v hl hr hc hlo hhi some_byte real
          down wanted top in
      (
        out3-hid len 0x31 5 fields _ d _ buffer
            (set_single_key_received maps info fields d.store ∙ set_by) room,
        acts,
      )
