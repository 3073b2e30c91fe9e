-- ===== src/Examples/Remaps.antt =====
-- A key of the lowest layer is set to escape by the tool, and pressed.
use ch583_kbd_rtt.Base.{◌+◌, ◌*◌, ◌≡◌, refl, replicate, true, [], ◌∷◌, arith}
use ch583_kbd_rtt.Event.{KeyEvent, KeyRecord, no_tap}
use ch583_kbd_rtt.Layer.{current_layer_for_key, top_layer}
use ch583_kbd_rtt.Storage.{ok}
use ch583_kbd_rtt.Keyboard.{Board}
use ch583_kbd_rtt.Action.{act, get_action, process_action}
use ch583_kbd_rtt.Hid.RoundTrip.{with_key}
use ch583_kbd_rtt.Hid.Remap.{stored_keys}
use ch583_kbd_rtt.UsbDevice.{UsbState}
use ch583_kbd_rtt.UsbDevice.Interrupt.{usb_dev_trans_process}
use ch583_kbd_rtt.UsbDevice.Tool.{commanded, key_set_over_usb}
use ch583_kbd_rtt.Examples.Devices.{acknowledge, report_request}
use ch583_kbd_rtt.Examples.Stores
use ch583_kbd_rtt.Examples.Keyboards.{one_key, quiet}

abbrev pressed : KeyEvent
pressed = record { key = record { col = 5; row = 1 }; pressed = true; time = 101 }

-- The packet of the tool, in the buffer of endpoint 3.
abbrev told : UsbState
told = record report_request {
  ep3_databuf = 0x3f ∷ 0x31 ∷ 5 ∷ 0 ∷ 1 ∷ 5 ∷ 0x29 ∷ 0 ∷ replicate 120 0;
}

key_set_over_usb_example :
    let s' = with_key 0 1 5 0x29 0 Stores.one_key in
    let b' : Board = record one_key { action_for_key = stored_keys [] s' } in
    let r : KeyRecord = record { event = pressed; tap = no_tap } in
    (usb_dev_trans_process acknowledge [] [] 2 0x43 8 told
      ≡ ok (commanded acknowledge s' (0x3f ∷ 1 ∷ 0 ∷ []) told))
    × (process_action b' r quiet ≡ act b' (0x29 + 0 * 256) r (get_action b' pressed quiet).0)
unfolding current_layer_for_key top_layer
key_set_over_usb_example =
    key_set_over_usb acknowledge [] [] one_key (replicate 120 0) 8 0 0x29 0 pressed told quiet refl
      refl Stores.one_key-IsValid (omega arith) (omega arith) (omega arith) (omega arith)
      (omega arith) (λ e. omega (arith, e)) refl refl (λ r action. refl) refl
