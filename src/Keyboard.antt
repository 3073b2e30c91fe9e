-- ===== src/Keyboard.antt =====
-- The state that TMK/action.c works on: the report, the layers, the mouse and the host, with the
-- calls of action_util.c, mousekey.c and host.c lifted to it, and the utilities for actions.
-- `wait_ms` changes no state and is left out. `command_proc` is the macro `false`.
pub mod Invariant
pub mod Valid
pub mod Keys
pub mod Clear
use ch583_kbd_rtt.Base.{
  ℕ, ◌+◌, Bool, true, false, ◌&&◌, ◌||◌, Option, none, some, List, [], ◌∷◌, ◌==◌, ◌!=◌,
  if◌then◌else◌, bit_and,
}
use ch583_kbd_rtt.Code.{
  is_key, is_mod, is_system, is_consumer, mod_bit, is_locking, locking_key, locking_led,
  keycode2system, keycode2consumer,
}
use ch583_kbd_rtt.Event.{KeyRecord}
use ch583_kbd_rtt.Layer.{Layers, KeymapReader}
use ch583_kbd_rtt.Report.{
  Report, send_keyboard_report, add_mods, del_mods, clear_mods, clear_weak_mods, clear_keys,
}
use ch583_kbd_rtt.Report.Ring.{add_key, del_key}
use ch583_kbd_rtt.Host.{Host, host_keyboard_send, host_system_send, host_consumer_send}
use ch583_kbd_rtt.Mouse.{Mouse, mousekey_clear, mousekey_send}

-- `jumped` is whether `bootloader_jump` has been called.
pub record Keyboard : Type 0 where
  pub report : Report
  pub layers : Layers
  pub host : Host
  pub mouse : Mouse
  pub last_timer : ℕ
  pub jumped : Bool

-- What the keyboard's code gets from outside of TMK: the key map; whether an event is to be
-- processed (`process_record_kb`, which returns no value in DRIVERS/process_record_kb.c); the
-- lights that the host driver reports; the system's tick.
pub record Board : Type 0 where
  pub action_for_key : KeymapReader
  pub process_record_kb : KeyRecord → ℕ → Bool
  pub keyboard_leds : Keyboard → ℕ
  pub rt_tick : Keyboard → ℕ

unfoldable pub send : Keyboard → Keyboard
unfolding send_keyboard_report host_keyboard_send
send k =
    let (r, bytes) = send_keyboard_report k.report in
    record k { report = r; host = host_keyboard_send bytes k.host }

-- `none` means that six rounds were not enough for a loop of the ring.
unfoldable pub settled : Report → Option Report → Report
settled r none = r
settled r (some r') = r'

unfoldable pub enter_key : ℕ → Keyboard → Keyboard
unfolding settled add_key
enter_key code k = record k { report = settled k.report (add_key code k.report) }

unfoldable pub remove_key : ℕ → Keyboard → Keyboard
unfolding settled del_key
remove_key code k = record k { report = settled k.report (del_key code k.report) }

unfoldable pub on_report : (Report → Report) → Keyboard → Keyboard
on_report f k = record k { report = f k.report }

unfoldable pub system_send : ℕ → Keyboard → Keyboard
unfolding host_system_send
system_send usage k = record k { host = host_system_send usage k.host }

unfoldable pub consumer_send : ℕ → Keyboard → Keyboard
unfolding host_consumer_send
consumer_send usage k = record k { host = host_consumer_send usage k.host }

-- The locking keys: the key is typed, unless the light already shows what it is to bring about.
unfoldable pub type_lock : ℕ → Keyboard → Keyboard
unfolding send enter_key remove_key
type_lock c k = send (remove_key c (send (enter_key c k)))

module _ (b : Board) where
  open b use {keyboard_leds, rt_tick}

  unfoldable pub mouse_send : Keyboard → Keyboard
  unfolding mousekey_send
  mouse_send k =
      let (host, time) = mousekey_send (rt_tick k) k.mouse k.host in
      record k { host = host; last_timer = time }

  unfoldable pub register_code : ℕ → Keyboard → Keyboard
  unfolding type_lock send enter_key on_report add_mods system_send consumer_send
  register_code code k =
      if code == 0
      then k
      else if is_locking code
      then (if bit_and (keyboard_leds k) (locking_led code) != 0
          then k
          else type_lock (locking_key code) k)
      else if is_key code
      then send (enter_key code k)
      else if is_mod code
      then send (on_report (add_mods (mod_bit code)) k)
      else if is_system code
      then system_send (keycode2system code) k
      else if is_consumer code
      then consumer_send (keycode2consumer code) k
      else k

  unfoldable pub unregister_code : ℕ → Keyboard → Keyboard
  unfolding type_lock send remove_key on_report del_mods system_send consumer_send
  unregister_code code k =
      if code == 0
      then k
      else if is_locking code
      then (if bit_and (keyboard_leds k) (locking_led code) != 0
          then type_lock (locking_key code) k
          else k)
      else if is_key code
      then send (remove_key code k)
      else if is_mod code
      then send (on_report (del_mods (mod_bit code)) k)
      else if is_system code
      then system_send 0 k
      else if is_consumer code
      then consumer_send 0 k
      else k

  unfoldable pub type_code : ℕ → Keyboard → Keyboard
  unfolding register_code unregister_code
  type_code code k = unregister_code code (register_code code k)

  unfoldable pub clear_keyboard_but_mods : Keyboard → Keyboard
  unfolding send on_report mouse_send system_send consumer_send clear_weak_mods clear_keys
      mousekey_clear
  clear_keyboard_but_mods k =
      let k1 = send (on_report clear_keys (on_report clear_weak_mods k)) in
      let k2 = mouse_send (record k1 { mouse = mousekey_clear k1.mouse }) in
      consumer_send 0 (system_send 0 k2)

  unfoldable pub clear_keyboard : Keyboard → Keyboard
  unfolding clear_keyboard_but_mods on_report clear_mods
  clear_keyboard k = clear_keyboard_but_mods (on_report clear_mods k)

unfoldable pub register_mods : ℕ → Keyboard → Keyboard
unfolding send on_report add_mods
register_mods mods k = if mods != 0 then send (on_report (add_mods mods) k) else k

unfoldable pub unregister_mods : ℕ → Keyboard → Keyboard
unfolding send on_report del_mods
unregister_mods mods k = if mods != 0 then send (on_report (del_mods mods) k) else k
