-- ===== src/Action.antt =====
-- `process_action`, `is_tap_key` and `action_exec` of TMK/action.c. hook_process_action is the one
-- of TMK/hook.c, which returns false.
pub mod Kinds
pub mod Macro
pub mod Valid
pub mod Exec
pub mod LayerKeys
pub mod Lookup
pub mod ModsTap
use ch583_kbd_rtt.Base.{
  ℕ, ◌+◌, ◌*◌, Bool, true, false, not, ◌&&◌, ◌||◌, Option, none, some, List, ltb, leb, ◌==◌, ◌!=◌,
  if◌then◌else◌, bit_and, bit_or, u8, u32, ◌<<<◌, complement,
}
use ch583_kbd_rtt.Code.{
  kind_id, key_code, key_mods, bitop_bits, bitop_xbit, bitop_part, bitop_on, bitop_op,
  layer_tap_code, layer_tap_val, usage_code, usage_page, func_id, func_opt,
}
use ch583_kbd_rtt.Event.{KeyEvent, KeyRecord, Tap, is_noevent, no_tap}
use ch583_kbd_rtt.Layer.{
  Layers, layer_switch_get_action, default_layer_and, default_layer_or, default_layer_xor,
  layer_and, layer_or, layer_xor, layer_on, layer_off, layer_invert, layer_move, layer_clear,
}
use ch583_kbd_rtt.Report.{add_weak_mods, del_weak_mods, set_oneshot_mods, clear_oneshot_mods}
use ch583_kbd_rtt.Mouse.{mousekey_on, mousekey_off}
use ch583_kbd_rtt.Keyboard.{
  Keyboard, Board, send, on_report, system_send, consumer_send, mouse_send, register_code,
  unregister_code, register_mods, unregister_mods, clear_keyboard,
}
use ch583_kbd_rtt.Action.Macro.{action_macro_play}
use ch583_kbd_rtt.Tapping.{Actions, Tapping}
use ch583_kbd_rtt.Tapping.Machine.{action_tapping_process}
use ch583_kbd_rtt.Action.Kinds.{
  act_layer, action_function, act_mods, act_mods_tap, act_usage, act_mousekey, act_layer_tap,
  act_command, act_macro,
}

module _ (b : Board) where
  open b use {action_for_key, process_record_kb}

  -- The switch of `process_action`.
  unfoldable pub act : ℕ → KeyRecord → Keyboard → Keyboard × KeyRecord
  unfolding act_mods act_mods_tap act_usage act_mousekey act_layer act_layer_tap act_macro
      act_command action_function
  act action r k =
      let kind = kind_id action in
      let pressed = r.event.pressed in
      if kind == 0 || kind == 1
      then (act_mods b (kind == 0) action pressed k, r)
      else if kind == 2 || kind == 3
      then act_mods_tap b (kind == 2) action r k
      else if kind == 4
      then (act_usage b action pressed k, r)
      else if kind == 5
      then (act_mousekey b action pressed k, r)
      else if kind == 8
      then (act_layer action pressed k, r)
      else if kind == 10 || kind == 11
      then (act_layer_tap b action r.tap.count pressed k, r)
      else if kind == 12
      then (act_macro b action r k, r)
      else if kind == 14
      then (act_command b action pressed k, r)
      else if kind == 15
      then (action_function r (func_id action) (func_opt action) k, r)
      else (k, r)

  unfoldable pub get_action : KeyEvent → Keyboard → Keyboard × ℕ
  unfolding layer_switch_get_action
  get_action e k =
      let (layers, action) = layer_switch_get_action action_for_key e k.layers in
      (record k { layers = layers }, action)

  unfoldable pub process_action : KeyRecord → Keyboard → Keyboard × KeyRecord
  unfolding get_action act
  process_action r k =
      let (k', action) = get_action r.event k in
      if is_noevent r.event
      then (k, r)
      else if process_record_kb r action
      then act action r k'
      else (k', r)

  -- The switch of `is_tap_key`.
  unfoldable pub taps : ℕ → Bool
  taps action =
      let kind = kind_id action in
      let code = layer_tap_code action in
      if kind == 2 || kind == 3
      then true
      else if kind == 10 || kind == 11
      then not
          (((code == 0xF1 || code == 0xF2) || code == 0xF3) || (leb 0xC0 code && leb code 0xDF))
      else if kind == 12 || kind == 15
      then bit_and (func_opt action) 8 != 0
      else false

  unfoldable pub is_tap_key : KeyEvent → Keyboard → Keyboard × Bool
  unfolding get_action taps
  is_tap_key e k =
      let (k', action) = get_action e k in if is_noevent e then (k, false) else (k', taps action)

  -- What the tapping code takes.
  abbrev pub actions : Actions
  actions = record {
    State = Keyboard;
    process_action = process_action;
    is_tap_key = is_tap_key;
    layer_switch_get_action = get_action;
    clear_keyboard = clear_keyboard b;
  }

  -- The keyboard under the tapping code. The hooks are empty.
  unfoldable pub action_exec : KeyEvent → Tapping Keyboard → Tapping Keyboard
  unfolding action_tapping_process
  action_exec e s = action_tapping_process actions (record { event = e; tap = no_tap }) s
