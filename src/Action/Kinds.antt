-- ===== src/Action/Kinds.antt =====
-- The kinds of action of `process_action` of TMK/action.c, one function for each. action_get_macro and
-- action_function are those of TMK/actionmap.c, no macro and nothing to do. BACKLIGHT_ENABLE is not
-- defined.
use ch583_kbd_rtt.Base.{
  ℕ, ◌*◌, Bool, true, ◌&&◌, Option, none, some, List, ltb, leb, ◌==◌, ◌!=◌, if◌then◌else◌, bit_and,
  bit_or, u8, u32, ◌<<<◌, complement,
}
use ch583_kbd_rtt.Code.{
  key_code, key_mods, bitop_bits, bitop_xbit, bitop_part, bitop_on, bitop_op, layer_tap_code,
  layer_tap_val, usage_code, usage_page, func_id, func_opt,
}
use ch583_kbd_rtt.Event.{KeyRecord}
use ch583_kbd_rtt.Layer.{
  Layers, default_layer_and, default_layer_or, default_layer_xor, layer_and, layer_or, layer_xor,
  layer_on, layer_off, layer_invert, layer_move, layer_clear,
}
use ch583_kbd_rtt.Report.{add_weak_mods, del_weak_mods, set_oneshot_mods, clear_oneshot_mods}
use ch583_kbd_rtt.Mouse.{mousekey_on, mousekey_off}
use ch583_kbd_rtt.Keyboard.{
  Keyboard, Board, send, on_report, system_send, consumer_send, mouse_send, register_code,
  unregister_code, register_mods, unregister_mods, clear_keyboard,
}
use ch583_kbd_rtt.Action.Macro.{action_macro_play}

abbrev pub tapping_toggle : ℕ
tapping_toggle = 5

unfoldable pub on_layers : (Layers → Layers) → Keyboard → Keyboard
on_layers f k = record k { layers = f k.layers }

-- `(kind == left) ? mods : mods << 4`
abbrev pub sided_mods : Bool → ℕ → ℕ
sided_mods is_left mods = if is_left then mods else mods * 16

unfoldable pub act_layer : ℕ → Bool → Keyboard → Keyboard
unfolding on_layers default_layer_and default_layer_or default_layer_xor layer_and layer_or
    layer_xor
act_layer action pressed k =
    let shift = bitop_part action * 4 in
    let bits = u32 (bitop_bits action <<< shift) in
    let mask = if bitop_xbit action != 0 then complement 32 (u32 (15 <<< shift)) else 0 in
    let op = bitop_op action in
    if bitop_on action == 0
    then (if pressed
        then k
        else if op == 0
        then on_layers (default_layer_and (bit_or bits mask)) k
        else if op == 1
        then on_layers (default_layer_or (bit_or bits mask)) k
        else if op == 2
        then on_layers (default_layer_xor (bit_or bits mask)) k
        else on_layers (default_layer_or bits) (on_layers (default_layer_and mask) k))
    else if (if pressed then bit_and (bitop_on action) 1 else bit_and (bitop_on action) 2) != 0
    then (if op == 0
        then on_layers (layer_and (bit_or bits mask)) k
        else if op == 1
        then on_layers (layer_or (bit_or bits mask)) k
        else if op == 2
        then on_layers (layer_xor (bit_or bits mask)) k
        else on_layers (layer_or bits) (on_layers (layer_and mask) k))
    else k

-- `action_get_macro` of TMK/actionmap.c: MACRO_NONE
unfoldable pub action_get_macro : KeyRecord → ℕ → ℕ → Option (List ℕ)
action_get_macro r id opt = none

-- `action_function` of TMK/actionmap.c
unfoldable pub action_function : KeyRecord → ℕ → ℕ → Keyboard → Keyboard
action_function r id opt k = k

module _ (b : Board) where
  open b use {action_for_key, process_record_kb}

  unfoldable pub act_mods : Bool → ℕ → Bool → Keyboard → Keyboard
  unfolding send on_report add_weak_mods del_weak_mods register_code unregister_code
  act_mods is_left action pressed k =
      let mods = sided_mods is_left (key_mods action) in
      if pressed
      then register_code b (key_code action)
          (if mods != 0 then send (on_report (add_weak_mods mods) k) else k)
      else (let k' = unregister_code b (key_code action) k in
          if mods != 0 then send (on_report (del_weak_mods mods) k') else k')

  -- MODS_ONESHOT
  unfoldable pub act_oneshot : ℕ → ℕ → Bool → Keyboard → Keyboard
  unfolding register_mods unregister_mods on_report set_oneshot_mods clear_oneshot_mods
  act_oneshot mods tap_count pressed k =
      if pressed
      then (if tap_count == 1 then on_report (set_oneshot_mods mods) k else register_mods mods k)
      else if tap_count == 1
      then k
      else unregister_mods mods (on_report clear_oneshot_mods k)

  -- MODS_TAP_TOGGLE
  unfoldable pub act_tap_toggle : ℕ → ℕ → Bool → Keyboard → Keyboard
  unfolding register_mods unregister_mods
  act_tap_toggle mods tap_count pressed k =
      if pressed
      then (if leb tap_count tapping_toggle
          then (if bit_and mods k.report.real_mods != 0
              then unregister_mods mods k
              else register_mods mods k)
          else k)
      else if ltb tap_count tapping_toggle
      then unregister_mods mods k
      else k

  -- A key when tapped, modifiers when held. An interrupted tap is cancelled in the record.
  unfoldable pub act_mods_key : ℕ → ℕ → KeyRecord → Keyboard → Keyboard × KeyRecord
  unfolding register_mods unregister_mods register_code unregister_code
  act_mods_key mods code r k =
      let cancelled = record r { tap = record { interrupted = r.tap.interrupted; count = 0 } } in
      if r.event.pressed
      then (if ltb 0 r.tap.count
          then (if r.tap.interrupted
              then (register_mods mods k, cancelled)
              else (register_code b code k, r))
          else (register_mods mods k, r))
      else if ltb 0 r.tap.count
      then (unregister_code b code k, r)
      else (unregister_mods mods k, r)

  unfoldable pub act_mods_tap : Bool → ℕ → KeyRecord → Keyboard → Keyboard × KeyRecord
  unfolding act_oneshot act_tap_toggle act_mods_key
  act_mods_tap is_left action r k =
      let mods = sided_mods is_left (key_mods action) in
      let code = key_code action in
      if code == 0
      then (act_oneshot mods r.tap.count r.event.pressed k, r)
      else if code == 1
      then (act_tap_toggle mods r.tap.count r.event.pressed k, r)
      else act_mods_key mods code r k

  unfoldable pub act_usage : ℕ → Bool → Keyboard → Keyboard
  unfolding system_send consumer_send
  act_usage action pressed k =
      let usage = if pressed then usage_code action else 0 in
      if usage_page action == 0
      then system_send usage k
      else if usage_page action == 1
      then consumer_send usage k
      else k

  unfoldable pub act_mousekey : ℕ → Bool → Keyboard → Keyboard
  unfolding mouse_send mousekey_on mousekey_off
  act_mousekey action pressed k =
      let code = key_code action in
      mouse_send b (record k {
        mouse = if pressed then mousekey_on code k.mouse else mousekey_off code k.mouse;
      })

  -- The modifiers of a code from 0xC0 to 0xDF.
  abbrev pub layer_mods : ℕ → ℕ
  layer_mods code =
      if bit_and code 0x10 != 0 then u8 (bit_and code 0x0F <<< 4) else bit_and code 0x0F

  unfoldable pub act_layer_tap : ℕ → ℕ → Bool → Keyboard → Keyboard
  unfolding on_layers layer_on layer_off layer_invert layer_move layer_clear register_mods
      unregister_mods register_code unregister_code
  act_layer_tap action tap_count pressed k =
      let code = layer_tap_code action in
      let val = layer_tap_val action in
      let on = on_layers (layer_on val) k in
      let off = on_layers (layer_off val) k in
      let inverted = on_layers (layer_invert val) k in
      if leb 0xC0 code && leb code 0xDF
      then (if pressed
          then register_mods (layer_mods code) on
          else unregister_mods (layer_mods code) off)
      else if code == 0xF0
      then (if pressed
          then (if ltb tap_count tapping_toggle then inverted else k)
          else if leb tap_count tapping_toggle
          then inverted
          else k)
      else if code == 0xF1
      then (if pressed then on else off)
      else if code == 0xF2
      then (if pressed then off else on)
      else if code == 0xF3
      then (if pressed then on_layers (layer_move val) k else on_layers layer_clear k)
      else if pressed
      then (if ltb 0 tap_count then register_code b code k else on)
      else if ltb 0 tap_count
      then unregister_code b code k
      else off

  -- COMMAND_BOOTLOADER
  unfoldable pub act_command : ℕ → Bool → Keyboard → Keyboard
  unfolding clear_keyboard
  act_command action pressed k =
      if func_id action == 0 && pressed then record (clear_keyboard b k) { jumped = true } else k

  -- A macro that is read past its end leaves the keyboard as it was: there is none.
  unfoldable pub act_macro : ℕ → KeyRecord → Keyboard → Keyboard
  unfolding action_get_macro action_macro_play
  act_macro action r k =
      elim (action_macro_play b (action_get_macro r (func_id action) (func_opt action)) k) [
        | none ↦ k
        | some k' ↦ k'
      ]
