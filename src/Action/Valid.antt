-- ===== src/Action/Valid.antt =====
-- TMK/action.c and action_macro.c: every action keeps the keyboard valid.
use ch583_kbd_rtt.Base.{
  ℕ, arith, ◌≡◌, Bool, true, false, ◌==◌, ◌!=◌, ◌&&◌, ◌||◌, leb, ltb, bit_and, if◌then◌else◌,
}
use ch583_kbd_rtt.Code.{
  kind_id, key_code, key_mods, layer_tap_code, layer_tap_val, usage_page, func_id,
}
use ch583_kbd_rtt.Event.{KeyEvent, KeyRecord, is_noevent}
use ch583_kbd_rtt.Layer.{Layers, layer_on, layer_off, layer_invert, layer_move, layer_clear}
use ch583_kbd_rtt.Report.{add_weak_mods, del_weak_mods, set_oneshot_mods, clear_oneshot_mods}
use ch583_kbd_rtt.Keyboard.{Keyboard, Board}
use ch583_kbd_rtt.Keyboard.Invariant.{
  IsValid, IsValid-if, system_send-IsValid, consumer_send-IsValid, on_report-IsValid,
}
use ch583_kbd_rtt.Keyboard.Valid.{
  weak_mods_ring, oneshot_mods_ring, send_changed-IsValid, register_mods-IsValid,
  unregister_mods-IsValid, register_code-IsValid, unregister_code-IsValid, send_mouse-IsValid,
  clear_keyboard-IsValid,
}
use ch583_kbd_rtt.Action.Macro.{action_macro_play}
use ch583_kbd_rtt.Action.{act, get_action, process_action}
use ch583_kbd_rtt.Action.Kinds.{
  tapping_toggle, on_layers, sided_mods, act_layer, act_mods, act_oneshot, act_tap_toggle,
  act_mods_key, act_mods_tap, act_usage, act_mousekey, layer_mods, act_layer_tap, act_command,
  act_macro, action_get_macro, action_function,
}

on_layers-IsValid : (f : Layers → Layers) (k : Keyboard) → IsValid k → IsValid (on_layers f k)
unfolding on_layers
on_layers-IsValid f k v = record { ring = v.ring; sent = v.sent }

pair_if :
    (b : Bool) (x y : Keyboard × KeyRecord)
    → IsValid x.0
    → IsValid y.0
    → IsValid (if b then x else y).0
pair_if true x y vx vy = vx
pair_if false x y vx vy = vy

-- Only the layers change.
act_layer_same :
    (action : ℕ) (pressed : Bool) (k : Keyboard)
    → ((act_layer action pressed k).report ≡ k.report)
      × ((act_layer action pressed k).host ≡ k.host)
unfolding act_layer on_layers
act_layer_same action pressed k = ground arith

act_layer-IsValid :
    (action : ℕ) (pressed : Bool) (k : Keyboard) → IsValid k → IsValid (act_layer action pressed k)
act_layer-IsValid action pressed k v =
    let (report, host) = act_layer_same action pressed k in
    record { ring = rw report v.ring; sent = rw host v.sent }

module _ (b : Board) where
  open b use {action_for_key, process_record_kb}

  act_oneshot-IsValid :
      (mods tap_count : ℕ) (pressed : Bool) (k : Keyboard)
      → IsValid k
      → IsValid (act_oneshot b mods tap_count pressed k)
  unfolding act_oneshot
  act_oneshot-IsValid mods tap_count pressed k v =
      let shot = oneshot_mods_ring mods in
      IsValid-if pressed _ _
        (IsValid-if (tap_count == 1) _ _
          (on_report-IsValid (set_oneshot_mods mods) k (shot.0 k.report) v)
          (register_mods-IsValid mods k v))
        (IsValid-if (tap_count == 1) _ _ v (
          unregister_mods-IsValid mods _
            (on_report-IsValid clear_oneshot_mods k (shot.1 k.report) v)))

  act_tap_toggle-IsValid :
      (mods tap_count : ℕ) (pressed : Bool) (k : Keyboard)
      → IsValid k
      → IsValid (act_tap_toggle b mods tap_count pressed k)
  unfolding act_tap_toggle
  act_tap_toggle-IsValid mods tap_count pressed k v =
      let off = unregister_mods-IsValid mods k v in
      IsValid-if pressed _ _
        (IsValid-if (leb tap_count tapping_toggle) _ _
          (IsValid-if (bit_and mods k.report.real_mods != 0) _ _ off
            (register_mods-IsValid mods k v))
          v)
        (IsValid-if (ltb tap_count tapping_toggle) _ _ off v)

  act_usage-IsValid :
      (action : ℕ) (pressed : Bool) (k : Keyboard)
      → IsValid k
      → IsValid (act_usage b action pressed k)
  unfolding act_usage
  act_usage-IsValid action pressed k v =
      IsValid-if (usage_page action == 0) _ _ (system_send-IsValid _ k v)
        (IsValid-if (usage_page action == 1) _ _ (consumer_send-IsValid _ k v) v)

  act_mods-IsValid :
      (left : Bool) (action : ℕ) (pressed : Bool) (k : Keyboard)
      → IsValid k
      → IsValid (act_mods b left action pressed k)
  unfolding act_mods
  act_mods-IsValid left action pressed k v =
      let mods = sided_mods left (key_mods action) in
      let code = key_code action in
      let keep = weak_mods_ring mods in
      let up = unregister_code-IsValid b code k v in
      IsValid-if pressed _ _
        (register_code-IsValid b code _
          (IsValid-if (mods != 0) _ _ (send_changed-IsValid (add_weak_mods mods) k keep.0 v) v))
        (IsValid-if (mods != 0) _ _ (send_changed-IsValid (del_weak_mods mods) _ keep.1 up) up)

  act_mods_key-IsValid :
      (mods code : ℕ) (r : KeyRecord) (k : Keyboard)
      → IsValid k
      → IsValid (act_mods_key b mods code r k).0
  unfolding act_mods_key
  act_mods_key-IsValid mods code r k v =
      let held = register_mods-IsValid mods k v in
      pair_if r.event.pressed _ _
        (pair_if (ltb 0 r.tap.count) _ _
          (pair_if r.tap.interrupted _ _ held (register_code-IsValid b code k v)) held)
        (pair_if (ltb 0 r.tap.count) _ _ (unregister_code-IsValid b code k v)
          (unregister_mods-IsValid mods k v))

  act_mods_tap-IsValid :
      (left : Bool) (action : ℕ) (r : KeyRecord) (k : Keyboard)
      → IsValid k
      → IsValid (act_mods_tap b left action r k).0
  unfolding act_mods_tap
  act_mods_tap-IsValid left action r k v =
      let mods = sided_mods left (key_mods action) in
      pair_if (key_code action == 0) _ _ (act_oneshot-IsValid mods r.tap.count r.event.pressed k v)
        (pair_if (key_code action == 1) _ _
          (act_tap_toggle-IsValid mods r.tap.count r.event.pressed k v)
          (act_mods_key-IsValid mods (key_code action) r k v))

  act_mousekey-IsValid :
      (action : ℕ) (pressed : Bool) (k : Keyboard)
      → IsValid k
      → IsValid (act_mousekey b action pressed k)
  unfolding act_mousekey
  act_mousekey-IsValid action pressed k v = send_mouse-IsValid b _ k v

  act_layer_tap-IsValid :
      (action tap_count : ℕ) (pressed : Bool) (k : Keyboard)
      → IsValid k
      → IsValid (act_layer_tap b action tap_count pressed k)
  unfolding act_layer_tap
  act_layer_tap-IsValid action tap_count pressed k v =
      let code = layer_tap_code action in
      let val = layer_tap_val action in
      let on = on_layers-IsValid (layer_on val) k v in
      let off = on_layers-IsValid (layer_off val) k v in
      let inverted = on_layers-IsValid (layer_invert val) k v in
      let moved = on_layers-IsValid (layer_move val) k v in
      let cleared = on_layers-IsValid layer_clear k v in
      IsValid-if (leb 0xC0 code && leb code 0xDF) _ _
        (IsValid-if pressed _ _ (register_mods-IsValid (layer_mods b code) _ on)
          (unregister_mods-IsValid (layer_mods b code) _ off))
        (IsValid-if (code == 0xF0) _ _
          (IsValid-if pressed _ _ (IsValid-if (ltb tap_count tapping_toggle) _ _ inverted v)
            (IsValid-if (leb tap_count tapping_toggle) _ _ inverted v))
          (IsValid-if (code == 0xF1) _ _ (IsValid-if pressed _ _ on off) (
            IsValid-if (code == 0xF2) _ _ (IsValid-if pressed _ _ off on) (
              IsValid-if (code == 0xF3) _ _ (IsValid-if pressed _ _ moved cleared) (
                IsValid-if pressed _ _
                  (IsValid-if (ltb 0 tap_count) _ _ (register_code-IsValid b code k v) on)
                  (IsValid-if (ltb 0 tap_count) _ _ (unregister_code-IsValid b code k v) off))))))

  act_command-IsValid :
      (action : ℕ) (pressed : Bool) (k : Keyboard)
      → IsValid k
      → IsValid (act_command b action pressed k)
  unfolding act_command
  act_command-IsValid action pressed k v =
      let v' = clear_keyboard-IsValid b k v in
      IsValid-if (func_id action == 0 && pressed) _ _ (record { ring = v'.ring; sent = v'.sent }) v

  -- act
  act-IsValid :
      (action : ℕ) (r : KeyRecord) (k : Keyboard) → IsValid k → IsValid (act b action r k).0
  unfolding act act_macro action_get_macro action_macro_play action_function
  act-IsValid action r k v =
      let kind = kind_id action in
      let pressed = r.event.pressed in
      pair_if (kind == 0 || kind == 1) _ _ (act_mods-IsValid (kind == 0) action pressed k v) (
        pair_if (kind == 2 || kind == 3) _ _ (act_mods_tap-IsValid (kind == 2) action r k v) (
          pair_if (kind == 4) _ _ (act_usage-IsValid action pressed k v) (
            pair_if (kind == 5) _ _ (act_mousekey-IsValid action pressed k v) (
              pair_if (kind == 8) _ _ (act_layer-IsValid action pressed k v) (
                pair_if (kind == 10 || kind == 11) _ _
                  (act_layer_tap-IsValid action r.tap.count pressed k v)
                  (pair_if (kind == 12) _ _ v (
                    pair_if (kind == 14) _ _ (act_command-IsValid action pressed k v)
                      (pair_if (kind == 15) _ _ v v))))))))

  pub get_action-IsValid : (e : KeyEvent) (k : Keyboard) → IsValid k → IsValid (get_action b e k).0
  unfolding get_action
  get_action-IsValid e k v = record { ring = v.ring; sent = v.sent }

  pub process_action-IsValid :
      (r : KeyRecord) (k : Keyboard) → IsValid k → IsValid (process_action b r k).0
  unfolding process_action
  process_action-IsValid r k v =
      let v' = get_action-IsValid r.event k v in
      let (k', action) = get_action b r.event k in
      pair_if (is_noevent r.event) _ _ v
        (pair_if (process_record_kb r action) _ _ (act-IsValid action r k' v') v')
