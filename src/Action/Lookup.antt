-- ===== src/Action/Lookup.antt =====
-- `layer_switch_get_action` under TMK/action.c: a key is looked up for its press, once more, and for its
-- release.
use ch583_kbd_rtt.Base.{ℕ, ◌≡◌, refl, sym, ap, ◌∙◌, true, false, arith, []}
use ch583_kbd_rtt.Event.{KeyEvent, is_noevent}
use ch583_kbd_rtt.Layer.{Layers, layer_switch_get_action, current_layer_for_key}
use ch583_kbd_rtt.Layer.Release.{changes, release_action}
use ch583_kbd_rtt.Keyboard.{
  Keyboard, Board, send, enter_key, remove_key, on_report, system_send, consumer_send, type_lock,
  register_code,
}
use ch583_kbd_rtt.Action.{get_action}

pub register_code-layers :
    (b : Board) (code : ℕ) (k : Keyboard) → (register_code b code k).layers ≡ k.layers
unfolding register_code type_lock send enter_key remove_key on_report system_send consumer_send
register_code-layers b code k = ground arith

module _ (b : Board) where
  open b use {action_for_key}

  -- The keyboard when the key is looked up for `is_tap_key`, and again for `process_action`.
  abbrev pub looked_up : KeyEvent → Keyboard → Keyboard
  looked_up e k = (get_action b e (get_action b e k).0).0

  abbrev pub action_at : KeyEvent → Keyboard → ℕ
  action_at e k = (get_action b e k).1

  look_up_keeps :
      (e : KeyEvent) (k : Keyboard)
      → ((get_action b e k).0.layers.layer_state ≡ k.layers.layer_state)
        × ((get_action b e k).0.layers.default_layer_state ≡ k.layers.default_layer_state)
  unfolding get_action layer_switch_get_action
  look_up_keeps e k = ground arith

  press_at_layer :
      (e : KeyEvent) (l : Layers)
      → is_noevent e ≡ false
      → e.pressed ≡ true
      → (layer_switch_get_action action_for_key e l).1
        ≡ action_for_key (current_layer_for_key action_for_key e.key l) e.key.row e.key.col
  unfolding layer_switch_get_action
  press_at_layer e l real down = rw (real, down)

  release_keeps :
      (e : KeyEvent) (l : Layers)
      → is_noevent e ≡ false
      → e.pressed ≡ false
      → (layer_switch_get_action action_for_key e l).0 ≡ l
  unfolding layer_switch_get_action
  release_keeps e l real up = rw (real, up)

  pub press_looks_up :
      (e : KeyEvent) (k : Keyboard)
      → is_noevent e ≡ false
      → e.pressed ≡ true
      → action_at e k
        ≡ action_for_key (current_layer_for_key action_for_key e.key k.layers) e.key.row e.key.col
  unfolding get_action
  press_looks_up e k real down = press_at_layer e k.layers real down

  same_layer :
      (e : KeyEvent) (l l' : Layers)
      → l'.layer_state ≡ l.layer_state
      → l'.default_layer_state ≡ l.default_layer_state
      → current_layer_for_key action_for_key e.key l' ≡ current_layer_for_key action_for_key e.key l
  unfolding current_layer_for_key
  same_layer e l l' s d = rw (s, d) refl

  pub same_twice :
      (e : KeyEvent) (k : Keyboard)
      → is_noevent e ≡ false
      → e.pressed ≡ true
      → action_at e (get_action b e k).0 ≡ action_at e k
  same_twice e k real down =
      let k' = (get_action b e k).0 in
      let (state, default) = look_up_keeps e k in
      press_looks_up e k' real down
      ∙ ap (λ (n : ℕ). action_for_key n e.key.row e.key.col)
          (same_layer e k.layers k'.layers state default)
      ∙ sym (press_looks_up e k real down)

  release_reads :
      (e : KeyEvent) (k : Keyboard)
      → is_noevent e ≡ false
      → e.pressed ≡ false
      → get_action b e k ≡ (k, action_at e k)
  unfolding get_action
  release_reads e k real up =
      ap (λ (l : Layers). (record k { layers = l }, action_at e k))
        (release_keeps e k.layers real up)

  -- The release is looked up at the layer of the press, and nothing else changes.
  pub release_looks_up :
      (press release : KeyEvent) (k k' : Keyboard)
      → is_noevent press ≡ false
      → is_noevent release ≡ false
      → press.pressed ≡ true
      → release.pressed ≡ false
      → release.key ≡ press.key
      → k'.layers ≡ (get_action b press k).0.layers
      → get_action b release k' ≡ (k', action_at press k)
  unfolding get_action changes
  release_looks_up press release k k' np nr down up same layers =
      let action : action_at release k' ≡ action_at press k =
        ap (λ (l : Layers). (layer_switch_get_action action_for_key release l).1) layers
        ∙ release_action action_for_key press release [] k.layers np nr down up same refl in
      release_reads release k' nr up ∙ ap (λ (n : ℕ). (k', n)) action
