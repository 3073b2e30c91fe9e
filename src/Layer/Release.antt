-- ===== src/Layer/Release.antt =====
-- A release acts at the layer of its press, whatever happens to the layers in between.
use ch583_kbd_rtt.Base.{
  ℕ, ◌≡◌, refl, sym, ap, ◌∙◌, Bool, true, false, not, ◌&&◌, List, [], ◌∷◌, arith, ==_refl,
}
use ch583_kbd_rtt.Event.{KeyPos, KeyEvent, keyeq, is_noevent}
use ch583_kbd_rtt.Layer.{
  Layers, KeymapReader, layer_switch_get_action, default_layer_set, default_layer_or,
  default_layer_and, default_layer_xor, layer_clear, layer_move, layer_on, layer_off, layer_invert,
  layer_or, layer_and, layer_xor,
}

-- What may happen to the layers between a press and the release.
pub data Change : Type 0 where
  clear : Change
  move on off invert or_state and_state xor_state : ℕ → Change
  set_default or_default and_default xor_default : ℕ → Change
  lookup : KeyEvent → Change

module _ (action_for_key : KeymapReader) where
  unfoldable pub change : Change → Layers → Layers
  unfolding layer_clear layer_move layer_on layer_off layer_invert layer_or layer_and layer_xor
      default_layer_set default_layer_or default_layer_and default_layer_xor layer_switch_get_action
  change clear s = layer_clear s
  change (move n) s = layer_move n s
  change (on n) s = layer_on n s
  change (off n) s = layer_off n s
  change (invert n) s = layer_invert n s
  change (or_state n) s = layer_or n s
  change (and_state n) s = layer_and n s
  change (xor_state n) s = layer_xor n s
  change (set_default n) s = default_layer_set n s
  change (or_default n) s = default_layer_or n s
  change (and_default n) s = default_layer_and n s
  change (xor_default n) s = default_layer_xor n s
  change (lookup e) s = (layer_switch_get_action action_for_key e s).0

  unfoldable pub changes : List Change → Layers → Layers
  changes [] s = s
  changes (c ∷ cs) s = changes cs (change c s)

  -- The change is no press of the key.
  abbrev pub spares : KeyPos → Change → Bool
  spares key (lookup e) = not (e.pressed && keyeq key e.key)
  spares key _ = true

  abbrev pub all_spare : KeyPos → List Change → Bool
  all_spare key [] = true
  all_spare key (c ∷ cs) = spares key c && all_spare key cs

  change-spares :
      (key : KeyPos) (c : Change) (s : Layers)
      → spares key c ≡ true
      → (change c s).layer_pressed key.row key.col ≡ s.layer_pressed key.row key.col
  unfolding change
  change-spares key (lookup e) s h = ground arith
  change-spares key clear s h = refl
  change-spares key _ s h = refl

  changes-spare :
      (key : KeyPos) (cs : List Change) (s : Layers)
      → all_spare key cs ≡ true
      → (changes cs s).layer_pressed key.row key.col ≡ s.layer_pressed key.row key.col
  unfolding changes
  changes-spare key [] s h = refl
  changes-spare key (c ∷ cs) s h =
      changes-spare key cs (change c s) (ground arith) ∙ change-spares key c s (ground arith)

  press_records :
      (e : KeyEvent) (s : Layers)
      → is_noevent e ≡ false
      → e.pressed ≡ true
      → let (s', action) = layer_switch_get_action action_for_key e s in
        action ≡ action_for_key (s'.layer_pressed e.key.row e.key.col) e.key.row e.key.col
  unfolding layer_switch_get_action
  press_records e s real down = rw (real, down) (rw (==_refl e.key.row, ==_refl e.key.col))

  release_reads :
      (e : KeyEvent) (s : Layers)
      → is_noevent e ≡ false
      → e.pressed ≡ false
      → (layer_switch_get_action action_for_key e s).1
        ≡ action_for_key (s.layer_pressed e.key.row e.key.col) e.key.row e.key.col
  unfolding layer_switch_get_action
  release_reads e s real up = rw (real, up)

  -- After a press, any layer changes and any look-ups but presses of the same key, the release of
  -- the key has the action that the press had.
  pub release_action :
      (press release : KeyEvent) (cs : List Change) (s : Layers)
      → is_noevent press ≡ false
      → is_noevent release ≡ false
      → press.pressed ≡ true
      → release.pressed ≡ false
      → release.key ≡ press.key
      → all_spare press.key cs ≡ true
      → let (s', action) = layer_switch_get_action action_for_key press s in
        (layer_switch_get_action action_for_key release (changes cs s')).1 ≡ action
  release_action press release cs s np nr down up same spare =
      release_reads release (changes cs s') nr up
      ∙ ap (λ k. action_for_key (s''.layer_pressed k.row k.col) k.row k.col) same
      ∙ ap (λ l. action_for_key l press.key.row press.key.col) (changes-spare press.key cs s' spare)
      ∙ sym (press_records press s np down)
    where
      s' : Layers
      s' = (layer_switch_get_action action_for_key press s).0

      s'' : Layers
      s'' = changes cs s'
