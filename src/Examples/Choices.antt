-- ===== src/Examples/Choices.antt =====
-- TMK/action_layer.c with two layers on.
use ch583_kbd_rtt.Base.{ℕ, ◌+◌, ◌*◌, ◌≡◌, refl, true, false, ◌&&◌, [], ◌∷◌, ◌==◌, if◌then◌else◌}
use ch583_kbd_rtt.Event.{KeyPos, KeyEvent}
use ch583_kbd_rtt.Layer.{
  Layers, KeymapReader, top_layer, current_layer_for_key, layer_switch_get_action,
}
use ch583_kbd_rtt.Layer.Select.{IsTop, current_layer_for_key-IsTop}
use ch583_kbd_rtt.Layer.Release.{clear, off, lookup, changes, release_action}

-- Layers 0 and 3 are on.
abbrev two_layers : Layers
two_layers = record { default_layer_state = 1; layer_state = 8; layer_pressed = λ r c. 0 }

-- Layer 3 has nothing at column 1.
abbrev small_map : KeymapReader
small_map = λ layer row col. if layer == 3 && col == 1 then 1 else layer * 16 + col + 4

abbrev at_column : ℕ → KeyPos
at_column c = record { col = c; row = 0 }

current_layer_for_key-IsTop_example :
    IsTop small_map
      (at_column 1)
      two_layers
      32
      (current_layer_for_key small_map (at_column 1) two_layers)
current_layer_for_key-IsTop_example = current_layer_for_key-IsTop small_map (at_column 1) two_layers

transparent_run : current_layer_for_key small_map (at_column 1) two_layers ≡ 0
unfolding current_layer_for_key top_layer
transparent_run = refl

top_run : current_layer_for_key small_map (at_column 2) two_layers ≡ 3
unfolding current_layer_for_key top_layer
top_run = refl

abbrev down_at : ℕ → ℕ → KeyEvent
down_at c t = record { key = at_column c; pressed = true; time = t }

abbrev up_at : ℕ → ℕ → KeyEvent
up_at c t = record { key = at_column c; pressed = false; time = t }

release_action_example :
    let (s', action) = layer_switch_get_action small_map (down_at 2 100) two_layers in
    (layer_switch_get_action small_map
      (up_at 2 150)
      (changes small_map (off 3 ∷ lookup (down_at 1 120) ∷ clear ∷ []) s')).1
    ≡ action
release_action_example =
    release_action small_map (down_at 2 100) (up_at 2 150)
      (off 3 ∷ lookup (down_at 1 120) ∷ clear ∷ []) two_layers refl refl refl refl refl refl
