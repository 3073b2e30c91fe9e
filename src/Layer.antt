-- ===== src/Layer.antt =====
-- TMK/action_layer.c: the default and the key map layers as 32-bit sets, the layer that holds for
-- a key, and the layer at which each key was pressed. NO_ACTION_LAYER and NO_TRACK_KEY_PRESS are
-- not defined. The hooks are the empty ones of TMK/hook.c, and the debug output is left out.
pub mod Bits
pub mod Select
pub mod Release
use ch583_kbd_rtt.Base.{
  ℕ, zero, suc, ◌+◌, ◌*◌, ◌-◌, ◌^◌, Bool, true, false, ◌&&◌, ◌==◌, ◌!=◌, if◌then◌else◌, bit_and,
  bit_or, bit_xor, u32, ◌<<<◌, complement,
}
use ch583_kbd_rtt.Event.{KeyPos, KeyEvent, is_noevent}

-- `default_layer_state`, `layer_state` and `layer_pressed`, the last by row and column. The array has
-- a place for each key of the matrix, and keyboard_task gives events of no other key.
pub record Layers : Type 0 where
  pub default_layer_state : ℕ
  pub layer_state : ℕ
  pub layer_pressed : ℕ → ℕ → ℕ

abbrev pub one_bit : ℕ → ℕ
one_bit layer = u32 (1 <<< layer)

-- `default_layer_set`
unfoldable pub default_layer_set : ℕ → Layers → Layers
default_layer_set state s = record s { default_layer_state = state }

unfoldable pub default_layer_or : ℕ → Layers → Layers
unfolding default_layer_set
default_layer_or state s = default_layer_set (bit_or s.default_layer_state state) s

unfoldable pub default_layer_and : ℕ → Layers → Layers
unfolding default_layer_set
default_layer_and state s = default_layer_set (bit_and s.default_layer_state state) s

unfoldable pub default_layer_xor : ℕ → Layers → Layers
unfolding default_layer_set
default_layer_xor state s = default_layer_set (bit_xor s.default_layer_state state) s

unfoldable pub layer_state_set : ℕ → Layers → Layers
layer_state_set state s = record s { layer_state = state }

unfoldable pub layer_clear : Layers → Layers
unfolding layer_state_set
layer_clear s = layer_state_set 0 s

unfoldable pub layer_move : ℕ → Layers → Layers
unfolding layer_state_set
layer_move layer s = layer_state_set (one_bit layer) s

unfoldable pub layer_on : ℕ → Layers → Layers
unfolding layer_state_set
layer_on layer s = layer_state_set (bit_or s.layer_state (one_bit layer)) s

unfoldable pub layer_off : ℕ → Layers → Layers
unfolding layer_state_set
layer_off layer s = layer_state_set (bit_and s.layer_state (complement 32 (one_bit layer))) s

unfoldable pub layer_invert : ℕ → Layers → Layers
unfolding layer_state_set
layer_invert layer s = layer_state_set (bit_xor s.layer_state (one_bit layer)) s

unfoldable pub layer_or : ℕ → Layers → Layers
unfolding layer_state_set
layer_or state s = layer_state_set (bit_or s.layer_state state) s

unfoldable pub layer_and : ℕ → Layers → Layers
unfolding layer_state_set
layer_and state s = layer_state_set (bit_and s.layer_state state) s

unfoldable pub layer_xor : ℕ → Layers → Layers
unfolding layer_state_set
layer_xor state s = layer_state_set (bit_xor s.layer_state state) s

-- The code of `ACTION_TRANSPARENT`.
abbrev pub action_transparent : ℕ
action_transparent = 1

-- The code of `ACTION_NO`.
abbrev pub action_no : ℕ
action_no = 0

-- `action_for_key`, by layer, row and column: the key map's reader of the build (that of
-- Storage.antt, where it does not leave its block).
abbrev pub KeymapReader : Type 0
KeymapReader = ℕ → ℕ → ℕ → ℕ

module _ (action_for_key : KeymapReader) where
  -- The loop of `current_layer_for_key`, with the layers below `n` still to be looked at.
  unfoldable pub top_layer : ℕ → ℕ → KeyPos → ℕ
  top_layer zero layers key = 0
  top_layer (suc i) layers key =
      let rest = top_layer i layers key in
      if bit_and layers (one_bit i) != 0 && action_for_key i key.row key.col != action_transparent
      then i
      else rest

  unfoldable pub current_layer_for_key : KeyPos → Layers → ℕ
  unfolding top_layer
  current_layer_for_key key s = top_layer 32 (bit_or s.layer_state s.default_layer_state) key

  unfoldable pub layer_switch_get_action : KeyEvent → Layers → Layers × ℕ
  layer_switch_get_action e s =
      if is_noevent e
      then (s, action_no)
      else if e.pressed
      then (let layer = current_layer_for_key e.key s in
          (
            record s {
              layer_pressed = λ row col.
                  if row == e.key.row && col == e.key.col then layer else s.layer_pressed row col;
            },
            action_for_key layer e.key.row e.key.col,
          ))
      else (s, action_for_key (s.layer_pressed e.key.row e.key.col) e.key.row e.key.col)
