-- ===== src/Hid/Remap.antt =====
-- From DRIVERS/USB/hid_configuration.c to TMK/action.c: a key that the host has set acts by its new code.
use ch583_kbd_rtt.Base.{ℕ, ◌+◌, ◌*◌, ◌<◌, ◌≡◌, ap, ◌∙◌, ◌≢◌, true, false, List, [], ◌∷◌}
use ch583_kbd_rtt.Event.{KeyEvent, KeyRecord, is_noevent, no_tap}
use ch583_kbd_rtt.Layer.{KeymapReader, current_layer_for_key}
use ch583_kbd_rtt.Storage.{
  Access, ok, fault, Storage, action_for_key, max_layer, matrix_rows, matrix_cols,
}
use ch583_kbd_rtt.Storage.Bounds.{IsValid}
use ch583_kbd_rtt.Keyboard.{Keyboard, Board}
use ch583_kbd_rtt.Action.{act, get_action, process_action}
use ch583_kbd_rtt.Action.Lookup.{press_looks_up}
use ch583_kbd_rtt.Action.ModsTap.{process_real}
use ch583_kbd_rtt.Hid.{set_single_key, packet, dispatch}
use ch583_kbd_rtt.Hid.RoundTrip.{with_key, get-set_single_key, stored}

-- The code that is read, and 0 where the read leaves the block, which no theorem relies on.
unfoldable pub code_or_none : Access ℕ → ℕ
code_or_none (ok code) = code
code_or_none fault = 0

-- The key map of the layer code, filled by the store.
abbrev pub stored_keys : List (List (List ℕ)) → Storage → KeymapReader
stored_keys maps s layer row col = code_or_none (action_for_key maps layer row col s)

-- In a valid store, SET_SINGLE_KEY of a key of the eight layers, with a code that is not zero,
-- succeeds; and a real press of that key, with the key map of the new store, at a time when that
-- layer is the one for the key and process_record_kb lets every event pass, makes process_action
-- act by the new code.
pub remapped_key_acts :
    (b : Board) (maps : List (List (List ℕ))) (info rest : List ℕ) (layer lo hi : ℕ) (e : KeyEvent)
    (s : Storage) (k : Keyboard)
    → IsValid s
    → layer < max_layer
    → e.key.row < matrix_rows
    → e.key.col < matrix_cols
    → lo < 256
    → hi < 256
    → lo + hi ≢ 0
    → is_noevent e ≡ false
    → e.pressed ≡ true
    → ((r : KeyRecord) (action : ℕ) → b.process_record_kb r action ≡ true)
    → current_layer_for_key
        (stored_keys maps (with_key layer e.key.row e.key.col lo hi s))
        e.key
        k.layers
      ≡ layer
    → let s' = with_key layer e.key.row e.key.col lo hi s in
      let b' : Board = record b { action_for_key = stored_keys maps s' } in
      let r : KeyRecord = record { event = e; tap = no_tap } in
      (dispatch set_single_key maps info 5 (layer ∷ e.key.row ∷ e.key.col ∷ lo ∷ hi ∷ rest) s
        ≡ ok (s', packet (0x3f ∷ 1 ∷ 0 ∷ []) ∷ []))
      × (process_action b' r k ≡ act b' (lo + hi * 256) r (get_action b' e k).0)
unfolding code_or_none
remapped_key_acts b maps info rest layer lo hi e s k v hl hr hc hlo hhi some_byte real down wanted
      top =
    let s' = with_key layer e.key.row e.key.col lo hi s in
    let b' : Board = record b { action_for_key = stored_keys maps s' } in
    let r : KeyRecord = record { event = e; tap = no_tap } in
    let read = stored layer e.key.row e.key.col lo hi s v hl hr hc hlo hhi some_byte maps in
    let code : (get_action b' e k).1 ≡ lo + hi * 256 =
      press_looks_up b' e k real down
      ∙ ap (λ (l : ℕ). stored_keys maps s' l e.key.row e.key.col) top
      ∙ ap code_or_none read in
    (
      (get-set_single_key layer e.key.row e.key.col lo hi s v hl hr hc hlo hhi some_byte maps info
          rest).0,
      process_real b' r k real (wanted r) ∙ ap (λ (a : ℕ). act b' a r (get_action b' e k).0) code,
    )
