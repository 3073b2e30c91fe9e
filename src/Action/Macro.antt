-- ===== src/Action/Macro.antt =====
-- `action_macro_play` of TMK/action_macro.c. The macro is the list of its bytes; `none` means that
-- it is read past its end. wait_ms is left out.
pub mod Steps
pub mod TapMacro
use ch583_kbd_rtt.Base.{
  ℕ, ◌+◌, ◌-◌, Bool, not, ◌&&◌, ◌||◌, Option, none, some, List, [], ◌∷◌, leb, ◌==◌, if◌then◌else◌,
  bit_and,
}
use ch583_kbd_rtt.Code.{is_mod, mod_bit}
use ch583_kbd_rtt.Report.{add_weak_mods, del_weak_mods, set_mods, clear_mods}
use ch583_kbd_rtt.Keyboard.{Keyboard, Board, send, on_report, register_code, unregister_code}

-- What the byte read next is for: a command, or the second byte of KEY_DOWN, KEY_UP, or of WAIT
-- and INTERVAL.
pub data Expected : Type 0 where
  command key_down key_up pause : Expected

unfoldable pub expected_after : ℕ → Expected
expected_after c =
    if c == 1
    then key_down
    else if c == 2
    then key_up
    else if c == 0x74 || c == 0x75
    then pause
    else command

-- Whether the byte ends the macro: END, or no command.
unfoldable pub ends : ℕ → Bool
ends c = not ((leb 1 c && leb c 0x78) && not (c == 3)) && not (leb 0x84 c && leb c 0xF3)

-- `mod_storage` after a command.
unfoldable pub stored_after : ℕ → ℕ → Keyboard → ℕ
stored_after c stored k = if c == 0x76 then k.report.real_mods else stored

module _ (b : Board) where
  unfoldable pub macro_down : ℕ → Keyboard → Keyboard
  unfolding send on_report add_weak_mods register_code
  macro_down code k =
      if is_mod code
      then send (on_report (add_weak_mods (mod_bit code)) k)
      else register_code b code k

  unfoldable pub macro_up : ℕ → Keyboard → Keyboard
  unfolding send on_report del_weak_mods unregister_code
  macro_up code k =
      if is_mod code
      then send (on_report (del_weak_mods (mod_bit code)) k)
      else unregister_code b code k

  -- What a command of one byte does to the keyboard.
  unfoldable pub run_byte : ℕ → ℕ → Keyboard → Keyboard
  unfolding send on_report set_mods clear_mods register_code unregister_code
  run_byte c stored k =
      if c == 0x77
      then send (on_report (set_mods stored) k)
      else if c == 0x78
      then send (on_report clear_mods k)
      else if leb 0x04 c && leb c 0x73
      then register_code b c k
      else if leb 0x84 c && leb c 0xF3
      then unregister_code b (bit_and c 0x7F) k
      else k

  -- The loop, with `mod_storage`.
  unfoldable pub play : List ℕ → Expected → ℕ → Keyboard → Option Keyboard
  unfolding macro_down macro_up run_byte expected_after ends stored_after
  play [] e stored k = none
  play (c ∷ rest) key_down stored k = play rest command stored (macro_down c k)
  play (c ∷ rest) key_up stored k = play rest command stored (macro_up c k)
  play (c ∷ rest) pause stored k = play rest command stored k
  play (c ∷ rest) command stored k =
      let more = play rest (expected_after c) (stored_after c stored k) (run_byte c stored k) in
      if ends c then some k else more

  -- `none` for the macro is the null pointer, MACRO_NONE.
  unfoldable pub action_macro_play : Option (List ℕ) → Keyboard → Option Keyboard
  unfolding play
  action_macro_play none k = some k
  action_macro_play (some bytes) k = play bytes command 0 k
