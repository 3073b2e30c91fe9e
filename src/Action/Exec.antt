-- ===== src/Action/Exec.antt =====
-- `action_exec` of TMK/action.c: every event keeps the keyboard and the waiting buffer valid.
use ch583_kbd_rtt.Base.{Bool, true, false, if◌then◌else◌}
use ch583_kbd_rtt.Event.{KeyEvent, KeyRecord, is_noevent, no_tap}
use ch583_kbd_rtt.Keyboard.{Keyboard, Board}
use ch583_kbd_rtt.Keyboard.Invariant
use ch583_kbd_rtt.Keyboard.Valid.{clear_keyboard-IsValid}
use ch583_kbd_rtt.Tapping.{Tapping}
use ch583_kbd_rtt.Tapping.Queue
use ch583_kbd_rtt.Tapping.Invariant.{action_tapping_process-IsValid}
use ch583_kbd_rtt.Tapping.Keyboard.{IsKept, action_tapping_process_kept}
use ch583_kbd_rtt.Action.{actions, is_tap_key, action_exec}
use ch583_kbd_rtt.Action.Valid.{get_action-IsValid, process_action-IsValid}

-- The waiting buffer and the keyboard are valid.
pub record IsSound (s : Tapping Keyboard) : Type 0 where
  pub buffer : Queue.IsValid s
  pub keyboard : Invariant.IsValid s.keyboard

module _ (b : Board) where
  answer-IsValid :
      (noevent : Bool) (x y : Keyboard × Bool)
      → Invariant.IsValid x.0
      → Invariant.IsValid y.0
      → Invariant.IsValid (if noevent then x else y).0
  answer-IsValid true x y vx vy = vx
  answer-IsValid false x y vx vy = vy

  is_tap_key-IsValid :
      (e : KeyEvent) (k : Keyboard) → Invariant.IsValid k → Invariant.IsValid (is_tap_key b e k).0
  unfolding is_tap_key
  is_tap_key-IsValid e k v = answer-IsValid (is_noevent e) _ _ v (get_action-IsValid b e k v)

  actions-IsKept : IsKept (actions b) Invariant.IsValid
  actions-IsKept = record {
    acting = process_action-IsValid b;
    asking = is_tap_key-IsValid;
    reading = get_action-IsValid b;
    clearing = clear_keyboard-IsValid b;
  }

  -- From a valid waiting buffer and a valid keyboard, with any key map, any event leaves both
  -- valid: the ring has its indices in range, the report has 28 bytes, and every keyboard report
  -- that was sent has 28 bytes.
  pub action_exec-IsSound :
      (e : KeyEvent) (s : Tapping Keyboard) → IsSound s → IsSound (action_exec b e s)
  unfolding action_exec
  action_exec-IsSound e s v =
      let r : KeyRecord = record { event = e; tap = no_tap } in
      record {
        buffer = action_tapping_process-IsValid (actions b) r s v.buffer;
        keyboard =
            action_tapping_process_kept (actions b) Invariant.IsValid actions-IsKept r s v.keyboard;
      }
