-- ===== src/Tapping/Single.antt =====
-- TMK/action_tapping.c, one event at a time with nothing waiting: keys that take no part in a
-- tapping, and keys that are held.
use ch583_kbd_rtt.Base.{
  ◌≡◌, refl, sym, ap, ◌∙◌, true, false, ◌&&◌, [], inl, inr, Bool-cases, if◌then◌else◌, length,
}
use ch583_kbd_rtt.Event.{KeyRecord, is_noevent, no_record}
use ch583_kbd_rtt.Tapping.{
  Actions, Tapping, rounds, is_tapping, is_tapping_pressed, within_tapping_term, waiting_buffer_enq,
}
use ch583_kbd_rtt.Tapping.Machine.{
  pass, act_tapping_key, while_pressed, while_idle, process_tapping, drain, take_event,
  action_tapping_process,
}
use ch583_kbd_rtt.Tapping.Queue.{slots, waiting, length-slots}

-- No record waits: the loop has no rounds.
pub empty-rounds :
    {S : Type 0}
    → (s : Tapping S) → waiting s ≡ []
    → rounds s.waiting_buffer_head s.waiting_buffer_tail ≡ 0
empty-rounds s none_wait =
    sym (
      length-slots (rounds s.waiting_buffer_head s.waiting_buffer_tail) s.waiting_buffer_tail
        s.waiting_buffer)
    ∙ ap length none_wait

pub nothing_waits :
    {S : Type 0}
    → (s : Tapping S) → rounds s.waiting_buffer_head s.waiting_buffer_tail ≡ 0
    → waiting s ≡ []
unfolding slots
nothing_waits s none_left = ap (λ n. slots n s.waiting_buffer_tail s.waiting_buffer) none_left

module _ (a : Actions) (s : Tapping a.State) (r : KeyRecord) (none_wait : waiting s ≡ []) where
  open a use {State, process_action, is_tap_key}

  -- The keyboard after `is_tap_key`, which is called for a press only.
  abbrev pub asked : State
  asked = if r.event.pressed then (is_tap_key r.event s.keyboard).0 else s.keyboard

  -- With no tapping key and nothing waiting, an event that is not the press of a tap key goes to
  -- process_action as it came, at once, and nothing else changes.
  idle_pass :
      is_tapping s.tapping_key ≡ false
      → (r.event.pressed && (is_tap_key r.event s.keyboard).1) ≡ false
      → action_tapping_process a r s ≡ record s { keyboard = (process_action r asked).0 }
  unfolding action_tapping_process take_event process_tapping while_idle pass drain
  idle_pass idle plain = elim (Bool-cases r.event.pressed) [
    | inl p ↦
        let asks : (is_tap_key r.event s.keyboard).1 ≡ false =
          ap (λ b. b && (is_tap_key r.event s.keyboard).1) (sym p) ∙ plain in
        rw (idle, asks, p, empty-rounds s none_wait) refl
    | inr p ↦ rw (idle, p, empty-rounds s none_wait) refl
  ]

  -- When the tapping key has been held beyond the term with no taps and nothing waits, an event
  -- that is no key event makes process_action press it with no taps, and the tapping is over.
  pub hold :
      is_tapping_pressed s.tapping_key ≡ true
      → s.tapping_key.tap.count ≡ 0
      → within_tapping_term s.tapping_key r.event ≡ false
      → is_noevent r.event ≡ true
      → action_tapping_process a r s ≡ record s {
        keyboard = (process_action s.tapping_key s.keyboard).0;
        tapping_key = no_record;
      }
  unfolding action_tapping_process take_event process_tapping while_pressed act_tapping_key drain
      waiting_buffer_enq
  hold down no_taps late no_key = rw (down, late, no_taps, no_key, empty-rounds s none_wait) refl
