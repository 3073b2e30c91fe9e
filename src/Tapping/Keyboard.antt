-- ===== src/Tapping/Keyboard.antt =====
-- TMK/action_tapping.c: the keyboard under the tapping code changes by the called functions only.
use ch583_kbd_rtt.Base.{
  ℕ, zero, suc, Bool, true, false, Bool-cases, inl, inr, not, ◌&&◌, ltb, ◌==◌, ◌!=◌, if◌then◌else◌,
  Option, none, some,
}
use ch583_kbd_rtt.Event.{KeyEvent, KeyRecord, is_released, is_noevent}
use ch583_kbd_rtt.Tapping.{
  Actions, Tapping, slot, next_slot, rounds, is_tapping_pressed, is_tapping_released,
  is_tapping_key, within_tapping_term, waiting_buffer_enq, waiting_buffer_clear,
  waiting_buffer_typed,
}
use ch583_kbd_rtt.Tapping.Machine.{
  Processed, retains, next_tap, pass, act_tapping_key, tap_found, waiting_buffer_scan_tap,
  start_tap, release_last_tap, undecided, over_tap, while_pressed, while_released, while_idle,
  process_tapping, drain, overflow, take_event, action_tapping_process,
}

module _ (a : Actions) (P : a.State → Type 0) where
  open a use {State, process_action, is_tap_key, layer_switch_get_action, clear_keyboard}

  -- A property of the keyboard that the functions of action.c and action_layer.c keep.
  pub record IsKept : Type 0 where
    pub acting : (r : KeyRecord) (k : State) → P k → P (process_action r k).0
    pub asking : (e : KeyEvent) (k : State) → P k → P (is_tap_key e k).0
    pub reading : (e : KeyEvent) (k : State) → P k → P (layer_switch_get_action e k).0
    pub clearing : (k : State) → P k → P (clear_keyboard k)

module _ (a : Actions) (P : a.State → Type 0) (kept : IsKept a P) where
  open a use {State, process_action, is_tap_key, layer_switch_get_action, clear_keyboard}

  pick :
      (b : Bool) (x y : Tapping State)
      → P x.keyboard
      → P y.keyboard
      → P (if b then x else y).keyboard
  pick true x y px py = px
  pick false x y px py = py

  pick_processed :
      (b : Bool) (x y : Processed a)
      → P x.0.keyboard
      → P y.0.keyboard
      → P (if b then x else y).0.keyboard
  pick_processed true x y px py = px
  pick_processed false x y px py = py

  pass_kept : (r : KeyRecord) (s : Tapping State) → P s.keyboard → P (pass a r s).0.keyboard
  unfolding pass
  pass_kept r s p = kept.acting r s.keyboard p

  found_kept : (i : Option ℕ) (s : Tapping State) → P s.keyboard → P (tap_found a i s).keyboard
  unfolding tap_found act_tapping_key
  found_kept none s p = p
  found_kept (some i) s p = kept.acting _ s.keyboard p

  start_kept : (r : KeyRecord) (s : Tapping State) → P s.keyboard → P (start_tap a r s).0.keyboard
  unfolding start_tap waiting_buffer_scan_tap
  start_kept r s p =
      pick (r.tap.count != 0) _ _ p
        (pick (not r.event.pressed) _ _ p (found_kept _ (record s { tapping_key = r }) p))

  last_kept :
      (e : KeyEvent) (s : Tapping State) → P s.keyboard → P (release_last_tap a e s).keyboard
  unfolding release_last_tap
  last_kept e s p = kept.acting _ s.keyboard p

  undecided_kept :
      (r : KeyRecord) (s : Tapping State) → P s.keyboard → P (undecided a r s).0.keyboard
  unfolding undecided act_tapping_key
  undecided_kept r s p =
      let e = r.event in
      let read = kept.reading e s.keyboard p in
      pick_processed (is_tapping_key s.tapping_key e.key && not e.pressed) _ _
        (kept.acting _ s.keyboard p)
        (pick_processed (is_released e && not (waiting_buffer_typed e s)) _ _
          (pick_processed (retains (layer_switch_get_action e s.keyboard).1 r.tap.count) _ _ read
            (pass_kept r (record s { keyboard = (layer_switch_get_action e s.keyboard).0 }) read))
          (pick_processed e.pressed _ _ p p))

  over_kept : (r : KeyRecord) (s : Tapping State) → P s.keyboard → P (over_tap a r s).0.keyboard
  unfolding over_tap
  over_kept r s p =
      let e = r.event in
      let asked = kept.asking e s.keyboard p in
      let (k, tap_key) = is_tap_key e s.keyboard in
      let s' : Tapping State = record s { keyboard = k } in
      let many = ltb 1 s.tapping_key.tap.count in
      let before : Tapping State = if many then release_last_tap a e s' else s' in
      pick_processed (tap_key && e.pressed) _ _
        (start_kept r before (pick many (release_last_tap a e s') s' (last_kept e s' asked) asked))
        (pass_kept r s' asked)

  pressed_kept :
      (r : KeyRecord) (s : Tapping State) → P s.keyboard → P (while_pressed a r s).0.keyboard
  unfolding while_pressed act_tapping_key
  pressed_kept r s p =
      let e = r.event in
      let t = s.tapping_key in
      let ended = kept.acting (record r { tap = t.tap }) s.keyboard p in
      let over = over_kept r s p in
      let released = is_tapping_key t e.key && not e.pressed in
      pick_processed (within_tapping_term t e) _ _
        (pick_processed (t.tap.count == 0) _ _ (undecided_kept r s p)
          (pick_processed released _ _ ended over))
        (pick_processed (t.tap.count == 0) _ _ (kept.acting t s.keyboard p)
          (pick_processed released _ _ ended over))

  released_kept :
      (r : KeyRecord) (s : Tapping State) → P s.keyboard → P (while_released a r s).0.keyboard
  unfolding while_released
  released_kept r s p =
      let e = r.event in
      let t = s.tapping_key in
      let asked = kept.asking e s.keyboard p in
      let (k, tap_key) = is_tap_key e s.keyboard in
      let s' : Tapping State = record s { keyboard = k } in
      let broken : Tapping State = record s' {
        tapping_key = record t { tap = record { interrupted = true; count = t.tap.count } };
      } in
      pick_processed (within_tapping_term t e) _ _
        (pick_processed e.pressed _ _
          (pick_processed (is_tapping_key t e.key) _ _
            (pick_processed (not t.tap.interrupted && ltb 0 t.tap.count) _ _
              (kept.acting (record r { tap = next_tap a t.tap }) s.keyboard p) p)
            (pick_processed tap_key _ _ (start_kept r s' asked) (pass_kept r broken asked)))
          (pass_kept r s p))
        p

  idle_kept : (r : KeyRecord) (s : Tapping State) → P s.keyboard → P (while_idle a r s).0.keyboard
  unfolding while_idle
  idle_kept r s p =
      let e = r.event in
      let asked = kept.asking e s.keyboard p in
      let s' : Tapping State = record s { keyboard = (is_tap_key e s.keyboard).0 } in
      pick_processed e.pressed _ _
        (pick_processed (is_tap_key e s.keyboard).1 _ _ (start_kept r s' asked)
          (pass_kept r s' asked))
        (pass_kept r s p)

  tapping_kept :
      (r : KeyRecord) (s : Tapping State) → P s.keyboard → P (process_tapping a r s).0.keyboard
  unfolding process_tapping
  tapping_kept r s p = pick_processed (is_tapping_pressed s.tapping_key) _ _ (pressed_kept r s p) (
      pick_processed (is_tapping_released s.tapping_key) _ _ (released_kept r s p)
        (idle_kept r s p))

  enq_kept :
      (r : KeyRecord) (s : Tapping State) → P s.keyboard → P (waiting_buffer_enq r s).0.keyboard
  unfolding waiting_buffer_enq
  enq_kept r s p = elim (Bool-cases (is_noevent r.event)) [
    | inl e ↦ rw e p
    | inr e ↦ elim (Bool-cases (next_slot s.waiting_buffer_head == s.waiting_buffer_tail)) [
      | inl full ↦ rw (e, full) p
      | inr room ↦ rw (e, room) p
    ]
  ]

  take_kept : (r : KeyRecord) (s : Tapping State) → P s.keyboard → P (take_event a r s).keyboard
  unfolding take_event overflow waiting_buffer_clear
  take_kept r s p =
      let (s', keyp, done) = process_tapping a r s in
      let p' = tapping_kept r s p in
      pick done _ _ p' (
        pick (waiting_buffer_enq keyp s').1 _ _ (enq_kept keyp s' p')
          (kept.clearing s'.keyboard p'))

  drain_kept : (left : ℕ) (s : Tapping State) → P s.keyboard → P (drain a left s).keyboard
  unfolding drain
  drain_kept zero s p = p
  drain_kept (suc left) s p =
      let r = slot s.waiting_buffer s.waiting_buffer_tail in
      let p' = tapping_kept r s p in pick (process_tapping a r s).2 _ _ (drain_kept left _ p') p'

  -- process
  pub action_tapping_process_kept :
      (r : KeyRecord) (s : Tapping State) → P s.keyboard → P (action_tapping_process a r s).keyboard
  unfolding action_tapping_process
  action_tapping_process_kept r s p =
      let s' = take_event a r s in
      drain_kept (rounds s'.waiting_buffer_head s'.waiting_buffer_tail) s' (take_kept r s p)
