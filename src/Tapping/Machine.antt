-- ===== src/Tapping/Machine.antt =====
-- `process_tapping` and `action_tapping_process` of TMK/action_tapping.c.
use ch583_kbd_rtt.Base.{
  ℕ, zero, suc, ◌+◌, Bool, true, false, not, ◌&&◌, ◌||◌, Option, none, some, ltb, ◌==◌, ◌!=◌,
  if◌then◌else◌, set,
}
use ch583_kbd_rtt.Code.{kind_id, key_mods, key_code, is_mod}
use ch583_kbd_rtt.Event.{KeyEvent, Tap, KeyRecord, is_released, no_record}
use ch583_kbd_rtt.Tapping.{
  Actions, Tapping, slot, next_slot, rounds, is_tapping_pressed, is_tapping_released,
  is_tapping_key, within_tapping_term, find_release, waiting_buffer_enq, waiting_buffer_clear,
  waiting_buffer_typed,
}

-- Whether the release of a key with this action waits for the end of the tapping.
unfoldable pub retains : ℕ → ℕ → Bool
retains action tap_count =
    if kind_id action == 0 || kind_id action == 1
    then (key_mods action != 0 && key_code action == 0) || is_mod (key_code action)
    else if kind_id action == 2 || kind_id action == 3
    then (key_mods action != 0 && tap_count == 0) || is_mod (key_code action)
    else false

module _ (a : Actions) where
  open a use {State, process_action, is_tap_key, layer_switch_get_action, clear_keyboard}

  -- The state, what is left in `*keyp`, and whether the event is processed or consumed.
  abbrev pub Processed : Type 0
  Processed = Tapping State × KeyRecord × Bool

  -- `process_action(keyp); return true;`
  unfoldable pub pass : KeyRecord → Tapping State → Processed
  pass keyp s =
      let (k, keyp') = process_action keyp s.keyboard in (record s { keyboard = k }, keyp', true)

  -- `process_action(&tapping_key);`
  unfoldable pub act_tapping_key : Tapping State → Tapping State
  act_tapping_key s =
      let (k, t) = process_action s.tapping_key s.keyboard in
      record s { keyboard = k; tapping_key = t }

  -- The body of its loop at the slot that it finds.
  unfoldable pub tap_found : Option ℕ → Tapping State → Tapping State
  unfolding act_tapping_key
  tap_found none s = s
  tap_found (some i) s =
      let t = s.tapping_key in
      let r = slot s.waiting_buffer i in
      act_tapping_key (record s {
        tapping_key = record t { tap = record { interrupted = t.tap.interrupted; count = 1 } };
        waiting_buffer =
            set s.waiting_buffer i
              (record r { tap = record { interrupted = r.tap.interrupted; count = 1 } });
      })

  unfoldable pub waiting_buffer_scan_tap : Tapping State → Tapping State
  unfolding tap_found find_release
  waiting_buffer_scan_tap s =
      let t = s.tapping_key in
      let i =
        find_release (rounds s.waiting_buffer_head s.waiting_buffer_tail) s.waiting_buffer_tail t
          s.waiting_buffer in
      if t.tap.count != 0 then s else if not t.event.pressed then s else tap_found i s

  -- `tapping_key = *keyp; waiting_buffer_scan_tap(); return true;`
  unfoldable pub start_tap : KeyRecord → Tapping State → Processed
  unfolding waiting_buffer_scan_tap
  start_tap keyp s = (waiting_buffer_scan_tap (record s { tapping_key = keyp }), keyp, true)

  -- `process_action` of a release of the tapping key, made up at the time of the event.
  unfoldable pub release_last_tap : KeyEvent → Tapping State → Tapping State
  release_last_tap e s =
      let t = s.tapping_key in
      let r : KeyRecord = record {
        event = record { key = t.event.key; pressed = false; time = e.time };
        tap = t.tap;
      } in
      record s { keyboard = (process_action r s.keyboard).0 }

  -- Within the term, before the first tap.
  unfoldable pub undecided : KeyRecord → Tapping State → Processed
  unfolding act_tapping_key pass waiting_buffer_typed retains
  undecided keyp s =
      let e = keyp.event in
      let t = s.tapping_key in
      if is_tapping_key t e.key && not e.pressed
      then (let s' = act_tapping_key (record s {
        tapping_key = record t { tap = record { interrupted = t.tap.interrupted; count = 1 } };
      }) in
          (s', record keyp { tap = s'.tapping_key.tap }, false))
      else if is_released e && not (waiting_buffer_typed e s)
      then (let (k, action) = layer_switch_get_action e s.keyboard in
          let s' = record s { keyboard = k } in
          if retains action keyp.tap.count then (s', keyp, false) else pass keyp s')
      else if e.pressed
      then (
        record s {
          tapping_key = record t { tap = record { interrupted = true; count = t.tap.count } };
        },
        keyp,
        false,
      )
      else (s, keyp, false)

  -- A press, while the tapping key is held after a tap: a tap key starts a new tapping.
  unfoldable pub over_tap : KeyRecord → Tapping State → Processed
  unfolding pass start_tap release_last_tap
  over_tap keyp s =
      let e = keyp.event in
      let (k, tap_key) = is_tap_key e s.keyboard in
      let s' = record s { keyboard = k } in
      if tap_key && e.pressed
      then start_tap keyp (if ltb 1 s.tapping_key.tap.count then release_last_tap e s' else s')
      else pass keyp s'

  -- The tapping key is held down.
  unfoldable pub while_pressed : KeyRecord → Tapping State → Processed
  unfolding undecided over_tap act_tapping_key
  while_pressed keyp s =
      let e = keyp.event in
      let t = s.tapping_key in
      let tapped = record keyp { tap = t.tap } in
      let (k, tapped') = process_action tapped s.keyboard in
      if within_tapping_term t e
      then (if t.tap.count == 0
          then undecided keyp s
          else if is_tapping_key t e.key && not e.pressed
          then (record s { keyboard = k; tapping_key = tapped' }, tapped', true)
          else over_tap keyp s)
      else (if t.tap.count == 0
          then (record (act_tapping_key s) { tapping_key = no_record }, keyp, false)
          else if is_tapping_key t e.key && not e.pressed
          then (record s { keyboard = k; tapping_key = no_record }, tapped', true)
          else over_tap keyp s)

  -- `if (keyp->tap.count < 15) keyp->tap.count += 1;` of a copy of the tapping key's state
  abbrev pub next_tap : Tap → Tap
  next_tap t = record {
    interrupted = t.interrupted;
    count = if ltb t.count 15 then t.count + 1 else t.count;
  }

  -- The tapping key has been released.
  unfoldable pub while_released : KeyRecord → Tapping State → Processed
  unfolding pass start_tap
  while_released keyp s =
      let e = keyp.event in
      let t = s.tapping_key in
      let (k, again) = process_action (record keyp { tap = next_tap t.tap }) s.keyboard in
      let (k', tap_key) = is_tap_key e s.keyboard in
      if within_tapping_term t e
      then (if e.pressed
          then (if is_tapping_key t e.key
              then (if not t.tap.interrupted && ltb 0 t.tap.count
                  then (record s { keyboard = k; tapping_key = again }, again, true)
                  else (record s { tapping_key = keyp }, keyp, true))
              else if tap_key
              then start_tap keyp (record s { keyboard = k' })
              else pass keyp (record s {
                keyboard = k';
                tapping_key = record t { tap = record { interrupted = true; count = t.tap.count } };
              }))
          else pass keyp s)
      else (record s { tapping_key = no_record }, keyp, false)

  -- No key is tapping. `is_tap_key` is asked only about a press.
  unfoldable pub while_idle : KeyRecord → Tapping State → Processed
  unfolding pass start_tap
  while_idle keyp s =
      let e = keyp.event in
      let (k, tap_key) = is_tap_key e s.keyboard in
      if e.pressed
      then (if tap_key
          then start_tap keyp (record s { keyboard = k })
          else pass keyp (record s { keyboard = k }))
      else pass keyp s

  unfoldable pub process_tapping : KeyRecord → Tapping State → Processed
  unfolding while_pressed while_released while_idle
  process_tapping keyp s =
      if is_tapping_pressed s.tapping_key
      then while_pressed keyp s
      else if is_tapping_released s.tapping_key
      then while_released keyp s
      else while_idle keyp s

  -- The loop of `action_tapping_process` over the waiting buffer.
  unfoldable pub drain : ℕ → Tapping State → Tapping State
  unfolding process_tapping
  drain zero s = s
  drain (suc left) s =
      let (s', keyp, done) = process_tapping (slot s.waiting_buffer s.waiting_buffer_tail) s in
      let kept = record s' { waiting_buffer = set s'.waiting_buffer s.waiting_buffer_tail keyp } in
      let rest =
        drain left (record kept { waiting_buffer_tail = next_slot s.waiting_buffer_tail }) in
      if done then rest else kept

  -- `clear_keyboard(); waiting_buffer_clear(); tapping_key = (keyrecord_t){};`
  unfoldable pub overflow : Tapping State → Tapping State
  unfolding waiting_buffer_clear
  overflow s = record (waiting_buffer_clear (record s { keyboard = clear_keyboard s.keyboard })) {
    tapping_key = no_record;
  }

  -- `action_tapping_process` before its loop.
  unfoldable pub take_event : KeyRecord → Tapping State → Tapping State
  unfolding process_tapping waiting_buffer_enq overflow
  take_event r s =
      let (s', keyp, done) = process_tapping r s in
      let (queued, stored) = waiting_buffer_enq keyp s' in
      if done then s' else if stored then queued else overflow s'

  unfoldable pub action_tapping_process : KeyRecord → Tapping State → Tapping State
  unfolding take_event drain
  action_tapping_process r s =
      let s' = take_event r s in drain (rounds s'.waiting_buffer_head s'.waiting_buffer_tail) s'
