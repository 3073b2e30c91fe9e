-- ===== src/Tapping/Invariant.antt =====
-- TMK/action_tapping.c: what every branch of process_tapping leaves of the waiting buffer.
use ch583_kbd_rtt.Base.{
  ℕ, zero, suc, ◌≡◌, refl, ◌∙◌, Bool, true, false, arith, Option, none, some, inl, inr, Bool-cases,
  ltb, ◌==◌, if◌then◌else◌, length, set, length-set,
}
use ch583_kbd_rtt.Event.{KeyRecord, is_noevent}
use ch583_kbd_rtt.Tapping.{
  slot, Actions, Tapping, rounds, next_slot, find_release, waiting_buffer_enq, waiting_buffer_clear,
}
use ch583_kbd_rtt.Tapping.Machine.{
  pass, act_tapping_key, tap_found, waiting_buffer_scan_tap, start_tap, release_last_tap, undecided,
  over_tap, while_pressed, while_released, while_idle, process_tapping, drain, overflow, take_event,
  action_tapping_process,
}
use ch583_kbd_rtt.Tapping.Queue.{IsValid}

module _ (a : Actions) where
  open a use {State, is_tap_key}

  -- The waiting buffer has the indices and the size it had.
  abbrev Keeps : Tapping State → Tapping State → Type 0
  Keeps s s' =
      (s'.waiting_buffer_head ≡ s.waiting_buffer_head)
      × (s'.waiting_buffer_tail ≡ s.waiting_buffer_tail)
      × (length s'.waiting_buffer ≡ length s.waiting_buffer)

  tap_found-Keeps : (i : Option ℕ) (s : Tapping State) → Keeps s (tap_found a i s)
  unfolding tap_found act_tapping_key
  tap_found-Keeps none s = (refl, refl, refl)
  tap_found-Keeps (some i) s = (refl, refl, length-set s.waiting_buffer i _)

  scan-Keeps : (s : Tapping State) → Keeps s (waiting_buffer_scan_tap a s)
  unfolding waiting_buffer_scan_tap
  scan-Keeps s =
      let found =
        tap_found-Keeps
          (find_release (rounds s.waiting_buffer_head s.waiting_buffer_tail) s.waiting_buffer_tail
            s.tapping_key s.waiting_buffer)
          s in
      ground arith

  start-Keeps : (keyp : KeyRecord) (s : Tapping State) → Keeps s (start_tap a keyp s).0
  unfolding start_tap
  start-Keeps keyp s = scan-Keeps (record s { tapping_key = keyp })

  undecided-Keeps : (keyp : KeyRecord) (s : Tapping State) → Keeps s (undecided a keyp s).0
  unfolding undecided act_tapping_key pass
  undecided-Keeps keyp s = ground arith

  over_tap-Keeps : (keyp : KeyRecord) (s : Tapping State) → Keeps s (over_tap a keyp s).0
  unfolding over_tap pass release_last_tap
  over_tap-Keeps keyp s =
      let asked : Tapping State = record s { keyboard = (is_tap_key keyp.event s.keyboard).0 } in
      let first = start-Keeps keyp asked in
      let second = start-Keeps keyp (release_last_tap a keyp.event asked) in
      elim (Bool-cases (ltb 1 s.tapping_key.tap.count)) [
        | inl e ↦ rw e (ground arith)
        | inr e ↦ rw e (ground arith)
      ]

  while_pressed-Keeps : (keyp : KeyRecord) (s : Tapping State) → Keeps s (while_pressed a keyp s).0
  unfolding while_pressed act_tapping_key
  while_pressed-Keeps keyp s =
      let over = over_tap-Keeps keyp s in let first = undecided-Keeps keyp s in ground arith

  while_released-Keeps :
      (keyp : KeyRecord) (s : Tapping State) → Keeps s (while_released a keyp s).0
  unfolding while_released pass
  while_released-Keeps keyp s =
      let start = start-Keeps keyp (record s { keyboard = (is_tap_key keyp.event s.keyboard).0 }) in
      ground arith

  while_idle-Keeps : (keyp : KeyRecord) (s : Tapping State) → Keeps s (while_idle a keyp s).0
  unfolding while_idle pass
  while_idle-Keeps keyp s =
      let start = start-Keeps keyp (record s { keyboard = (is_tap_key keyp.event s.keyboard).0 }) in
      ground arith

  -- On every branch process_tapping leaves the indices and the size of the waiting buffer as they
  -- were.
  process_tapping_keeps :
      (keyp : KeyRecord) (s : Tapping State)
      → let s' = (process_tapping a keyp s).0 in
        (s'.waiting_buffer_head ≡ s.waiting_buffer_head)
        × (s'.waiting_buffer_tail ≡ s.waiting_buffer_tail)
        × (length s'.waiting_buffer ≡ length s.waiting_buffer)
  unfolding process_tapping
  process_tapping_keeps keyp s =
      let pressed = while_pressed-Keeps keyp s in
      let released = while_released-Keeps keyp s in
      let idle = while_idle-Keeps keyp s in ground arith

  IsValid-Keeps : (s s' : Tapping State) → IsValid s → Keeps s s' → IsValid s'
  IsValid-Keeps s s' v k = record {
    size = k.2 ∙ v.size;
    head_in = omega (arith, v.head_in, k.0);
    tail_in = omega (arith, v.tail_in, k.1);
  }

  pick-IsValid :
      (b : Bool) (x y : Tapping State) → IsValid x → IsValid y → IsValid (if b then x else y)
  pick-IsValid true x y vx vy = vx
  pick-IsValid false x y vx vy = vy

  enq-IsValid : (r : KeyRecord) (s : Tapping State) → IsValid s → IsValid (waiting_buffer_enq r s).0
  unfolding waiting_buffer_enq
  enq-IsValid r s v =
      let stored : Tapping State = record s {
        waiting_buffer = set s.waiting_buffer s.waiting_buffer_head r;
        waiting_buffer_head = next_slot s.waiting_buffer_head;
      } in
      let v' : IsValid stored = record {
        size = length-set s.waiting_buffer s.waiting_buffer_head r ∙ v.size;
        head_in = omega arith;
        tail_in = v.tail_in;
      } in
      elim (Bool-cases (is_noevent r.event)) [
        | inl e ↦ rw e v
        | inr e ↦ elim (Bool-cases (next_slot s.waiting_buffer_head == s.waiting_buffer_tail)) [
          | inl full ↦ rw (e, full) v
          | inr room ↦ rw (e, room) v'
        ]
      ]

  take_event-IsValid : (r : KeyRecord) (s : Tapping State) → IsValid s → IsValid (take_event a r s)
  unfolding take_event overflow waiting_buffer_clear
  take_event-IsValid r s v =
      let s' = process_tapping a r s in
      let v' = IsValid-Keeps s s'.0 v (process_tapping_keeps r s) in
      pick-IsValid s'.2 _ _ v' (
        pick-IsValid (waiting_buffer_enq s'.1 s'.0).1 _ _ (enq-IsValid s'.1 s'.0 v')
          (record { size = v'.size; head_in = omega arith; tail_in = omega arith }))

  drain-IsValid : (left : ℕ) (s : Tapping State) → IsValid s → IsValid (drain a left s)
  unfolding drain
  drain-IsValid zero s v = v
  drain-IsValid (suc left) s v =
      let p = process_tapping a (slot s.waiting_buffer s.waiting_buffer_tail) s in
      let v' =
        IsValid-Keeps s p.0 v
          (process_tapping_keeps (slot s.waiting_buffer s.waiting_buffer_tail) s) in
      let size = length-set p.0.waiting_buffer s.waiting_buffer_tail p.1 ∙ v'.size in
      pick-IsValid p.2 _ _
        (drain-IsValid left _ (record { size = size; head_in = v'.head_in; tail_in = omega arith }))
        (record { size = size; head_in = v'.head_in; tail_in = v'.tail_in })

  -- From a valid state the buffer keeps its eight slots and its two indices stay below eight over a
  -- whole event, whatever the called functions do.
  pub action_tapping_process-IsValid :
      (r : KeyRecord) (s : Tapping State) → IsValid s → IsValid (action_tapping_process a r s)
  unfolding action_tapping_process
  action_tapping_process-IsValid r s v = drain-IsValid _ _ (take_event-IsValid r s v)
