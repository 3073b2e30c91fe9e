-- ===== src/Tapping/Scenario.antt =====
-- TMK/action_tapping.c over two events: a tap key goes down, and within the term comes up again,
-- or another key goes down.
use ch583_kbd_rtt.Base.{
  ◌≡◌, refl, sym, ap, ◌∙◌, true, false, [], arith, ◌==◌, ne→==, set, get_or-set_self,
}
use ch583_kbd_rtt.Event.{KeyRecord, is_noevent, no_record}
use ch583_kbd_rtt.Tapping.{
  Actions, Tapping, slot, next_slot, rounds, is_tapping, is_tapping_key, is_tapping_pressed,
  within_tapping_term, waiting_buffer_enq,
}
use ch583_kbd_rtt.Tapping.Machine.{
  act_tapping_key, undecided, while_pressed, while_idle, start_tap, waiting_buffer_scan_tap,
  process_tapping, drain, take_event, action_tapping_process,
}
use ch583_kbd_rtt.Tapping.Queue.{IsValid, waiting}
use ch583_kbd_rtt.Tapping.Single.{empty-rounds, nothing_waits}

-- A record with one tap counted.
abbrev pub tapped : KeyRecord → KeyRecord
tapped r = record r { tap = record { interrupted = r.tap.interrupted; count = 1 } }

module _ (a : Actions) (s : Tapping a.State) (v : IsValid s) (none_wait : waiting s ≡ []) where
  open a use {State, process_action, is_tap_key}

  same_place : s.waiting_buffer_head ≡ s.waiting_buffer_tail
  same_place =
      let none_left = empty-rounds s none_wait in omega (arith, none_left, v.head_in, v.tail_in)

  -- The press of a tap key is kept, and nothing is processed yet.
  press_starts :
      (r : KeyRecord)
      → is_tapping s.tapping_key ≡ false
      → (is_tap_key r.event s.keyboard).1 ≡ true
      → r.event.pressed ≡ true
      → r.tap.count ≡ 0
      → action_tapping_process a r s
        ≡ record s { tapping_key = r; keyboard = (is_tap_key r.event s.keyboard).0 }
  unfolding action_tapping_process take_event process_tapping while_idle start_tap
      waiting_buffer_scan_tap drain
  press_starts r idle tap_key down no_taps =
      let none_left = empty-rounds s none_wait in
      rw (idle, tap_key, none_left, down, no_taps) (rw none_left refl)

  -- Its release within the term: the press is processed with one tap, the release waits.
  release_taken :
      (r : KeyRecord)
      → is_tapping_pressed s.tapping_key ≡ true
      → s.tapping_key.tap.count ≡ 0
      → within_tapping_term s.tapping_key r.event ≡ true
      → is_tapping_key s.tapping_key r.event.key ≡ true
      → r.event.pressed ≡ false
      → is_noevent r.event ≡ false
      → let (k, t) = process_action (tapped s.tapping_key) s.keyboard in
        take_event a r s ≡ record s {
          tapping_key = t;
          keyboard = k;
          waiting_buffer = set s.waiting_buffer s.waiting_buffer_head (record r { tap = t.tap });
          waiting_buffer_head = next_slot s.waiting_buffer_head;
        }
  unfolding take_event process_tapping while_pressed undecided act_tapping_key waiting_buffer_enq
  release_taken r down no_taps soon same up real =
      let room : (next_slot s.waiting_buffer_head == s.waiting_buffer_tail) ≡ false =
        ne→== _ _ (omega (arith, same_place, v.tail_in)) in
      rw (down, soon, no_taps, same, up, real, room) refl

-- One record waits, the release of a tapping key that has been tapped.
module _ (a : Actions) (s : Tapping a.State) (r : KeyRecord)
    (one : rounds s.waiting_buffer_head s.waiting_buffer_tail ≡ 1) where
  open a use {State, process_action}

  release_drained :
      slot s.waiting_buffer s.waiting_buffer_tail ≡ record r { tap = s.tapping_key.tap }
      → is_tapping_pressed s.tapping_key ≡ true
      → s.tapping_key.tap.count ≡ 1
      → within_tapping_term s.tapping_key r.event ≡ true
      → is_tapping_key s.tapping_key r.event.key ≡ true
      → r.event.pressed ≡ false
      → let (k, t) = process_action (record r { tap = s.tapping_key.tap }) s.keyboard in
        let s' = drain a (rounds s.waiting_buffer_head s.waiting_buffer_tail) s in
        (s'.keyboard ≡ k)
        × (s'.tapping_key ≡ t)
        × (s'.waiting_buffer_head ≡ s.waiting_buffer_head)
        × (s'.waiting_buffer_tail ≡ next_slot s.waiting_buffer_tail)
  unfolding drain process_tapping while_pressed
  release_drained waits down taps soon same up =
      rw (one, waits, down, soon, taps, same, up) (refl, refl, refl, refl)

module _ (a : Actions) (s : Tapping a.State) (v : IsValid s) (r : KeyRecord) where
  open a use {State, process_action}

  -- The state between the two calls of process_action.
  abbrev pub between : Tapping State
  between = record s {
    tapping_key = tapped s.tapping_key;
    keyboard = (process_action (tapped s.tapping_key) s.keyboard).0;
    waiting_buffer =
        set s.waiting_buffer s.waiting_buffer_head (record r { tap = (tapped s.tapping_key).tap });
    waiting_buffer_head = next_slot s.waiting_buffer_head;
  }

  one_waits :
      waiting s ≡ []
      → (rounds between.waiting_buffer_head between.waiting_buffer_tail ≡ 1)
        × (slot between.waiting_buffer between.waiting_buffer_tail
            ≡ record r { tap = (tapped s.tapping_key).tap })
  one_waits none_wait =
      let place = same_place a s v none_wait in
      (
        omega (arith, place, v.head_in, v.tail_in),
        ap (slot between.waiting_buffer) (sym place)
            ∙ get_or-set_self s.waiting_buffer s.waiting_buffer_head _ no_record
                (omega (arith, v.size, v.head_in)),
      )

  -- The release of a tap key within the term, after its press.
  tap_release :
      waiting s ≡ []
      → is_tapping_pressed s.tapping_key ≡ true
      → s.tapping_key.tap.count ≡ 0
      → within_tapping_term s.tapping_key r.event ≡ true
      → is_tapping_key s.tapping_key r.event.key ≡ true
      → r.event.pressed ≡ false
      → is_noevent r.event ≡ false
      → (process_action (tapped s.tapping_key) s.keyboard).1 ≡ tapped s.tapping_key
      → let s' = action_tapping_process a r s in
        let (k, t) =
          process_action (record r { tap = (tapped s.tapping_key).tap }) between.keyboard in
        (s'.keyboard ≡ k) × (s'.tapping_key ≡ t) × (waiting s' ≡ [])
  unfolding action_tapping_process
  tap_release none_wait down no_taps soon same up real kept =
      let taken : take_event a r s ≡ between =
        release_taken a s v none_wait r down no_taps soon same up real
        ∙ ap
            (λ t. record between {
              tapping_key = t;
              waiting_buffer =
                  set s.waiting_buffer s.waiting_buffer_head (record r { tap = t.tap });
            })
            kept in
      let (one, waits) = one_waits none_wait in
      let (k, t, h, i) = release_drained a between r one waits down refl soon same up in
      let place = same_place a s v none_wait in
      let drained =
        drain a (rounds between.waiting_buffer_head between.waiting_buffer_tail) between in
      rw taken (k, t, nothing_waits drained (omega (arith, h, i, place, v.head_in, v.tail_in)))

module _ (a : Actions) (s : Tapping a.State) (v : IsValid s) (press release : KeyRecord) where
  open a use {State, process_action, is_tap_key}

  -- The keyboard after the tap key's press, and the record of its release, as processed.
  abbrev pub asked : State
  asked = (is_tap_key press.event s.keyboard).0

  abbrev pub released : KeyRecord
  released = record release { tap = (tapped press).tap }

  -- With no tapping key and nothing waiting, a tap key is pressed and released within the term,
  -- with real event times, a press that comes with no taps, and a process_action that leaves the
  -- record of the press as it is. Then process_action gets the press and then the release, both
  -- with one tap, and nothing waits; the release is the new tapping key.
  pub tap :
      waiting s ≡ []
      → is_tapping s.tapping_key ≡ false
      → (is_tap_key press.event s.keyboard).1 ≡ true
      → is_tapping_pressed press ≡ true
      → press.event.pressed ≡ true
      → press.tap.count ≡ 0
      → is_noevent release.event ≡ false
      → release.event.pressed ≡ false
      → is_tapping_key press release.event.key ≡ true
      → within_tapping_term press release.event ≡ true
      → (process_action (tapped press) asked).1 ≡ tapped press
      → let s' = action_tapping_process a release (action_tapping_process a press s) in
        let (k, t) = process_action released (process_action (tapped press) asked).0 in
        (s'.keyboard ≡ k) × (s'.tapping_key ≡ t) × (waiting s' ≡ [])
  tap none_wait idle tap_key down is_down no_taps real up same soon kept =
      let none_left : rounds s.waiting_buffer_head s.waiting_buffer_tail ≡ 0 =
        empty-rounds s none_wait in
      let pressed : Tapping State = record s { tapping_key = press; keyboard = asked } in
      let v' : IsValid pressed = record {
        size = v.size;
        head_in = v.head_in;
        tail_in = v.tail_in;
      } in
      rw (press_starts a s v none_wait press idle tap_key is_down no_taps)
        (tap_release a pressed v' release none_wait down no_taps soon same up real kept)
