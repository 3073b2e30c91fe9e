-- ===== src/Action/ModsTap.antt =====
-- TMK/action.c with action_tapping.c: a key that has modifiers when held and a code when tapped.
use ch583_kbd_rtt.Base.{
  ℕ, ◌≡◌, refl, ap, ◌∙◌, Bool, true, false, not, ◌&&◌, ◌||◌, arith, ==_refl, [], ◌==◌,
  if◌then◌else◌,
}
use ch583_kbd_rtt.Code.{kind_id, key_code, key_mods}
use ch583_kbd_rtt.Event.{KeyPos, KeyEvent, KeyRecord, is_noevent, no_tap, no_record, keyeq}
use ch583_kbd_rtt.Keyboard.{
  Keyboard, Board, register_code, unregister_code, register_mods, type_code,
}
use ch583_kbd_rtt.Tapping.{Tapping, is_tapping, is_tapping_key, within_tapping_term}
use ch583_kbd_rtt.Tapping.Queue.{IsValid, waiting}
use ch583_kbd_rtt.Tapping.Single.{hold}
use ch583_kbd_rtt.Tapping.Scenario.{tapped, tap}
use ch583_kbd_rtt.Action.Lookup.{
  register_code-layers, looked_up, action_at, same_twice, release_looks_up,
}
use ch583_kbd_rtt.Action.{actions, act, get_action, process_action, is_tap_key, taps, action_exec}
use ch583_kbd_rtt.Action.Kinds.{act_mods_tap, act_mods_key, sided_mods}

-- The action is LMODS_TAP or RMODS_TAP of a key.
abbrev pub is_mods_key : ℕ → Bool
is_mods_key action =
    (kind_id action == 2 || kind_id action == 3)
    && (not (key_code action == 0) && not (key_code action == 1))

mods_key_numbers :
    (kind code : ℕ)
    → ((kind == 2 || kind == 3) && (not (code == 0) && not (code == 1))) ≡ true
    → ((kind == 0 || kind == 1) ≡ false)
      × ((kind == 2 || kind == 3) ≡ true)
      × ((code == 0) ≡ false)
      × ((code == 1) ≡ false)
mods_key_numbers kind code h = (ground arith, ground arith, ground arith, ground arith)

mods_key_tests :
    (action : ℕ)
    → is_mods_key action ≡ true
    → ((kind_id action == 0 || kind_id action == 1) ≡ false)
      × ((kind_id action == 2 || kind_id action == 3) ≡ true)
      × ((key_code action == 0) ≡ false)
      × ((key_code action == 1) ≡ false)
mods_key_tests action h = mods_key_numbers (kind_id action) (key_code action) h

second_case :
    (first second : Bool) (x y z : Keyboard × KeyRecord)
    → first ≡ false
    → second ≡ true
    → (if first then x else if second then y else z) ≡ y
second_case first second x y z off on = rw (off, on) refl

real_answer :
    (noevent : Bool) (k k' : Keyboard) (answer : Bool)
    → noevent ≡ false
    → answer ≡ true
    → ◌≡◌ {A = Keyboard × Bool} (if noevent then (k, false) else (k', answer)) (k', true)
real_answer noevent k k' answer real good = rw (real, good) refl

key_self : (key : KeyPos) → keyeq key key ≡ true
key_self key = rw (==_refl key.row, ==_refl key.col) refl

real_place :
    (press : KeyEvent) (key : KeyPos)
    → is_noevent press ≡ false
    → key ≡ press.key
    → (not (is_noevent press) && keyeq press.key key) ≡ true
real_place press key real same =
    ap (λ (x : Bool). not x && keyeq press.key key) real
    ∙ ap (keyeq press.key) same
    ∙ key_self press.key

real_press :
    (press : KeyEvent)
    → is_noevent press ≡ false
    → press.pressed ≡ true
    → (not (is_noevent press) && press.pressed) ≡ true
real_press press real down = rw (real, down) refl

module _ (b : Board) where
  open b use {process_record_kb}

  act_mods_key_case :
      (action : ℕ) (r : KeyRecord) (k : Keyboard)
      → is_mods_key action ≡ true
      → act b action r k
        ≡ act_mods_key b (sided_mods (kind_id action == 2) (key_mods action)) (key_code action) r k
  unfolding act act_mods_tap
  act_mods_key_case action r k h =
      let (other, kind, code, toggle) = mods_key_tests action h in
      rw (other, kind, code, toggle) refl

  -- The record of the press, with one tap, comes back as it was.
  press_registers :
      (action : ℕ) (r : KeyRecord) (k : Keyboard)
      → is_mods_key action ≡ true
      → r.event.pressed ≡ true
      → r.tap.interrupted ≡ false
      → act b action (tapped r) k ≡ (register_code b (key_code action) k, tapped r)
  unfolding act_mods_key
  press_registers action r k h down calm =
      act_mods_key_case action (tapped r) k h ∙ rw (down, calm) refl

  release_unregisters :
      (action : ℕ) (r : KeyRecord) (k : Keyboard)
      → is_mods_key action ≡ true
      → r.event.pressed ≡ false
      → r.tap.count ≡ 1
      → act b action r k ≡ (unregister_code b (key_code action) k, r)
  unfolding act_mods_key
  release_unregisters action r k h up one = act_mods_key_case action r k h ∙ rw (up, one) refl

  hold_registers :
      (action : ℕ) (r : KeyRecord) (k : Keyboard)
      → is_mods_key action ≡ true
      → r.event.pressed ≡ true
      → r.tap.count ≡ 0
      → act b action r k ≡ (register_mods (sided_mods (kind_id action == 2) (key_mods action)) k, r)
  unfolding act_mods_key
  hold_registers action r k h down none = act_mods_key_case action r k h ∙ rw (down, none) refl

  -- A real event that is to be processed.
  pub process_real :
      (r : KeyRecord) (k : Keyboard)
      → is_noevent r.event ≡ false
      → ((action : ℕ) → process_record_kb r action ≡ true)
      → process_action b r k ≡ act b (get_action b r.event k).1 r (get_action b r.event k).0
  unfolding process_action
  process_real r k real wanted =
      let (k', action) = get_action b r.event k in
      second_case (is_noevent r.event) (process_record_kb r action) (k, r) (act b action r k')
        (k', r) real (wanted action)

  mods_key_taps : (action : ℕ) → is_mods_key action ≡ true → taps b action ≡ true
  unfolding taps
  mods_key_taps action h = let (other, kind, code, toggle) = mods_key_tests action h in rw kind refl

  is_tap_key_real :
      (e : KeyEvent) (k : Keyboard)
      → is_noevent e ≡ false
      → is_mods_key (action_at b e k) ≡ true
      → is_tap_key b e k ≡ ((get_action b e k).0, true)
  unfolding is_tap_key
  is_tap_key_real e k real mods =
      let (k', action) = get_action b e k in
      real_answer (is_noevent e) k k' (taps b action) real (mods_key_taps action mods)

  -- With a valid waiting buffer, nothing waiting and no tapping key: a key whose action is
  -- modifiers with a key code is pressed and released within the term, by real events that
  -- process_record_kb lets pass. Then the keyboard is that of type_code of its code after the look-
  -- up of the press: no modifier is entered, and nothing waits.
  pub mods_key_tapped :
      (press release : KeyEvent) (s : Tapping Keyboard)
      → IsValid s
      → waiting s ≡ []
      → is_tapping s.tapping_key ≡ false
      → is_noevent press ≡ false
      → press.pressed ≡ true
      → is_noevent release ≡ false
      → release.pressed ≡ false
      → release.key ≡ press.key
      → within_tapping_term (record { event = press; tap = no_tap }) release ≡ true
      → ((r : KeyRecord) (action : ℕ) → process_record_kb r action ≡ true)
      → is_mods_key (action_at b press s.keyboard) ≡ true
      → let s' = action_exec b release (action_exec b press s) in
        (s'.keyboard
          ≡ type_code b (key_code (action_at b press s.keyboard)) (looked_up b press s.keyboard))
        × (waiting s' ≡ [])
  unfolding action_exec type_code
  mods_key_tapped press release s v none idle real down real' up same soon wanted mods =
      let k = s.keyboard in
      let k1 = (get_action b press k).0 in
      let k2 = looked_up b press k in
      let action = action_at b press k in
      let code = key_code action in
      let p : KeyRecord = record { event = press; tap = no_tap } in
      let r : KeyRecord = record { event = release; tap = no_tap } in
      let r' : KeyRecord = record r { tap = (tapped p).tap } in
      let asks = is_tap_key_real press k real mods in
      let twice = same_twice b press k real down in
      let mods' : is_mods_key (action_at b press k1) ≡ true = ap is_mods_key twice ∙ mods in
      let pressed : process_action b (tapped p) k1 ≡ (register_code b code k2, tapped p) =
        process_real (tapped p) k1 real (wanted (tapped p))
        ∙ press_registers (action_at b press k1) p k2 mods' down refl
        ∙ ap (λ (a : ℕ). (register_code b (key_code a) k2, tapped p)) twice in
      let held = register_code b code k2 in
      let looks : get_action b release held ≡ (held, action_at b press k1) =
        release_looks_up b press release k1 held real real' down up same
          (register_code-layers b code k2) in
      let released : process_action b r' held ≡ (unregister_code b code held, r') =
        process_real r' held real' (wanted r')
        ∙ ap (λ (x : Keyboard × ℕ). act b x.1 r' x.0) looks
        ∙ release_unregisters (action_at b press k1) r' held mods' up refl
        ∙ ap (λ (a : ℕ). (unregister_code b (key_code a) held, r')) twice in
      let asked : (is_tap_key b press k).0 ≡ k1 = ap (λ (x : Keyboard × Bool). x.0) asks in
      let processed : process_action b (tapped p) (is_tap_key b press k).0 ≡ (held, tapped p) =
        ap (process_action b (tapped p)) asked ∙ pressed in
      let place : is_tapping_key p release.key ≡ true = real_place press release.key real same in
      let (whole, key, nothing) =
        tap (actions b) s v p r none idle (ap (λ (x : Keyboard × Bool). x.1) asks)
          (real_press press real down) down refl real' up place soon
          (ap (λ (x : Keyboard × KeyRecord). x.1) processed) in
      (
        whole
            ∙ ap (λ (x : Keyboard × KeyRecord). (process_action b r' x.0).0) processed
            ∙ ap (λ (x : Keyboard × KeyRecord). x.0) released,
        nothing,
      )

  -- When nothing waits and the tapping key, whose action is modifiers with a key code, is down with
  -- no taps and a tick comes after the term, and process_record_kb lets every event pass, its
  -- modifiers are registered, and the tapping is over.
  pub mods_key_held :
      (tick : KeyEvent) (s : Tapping Keyboard)
      → waiting s ≡ []
      → is_noevent s.tapping_key.event ≡ false
      → s.tapping_key.event.pressed ≡ true
      → s.tapping_key.tap.count ≡ 0
      → within_tapping_term s.tapping_key tick ≡ false
      → is_noevent tick ≡ true
      → ((r : KeyRecord) (action : ℕ) → process_record_kb r action ≡ true)
      → is_mods_key (action_at b s.tapping_key.event s.keyboard) ≡ true
      → let action = action_at b s.tapping_key.event s.keyboard in
        let mods = sided_mods (kind_id action == 2) (key_mods action) in
        let s' = action_exec b tick s in
        (s'.keyboard ≡ register_mods mods (get_action b s.tapping_key.event s.keyboard).0)
        × (s'.tapping_key ≡ no_record)
  unfolding action_exec
  mods_key_held tick s none real down no_taps late no_key wanted mods =
      let t = s.tapping_key in
      let (k', action) = get_action b t.event s.keyboard in
      let r : KeyRecord = record { event = tick; tap = no_tap } in
      let held = hold (actions b) s r none (real_press t.event real down) no_taps late no_key in
      (
        ap (λ (x : Tapping Keyboard). x.keyboard) held
            ∙ ap (λ (x : Keyboard × KeyRecord). x.0)
                (process_real t s.keyboard real (wanted t)
                  ∙ hold_registers action t k' mods down no_taps),
        ap (λ (x : Tapping Keyboard). x.tapping_key) held,
      )
