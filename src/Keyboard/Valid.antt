-- ===== src/Keyboard/Valid.antt =====
-- TMK/action.c: the utilities for actions keep the keyboard valid.
use ch583_kbd_rtt.Base.{
  ℕ, ◌≡◌, refl, length, length-set, ◌==◌, ◌!=◌, List, zero, suc, ◌+◌, set, ◌∙◌, bit_and,
}
use ch583_kbd_rtt.Code.{
  is_key, is_mod, is_system, is_consumer, mod_bit, is_locking, locking_key, locking_led,
  keycode2system, keycode2consumer,
}
use ch583_kbd_rtt.Report.{
  Report, add_mods, del_mods, set_mods, clear_mods, add_weak_mods, del_weak_mods, clear_weak_mods,
  set_oneshot_mods, clear_oneshot_mods, zero_from, clear_keys,
}
use ch583_kbd_rtt.Report.SixKey.{IsRing}
use ch583_kbd_rtt.Mouse.{Mouse}
use ch583_kbd_rtt.Keyboard.{
  Keyboard, Board, send, on_report, mouse_send, type_lock, register_code, unregister_code,
  register_mods, unregister_mods, clear_keyboard, clear_keyboard_but_mods,
}
use ch583_kbd_rtt.Keyboard.Invariant.{
  IsValid, IsValid-if, send-IsValid, system_send-IsValid, consumer_send-IsValid, mouse_send-IsValid,
  enter_key-IsValid, remove_key-IsValid, on_report-IsValid,
}

zero_from-length : (left i : ℕ) (raw : List ℕ) → length (zero_from left i raw) ≡ length raw
unfolding zero_from
zero_from-length zero i raw = refl
zero_from-length (suc left) i raw = zero_from-length left (i + 1) (set raw i 0) ∙ length-set raw i 0

clear_keys-IsRing : (r : Report) → IsRing r → IsRing (clear_keys r)
unfolding clear_keys
clear_keys-IsRing r v = record {
  head_in = v.head_in;
  tail_in = v.tail_in;
  size = zero_from-length 27 1 r.raw ∙ v.size;
}

-- What sets modifiers does not touch the ring.
abbrev SameRing : (Report → Report) → Type 0
SameRing f = (r : Report) → IsRing r → IsRing (f r)

mods_ring :
    (m : ℕ)
    → SameRing (add_mods m) × SameRing (del_mods m) × SameRing (set_mods m) × SameRing clear_mods
unfolding add_mods del_mods set_mods clear_mods
mods_ring m =
    let keep : (r : Report) (x : ℕ) → IsRing r → IsRing (record r { real_mods = x }) =
      λ r x v. record { head_in = v.head_in; tail_in = v.tail_in; size = v.size } in
    (λ r. keep r _, λ r. keep r _, λ r. keep r m, λ r. keep r 0)

pub weak_mods_ring :
    (m : ℕ) → SameRing (add_weak_mods m) × SameRing (del_weak_mods m) × SameRing clear_weak_mods
unfolding add_weak_mods del_weak_mods clear_weak_mods
weak_mods_ring m =
    let keep : (r : Report) (x : ℕ) → IsRing r → IsRing (record r { weak_mods = x }) =
      λ r x v. record { head_in = v.head_in; tail_in = v.tail_in; size = v.size } in
    (λ r. keep r _, λ r. keep r _, λ r. keep r 0)

pub oneshot_mods_ring : (m : ℕ) → SameRing (set_oneshot_mods m) × SameRing clear_oneshot_mods
unfolding set_oneshot_mods clear_oneshot_mods
oneshot_mods_ring m =
    let keep : (r : Report) (x : ℕ) → IsRing r → IsRing (record r { oneshot_mods = x }) =
      λ r x v. record { head_in = v.head_in; tail_in = v.tail_in; size = v.size } in
    (λ r. keep r m, λ r. keep r 0)

-- A change of the report that keeps the ring, and the report sent.
pub send_changed-IsValid :
    (f : Report → Report) (k : Keyboard) → SameRing f → IsValid k → IsValid (send (on_report f k))
send_changed-IsValid f k h v = send-IsValid _ (on_report-IsValid f k (h k.report) v)

type_lock-IsValid : (c : ℕ) (k : Keyboard) → IsValid k → IsValid (type_lock c k)
unfolding type_lock
type_lock-IsValid c k v = search (send-IsValid, enter_key-IsValid, remove_key-IsValid)

pub register_mods-IsValid : (m : ℕ) (k : Keyboard) → IsValid k → IsValid (register_mods m k)
unfolding register_mods
register_mods-IsValid m k v =
    IsValid-if (m != 0) _ _ (send_changed-IsValid (add_mods m) k (mods_ring m).0 v) v

pub unregister_mods-IsValid : (m : ℕ) (k : Keyboard) → IsValid k → IsValid (unregister_mods m k)
unfolding unregister_mods
unregister_mods-IsValid m k v =
    IsValid-if (m != 0) _ _ (send_changed-IsValid (del_mods m) k (mods_ring m).1 v) v

module _ (b : Board) where
  open b use {keyboard_leds}

  pub register_code-IsValid :
      (code : ℕ) (k : Keyboard) → IsValid k → IsValid (register_code b code k)
  unfolding register_code
  register_code-IsValid code k v =
      let lit = bit_and (keyboard_leds k) (locking_led code) != 0 in
      IsValid-if (code == 0) _ _ v (
        IsValid-if (is_locking code) _ _
          (IsValid-if lit _ _ v (type_lock-IsValid (locking_key code) k v))
          (IsValid-if (is_key code) _ _ (send-IsValid _ (enter_key-IsValid code k v)) (
            IsValid-if (is_mod code) _ _ (send_changed-IsValid _ k (mods_ring (mod_bit code)).0 v) (
              IsValid-if (is_system code) _ _ (system_send-IsValid (keycode2system code) k v) (
                IsValid-if (is_consumer code) _ _
                  (consumer_send-IsValid (keycode2consumer code) k v) v)))))

  pub unregister_code-IsValid :
      (code : ℕ) (k : Keyboard) → IsValid k → IsValid (unregister_code b code k)
  unfolding unregister_code
  unregister_code-IsValid code k v =
      let lit = bit_and (keyboard_leds k) (locking_led code) != 0 in
      IsValid-if (code == 0) _ _ v (
        IsValid-if (is_locking code) _ _
          (IsValid-if lit _ _ (type_lock-IsValid (locking_key code) k v) v)
          (IsValid-if (is_key code) _ _ (send-IsValid _ (remove_key-IsValid code k v)) (
            IsValid-if (is_mod code) _ _ (send_changed-IsValid _ k (mods_ring (mod_bit code)).1 v) (
              IsValid-if (is_system code) _ _ (system_send-IsValid 0 k v)
                (IsValid-if (is_consumer code) _ _ (consumer_send-IsValid 0 k v) v)))))

  moved_mouse-IsValid : (m : Mouse) (k : Keyboard) → IsValid k → IsValid (record k { mouse = m })
  moved_mouse-IsValid m k v = record { ring = v.ring; sent = v.sent }

  pub send_mouse-IsValid :
      (m : Mouse) (k : Keyboard) → IsValid k → IsValid (mouse_send b (record k { mouse = m }))
  send_mouse-IsValid m k v = mouse_send-IsValid b _ (moved_mouse-IsValid m k v)

  clear_keyboard_but_mods-IsValid :
      (k : Keyboard) → IsValid k → IsValid (clear_keyboard_but_mods b k)
  unfolding clear_keyboard_but_mods
  clear_keyboard_but_mods-IsValid k v =
      let v1 =
        send_changed-IsValid clear_keys _ clear_keys-IsRing
          (on_report-IsValid clear_weak_mods k ((weak_mods_ring 0).2 k.report) v) in
      consumer_send-IsValid 0 _ (system_send-IsValid 0 _ (send_mouse-IsValid _ _ v1))

  pub clear_keyboard-IsValid : (k : Keyboard) → IsValid k → IsValid (clear_keyboard b k)
  unfolding clear_keyboard
  clear_keyboard-IsValid k v =
      clear_keyboard_but_mods-IsValid _
        (on_report-IsValid clear_mods k ((mods_ring 0).3 k.report) v)
