-- ===== src/Keyboard/Keys.antt =====
-- `register_code` and `unregister_code` of TMK/action.c for a plain key, with one bit for each key:
-- the report that is sent.
use ch583_kbd_rtt.Base.{
  ℕ, ◌+◌, ◌/◌, ◌%◌, ◌<◌, ◌≡◌, refl, ap, ◌∙◌, Bool, true, false, not, ◌&&◌, ◌||◌, arith, [], ◌∷◌,
  ◌++◌, get_or, set, get_or-set_ne, get_or-set_self, ◌==◌, bit_or,
}
use ch583_kbd_rtt.Base.Bits.{bit}
use ch583_kbd_rtt.Code.{is_key, is_locking}
use ch583_kbd_rtt.Report.{Report, nkro_mode, send_keyboard_report, add_key_bit, del_key_bit}
use ch583_kbd_rtt.Report.Ring.{add_key, del_key}
use ch583_kbd_rtt.Report.Nkro.{IsReport, is_down, key_bits, key_bits-IsReport}
use ch583_kbd_rtt.Host.{keyboard, give, host_keyboard_send}
use ch583_kbd_rtt.Keyboard.{
  Keyboard, Board, send, settled, enter_key, remove_key, register_code, unregister_code,
}

-- The modifiers do not share a byte with a key.
set_mods_down : (r : Report) (m d : ℕ) → is_down (record r { raw = set r.raw 0 m }) d ≡ is_down r d
unfolding is_down
set_mods_down r m d =
    ap (λ (x : ℕ). bit x (d % 8))
      (get_or-set_ne r.raw 0 (1 + d / 8) m 0 (λ e. absurd (omega (arith, e))))

-- With no one-shot modifier, what is sent is the report with the modifiers of now.
send_plain :
    (k : Keyboard) (m : ℕ)
    → k.report.oneshot_mods ≡ 0
    → k.host.driver ≡ true
    → m ≡ bit_or k.report.real_mods k.report.weak_mods
    → send k ≡ record k {
      report = record k.report { raw = set k.report.raw 0 m };
      host = record k.host { sent = k.host.sent ++ (keyboard (set k.report.raw 0 m) ∷ []) };
    }
unfolding send send_keyboard_report host_keyboard_send give
send_plain k m none on e = rw (e, none, on) refl

-- What the host gets: one report, with the modifiers, and with the keys that `down` tells.
pub record Reports (k k' : Keyboard) (down : ℕ → Bool) : Type 0 where
  pub sent : k'.host.sent ≡ k.host.sent ++ (keyboard k'.report.raw ∷ [])
  pub mods : get_or k'.report.raw 0 0 ≡ bit_or k.report.real_mods k.report.weak_mods
  pub keys : (d : ℕ) → is_down k'.report d ≡ down d

send-Reports :
    (k : Keyboard) (r : Report) (down : ℕ → Bool)
    → IsReport r
    → r.real_mods ≡ k.report.real_mods
    → r.weak_mods ≡ k.report.weak_mods
    → r.oneshot_mods ≡ 0
    → k.host.driver ≡ true
    → ((d : ℕ) → is_down r d ≡ down d)
    → Reports k (send (record k { report = r })) down
send-Reports k r down w real weak none on keys =
    let m = bit_or k.report.real_mods k.report.weak_mods in
    let mods : m ≡ bit_or r.real_mods r.weak_mods = rw (real, weak) refl in
    rw (send_plain (record k { report = r }) m none on mods) (record {
      sent = refl;
      mods = get_or-set_self r.raw 0 m 0 (omega (arith, w.size));
      keys = λ d. set_mods_down r m d ∙ keys d;
    })

plain_tests : (code : ℕ) → is_key code ≡ true → ((code == 0) ≡ false) × (code < 216)
plain_tests code h = (ground arith, ground arith)

-- A key's bit leaves the modifiers.
abbrev SameMods : Report → Report → Type 0
SameMods r r' =
    (r'.real_mods ≡ r.real_mods) × (r'.weak_mods ≡ r.weak_mods) × (r'.oneshot_mods ≡ r.oneshot_mods)

SameMods-add : (code : ℕ) (r : Report) → SameMods r (add_key_bit code r)
unfolding add_key_bit
SameMods-add code r = ground arith

SameMods-del : (code : ℕ) (r : Report) → SameMods r (del_key_bit code r)
unfolding del_key_bit
SameMods-del code r = ground arith

module _ (b : Board) where
  -- For a key that is no locking key, in a report of 28 bytes with one bit for each key, with no
  -- one-shot modifier and with a driver: registering and unregistering its code each send one
  -- report, with the modifiers of now, in which that key is down or up and every other key is as it
  -- was.
  pub plain_key-Reports :
      (code : ℕ) (k : Keyboard)
      → is_key code ≡ true
      → is_locking code ≡ false
      → IsReport k.report
      → nkro_mode k.report ≡ true
      → k.report.oneshot_mods ≡ 0
      → k.host.driver ≡ true
      → Reports k (register_code b code k) (λ d. is_down k.report d || code == d)
        × Reports k (unregister_code b code k) (λ d. is_down k.report d && not (code == d))
  unfolding register_code unregister_code enter_key remove_key settled add_key del_key
  plain_key-Reports code k key plain w bits none on =
      let (real, small) = plain_tests code key in
      let (added, removed) = key_bits-IsReport code k.report w in
      let kept_add = SameMods-add code k.report in
      let kept_del = SameMods-del code k.report in
      (
        rw (real, plain, key, bits)
            (send-Reports k (add_key_bit code k.report) _ added kept_add.0 kept_add.1
              (kept_add.2 ∙ none) on (λ d. (key_bits code d k.report w small).0)),
        rw (real, plain, key, bits)
            (send-Reports k (del_key_bit code k.report) _ removed kept_del.0 kept_del.1
              (kept_del.2 ∙ none) on (λ d. (key_bits code d k.report w small).1)),
      )
