-- ===== src/Keyboard/Invariant.antt =====
-- TMK/action_util.c and action.c: what every operation keeps of the report and of what is sent.
use ch583_kbd_rtt.Base.{
  ℕ, ◌≡◌, refl, ◌∙◌, Bool, true, false, some, List, [], ◌∷◌, ◌++◌, inl, inr, Bool-cases, arith, All,
  length, length-set, set, if◌then◌else◌, ◌==◌, ◌!=◌, bit_or,
}
use ch583_kbd_rtt.Report.{
  Report, keyboard_report_size, send_keyboard_report, clear_oneshot_mods, has_anykey, nkro_mode,
  add_key_bit, del_key_bit,
}
use ch583_kbd_rtt.Report.Ring.{add_key, del_key}
use ch583_kbd_rtt.Report.SixKey.{IsRing, add_key_byte-reports, del_key_byte-IsRing}
use ch583_kbd_rtt.Host.{
  Host, Sent, keyboard, mouse, system, consumer, give, host_keyboard_send, host_system_send,
  host_consumer_send, host_mouse_send,
}
use ch583_kbd_rtt.Mouse.{mousekey_send}
use ch583_kbd_rtt.Keyboard.{
  Keyboard, Board, send, settled, enter_key, remove_key, on_report, system_send, consumer_send,
  mouse_send,
}

-- A keyboard report is as long as the report that the host expects.
abbrev pub IsWhole : Sent → Type 0
IsWhole (keyboard bytes) = length bytes ≡ keyboard_report_size
IsWhole _ = Unit

pub record IsValid (k : Keyboard) : Type 0 where
  pub ring : IsRing k.report
  pub sent : All IsWhole k.host.sent

pub IsValid-if : (b : Bool) (x y : Keyboard) → IsValid x → IsValid y → IsValid (if b then x else y)
IsValid-if true x y vx vy = vx
IsValid-if false x y vx vy = vy

All-append : (xs : List Sent) (e : Sent) → All IsWhole xs → IsWhole e → All IsWhole (xs ++ (e ∷ []))
All-append [] e h w = (w, tt)
All-append (x ∷ xs) e h w = (h.0, All-append xs e h.1 w)

give-sent : (e : Sent) (h : Host) → IsWhole e → All IsWhole h.sent → All IsWhole (give e h).sent
unfolding give
give-sent e h w v = elim (Bool-cases h.driver) [
  | inl on ↦ rw on (All-append h.sent e v w)
  | inr off ↦ rw off v
]

IsRing-if : (b : Bool) (x y : Report) → IsRing x → IsRing y → IsRing (if b then x else y)
IsRing-if true x y vx vy = vx
IsRing-if false x y vx vy = vy

-- The ring does not depend on the modifiers, and on the keys by their number only.
IsRing-of :
    (r r' : Report)
    → r'.cb_head ≡ r.cb_head
    → r'.cb_tail ≡ r.cb_tail
    → length r'.raw ≡ length r.raw
    → IsRing r
    → IsRing r'
IsRing-of r r' h t l v = record {
  head_in = omega (arith, h, v.head_in);
  tail_in = omega (arith, t, v.tail_in);
  size = l ∙ v.size;
}

-- A report that is sent has its size, and the ring stays.
send-IsRing :
    (r : Report)
    → IsRing r
    → IsRing (send_keyboard_report r).0 × (length (send_keyboard_report r).1 ≡ keyboard_report_size)
unfolding send_keyboard_report clear_oneshot_mods
send-IsRing r v =
    let mods = bit_or r.real_mods r.weak_mods in
    let shot : Report = record r { raw = set r.raw 0 (bit_or mods r.oneshot_mods) } in
    let shot_ring : IsRing shot =
      IsRing-of r shot refl refl (length-set r.raw 0 (bit_or mods r.oneshot_mods)) v in
    elim (Bool-cases (r.oneshot_mods != 0)) [
      | inl armed ↦ rw armed (
        IsRing-if (has_anykey shot != 0) (record shot { oneshot_mods = 0 }) shot
            (IsRing-of shot (record shot { oneshot_mods = 0 }) refl refl refl shot_ring) shot_ring,
        shot_ring.size,
      )
      | inr idle ↦ rw idle (
        IsRing-of r (record r { raw = set r.raw 0 mods }) refl refl (length-set r.raw 0 mods) v,
        length-set r.raw 0 mods ∙ v.size,
      )
    ]

pub send-IsValid : (k : Keyboard) → IsValid k → IsValid (send k)
unfolding send host_keyboard_send
send-IsValid k v =
    let (ring, whole) = send-IsRing k.report v.ring in
    record {
      ring = ring;
      sent = give-sent (keyboard (send_keyboard_report k.report).1) k.host whole v.sent;
    }

pub system_send-IsValid : (usage : ℕ) (k : Keyboard) → IsValid k → IsValid (system_send usage k)
unfolding system_send host_system_send
system_send-IsValid usage k v = elim (Bool-cases (usage == k.host.last_system_report)) [
  | inl same ↦ rw same v
  | inr fresh ↦ rw fresh (record {
    ring = v.ring;
    sent = give-sent (system usage) (record k.host { last_system_report = usage }) tt v.sent;
  })
]

pub consumer_send-IsValid : (usage : ℕ) (k : Keyboard) → IsValid k → IsValid (consumer_send usage k)
unfolding consumer_send host_consumer_send
consumer_send-IsValid usage k v = elim (Bool-cases (usage == k.host.last_consumer_report)) [
  | inl same ↦ rw same v
  | inr fresh ↦ rw fresh (record {
    ring = v.ring;
    sent = give-sent (consumer usage) (record k.host { last_consumer_report = usage }) tt v.sent;
  })
]

pub mouse_send-IsValid : (b : Board) (k : Keyboard) → IsValid k → IsValid (mouse_send b k)
unfolding mouse_send mousekey_send host_mouse_send
mouse_send-IsValid b k v = record { ring = v.ring; sent = give-sent (mouse _) k.host tt v.sent }

add_key_bit-IsRing : (code : ℕ) (r : Report) → IsRing r → IsRing (add_key_bit code r)
unfolding add_key_bit
add_key_bit-IsRing code r v = IsRing-if _ _ _ (IsRing-of r _ refl refl (length-set r.raw _ _) v) v

del_key_bit-IsRing : (code : ℕ) (r : Report) → IsRing r → IsRing (del_key_bit code r)
unfolding del_key_bit
del_key_bit-IsRing code r v = IsRing-if _ _ _ (IsRing-of r _ refl refl (length-set r.raw _ _) v) v

-- From a ring whose indices are in range and a report of 28 bytes, entering and taking out any key
-- ends in six rounds for each loop, in both modes, and leaves such a ring and report.
pub keys-settled :
    (code : ℕ) (r : Report)
    → IsRing r
    → (add_key code r ≡ some (settled r (add_key code r)))
      × (del_key code r ≡ some (settled r (del_key code r)))
      × IsRing (settled r (add_key code r))
      × IsRing (settled r (del_key code r))
unfolding add_key del_key settled
keys-settled code r v = elim (Bool-cases (nkro_mode r)) [
  | inl bits ↦ rw bits (refl, refl, add_key_bit-IsRing code r v, del_key_bit-IsRing code r v)
  | inr six ↦
      let (r1, added, v1, there) = add_key_byte-reports code r v in
      let (r2, removed, v2) = del_key_byte-IsRing code r v in
      rw (six, added, removed) (refl, refl, v1, v2)
]

pub enter_key-IsValid : (code : ℕ) (k : Keyboard) → IsValid k → IsValid (enter_key code k)
unfolding enter_key
enter_key-IsValid code k v = record { ring = (keys-settled code k.report v.ring).2; sent = v.sent }

pub remove_key-IsValid : (code : ℕ) (k : Keyboard) → IsValid k → IsValid (remove_key code k)
unfolding remove_key
remove_key-IsValid code k v = record { ring = (keys-settled code k.report v.ring).3; sent = v.sent }

pub on_report-IsValid :
    (f : Report → Report) (k : Keyboard)
    → (IsRing k.report → IsRing (f k.report))
    → IsValid k
    → IsValid (on_report f k)
unfolding on_report
on_report-IsValid f k h v = record { ring = h v.ring; sent = v.sent }
