-- ===== src/Keyboard/Clear.antt =====
-- `clear_keyboard` of TMK/action.c: what it leaves.
use ch583_kbd_rtt.Base.{
  ℕ, zero, suc, ◌+◌, ◌<◌, ◌≤◌, ◌≡◌, ◌≢◌, refl, sym, ap, ◌∙◌, inl, inr, Bool-cases, arith, List,
  get_or, set, length, length-set, get_or-set_self, get_or-set_ne, ◌==◌, ==_iff, bit_or,
}
use ch583_kbd_rtt.Report.{
  Report, zero_from, clear_keys, send_keyboard_report, clear_oneshot_mods, clear_mods,
  clear_weak_mods,
}
use ch583_kbd_rtt.Mouse.{mousekey_clear, mousekey_send}
use ch583_kbd_rtt.Host.{give, host_system_send, host_consumer_send, host_mouse_send}
use ch583_kbd_rtt.Keyboard.{
  Keyboard, Board, send, on_report, system_send, consumer_send, mouse_send, clear_keyboard_but_mods,
  clear_keyboard,
}

-- Bytes below `i` stay, and those from `i` to `i + left` are cleared.
zero_from_low :
    (left i : ℕ) (raw : List ℕ) (j : ℕ) → j < i → get_or (zero_from left i raw) j 0 ≡ get_or raw j 0
unfolding zero_from
zero_from_low zero i raw j h = refl
zero_from_low (suc left) i raw j h =
    zero_from_low left (i + 1) (set raw i 0) j (omega arith)
    ∙ get_or-set_ne raw i j 0 0 (omega arith)

zero_from_inside :
    (left i : ℕ) (raw : List ℕ) (j : ℕ)
    → i + left ≤ length raw
    → i ≤ j
    → j < i + left
    → get_or (zero_from left i raw) j 0 ≡ 0
unfolding zero_from
zero_from_inside zero i raw j h from to = absurd (omega arith)
zero_from_inside (suc left) i raw j h from to = elim (Bool-cases (i == j)) [
  | inl same ↦
      let e : i ≡ j = (==_iff _ _).0 same in
      zero_from_low left (i + 1) (set raw i 0) j (omega (arith, e))
      ∙ rw (sym e) (get_or-set_self raw i 0 0 (omega arith))
  | inr other ↦
      let apart : i ≢ j = ground arith in
      zero_from_inside left (i + 1) (set raw i 0) j (omega (arith, length-set raw i 0))
        (omega (arith, apart)) (omega arith)
]

-- Sending changes no key.
send_keeps_keys :
    (k : Keyboard) (j : ℕ) → 0 < j → get_or (send k).report.raw j 0 ≡ get_or k.report.raw j 0
unfolding send send_keyboard_report clear_oneshot_mods
send_keeps_keys k j h =
    let ne : 0 ≢ j = omega arith in
    let plain =
      get_or-set_ne k.report.raw 0 j (bit_or k.report.real_mods k.report.weak_mods) 0 ne in
    let shot =
      get_or-set_ne k.report.raw 0 j
        (bit_or (bit_or k.report.real_mods k.report.weak_mods) k.report.oneshot_mods) 0 ne in
    ground arith

send_keeps_mods :
    (k : Keyboard)
    → ((send k).report.real_mods ≡ k.report.real_mods)
      × ((send k).report.weak_mods ≡ k.report.weak_mods)
unfolding send send_keyboard_report clear_oneshot_mods
send_keeps_mods k = ground arith

-- The last steps of `clear_keyboard_but_mods` leave the report.
rest_keeps :
    (b : Board) (k : Keyboard)
    → let k' =
        consumer_send 0
          (system_send 0 (mouse_send b (record k { mouse = mousekey_clear k.mouse }))) in
      (k'.report ≡ k.report)
      × (k'.mouse ≡ mousekey_clear k.mouse)
      × (k'.host.last_system_report ≡ 0)
      × (k'.host.last_consumer_report ≡ 0)
unfolding consumer_send system_send mouse_send mousekey_send host_mouse_send host_system_send
    host_consumer_send give
rest_keeps b k = (ground arith, ground arith, ground arith, ground arith)

module _ (b : Board) where
  -- With a report of 28 bytes, clear_keyboard leaves no key in the report, no real and no weak
  -- modifier, the mouse cleared, and zero as the last system and consumer report.
  pub clear_keyboard_releases :
      (k : Keyboard)
      → length k.report.raw ≡ 28
      → let k' = clear_keyboard b k in
        ((j : ℕ) → 1 ≤ j → j < 28 → get_or k'.report.raw j 0 ≡ 0)
        × (k'.report.real_mods ≡ 0)
        × (k'.report.weak_mods ≡ 0)
        × (k'.mouse ≡ mousekey_clear k.mouse)
        × (k'.host.last_system_report ≡ 0)
        × (k'.host.last_consumer_report ≡ 0)
  unfolding clear_keyboard clear_keyboard_but_mods on_report clear_mods clear_weak_mods clear_keys
  clear_keyboard_releases k size =
      let cleared : Keyboard =
        on_report clear_keys (on_report clear_weak_mods (on_report clear_mods k)) in
      let (report, mouse, system, consumer) = rest_keeps b (send cleared) in
      let (real, weak) = send_keeps_mods cleared in
      (
        λ j from to.
            ap (λ (r : Report). get_or r.raw j 0) report
            ∙ send_keeps_keys cleared j (omega arith)
            ∙ zero_from_inside 27 1 k.report.raw j (omega (arith, size)) from (omega arith),
        ap (λ (r : Report). r.real_mods) report ∙ real,
        ap (λ (r : Report). r.weak_mods) report ∙ weak,
        mouse,
        system,
        consumer,
      )
