-- ===== src/Examples/Reports.antt =====
-- TMK/action_util.c on small reports.
use ch583_kbd_rtt.Base.{
  ℕ, zero, suc, All, ◌<◌, ◌≤◌, ◌≡◌, refl, false, ◌∷◌, arith, replicate, get_or, bit_or,
}
use ch583_kbd_rtt.Report.{Report, send_keyboard_report}
use ch583_kbd_rtt.Report.Nkro.{IsReport}
use ch583_kbd_rtt.Report.SixKey.{IsRing}
use ch583_kbd_rtt.Report.Send.{oneshot_once}

-- The six-key report with `a` and `b` down, and left shift armed as a one-shot modifier.
abbrev two_down : Report
two_down = record {
  raw = 0 ∷ 0 ∷ 4 ∷ 5 ∷ replicate 24 0;
  cb_head = 0;
  cb_tail = 2;
  cb_count = 2;
  real_mods = 1;
  weak_mods = 0;
  oneshot_mods = 2;
  keyboard_protocol = 1;
  keyboard_nkro = false;
}

abbrev none_down : Report
none_down = record two_down { raw = replicate 28 0; cb_tail = 0; cb_count = 0 }

bytes_zero : (n : ℕ) → All (λ b. b < 256) (replicate {A = ℕ} n 0)
bytes_zero zero = tt
bytes_zero (suc n) = (omega arith, bytes_zero n)

get_or-zeros : (n i : ℕ) → get_or (replicate {A = ℕ} n 0) i 0 ≡ 0
get_or-zeros zero i = refl
get_or-zeros (suc n) zero = refl
get_or-zeros (suc n) (suc i) = get_or-zeros n i

two_down-IsReport : IsReport two_down
two_down-IsReport = record {
  size = refl;
  bytes = (omega arith, (omega arith, (omega arith, (omega arith, bytes_zero 24))));
}

two_down-IsRing : IsRing two_down
two_down-IsRing = record { head_in = omega arith; tail_in = omega arith; size = refl }

oneshot_once_example :
    let (r', first) = send_keyboard_report two_down in
    let (r'', second) = send_keyboard_report r' in
    (get_or first 0 0 ≡ bit_or (bit_or 1 0) 2)
    × (get_or second 0 0 ≡ bit_or 1 0)
    × ((i : ℕ)
        → 1 ≤ i
        → (get_or first i 0 ≡ get_or two_down.raw i 0)
          × (get_or second i 0 ≡ get_or two_down.raw i 0))
oneshot_once_example =
    oneshot_once two_down (λ e. omega (arith, e)) 2 (omega arith) (omega arith)
      (λ e. omega (arith, e)) refl
