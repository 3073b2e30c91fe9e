-- ===== src/Examples/Scans.antt =====
-- DRIVERS/keyboard_matrix.c, DRIVERS/keyboard_timer.c and TMK/host.c at concrete inputs.
use mathlib.Core.List.{map}
use ch583_kbd_rtt.Base.{
  ℕ, ◌≡◌, refl, Bool, true, false, ◌&&◌, [], ◌∷◌, ◌++◌, arith, ◌==◌, replicate,
}
use ch583_kbd_rtt.Matrix.{Matrix, cols_from, read_cols, matrix_scan}
use ch583_kbd_rtt.Matrix.Debounce.{IsValid, unlike_scan_waits}
use ch583_kbd_rtt.Host.{Host, system, consumer}
use ch583_kbd_rtt.Host.Changes.{changed, send_systems, send_consumers, changes_sent}

-- The key of row 1 and column 2 is down.
abbrev one_high : ℕ → ℕ → Bool
one_high row pin = row == 1 && pin == 18

abbrev none_high : ℕ → ℕ → Bool
none_high row pin = false

abbrev at_rest : Matrix
at_rest = record { debouncing = 0; matrix = replicate 5 0; matrix_debouncing = replicate 5 0 }

at_rest-IsValid : IsValid at_rest
at_rest-IsValid = record { rows = refl; read = refl; count = omega arith; settled = λ e j h. refl }

abbrev five_scans : Matrix
five_scans = matrix_scan one_high (
    matrix_scan one_high
      (matrix_scan one_high (matrix_scan one_high (matrix_scan one_high at_rest))))

read_run : read_cols (one_high 1) ≡ 4
unfolding read_cols cols_from
read_run = refl

unlike_scan_waits_example :
    let m1 = matrix_scan one_high at_rest in
    let m2 = matrix_scan none_high m1 in
    let m3 = matrix_scan one_high m2 in
    let m4 = matrix_scan one_high m3 in
    (m1.matrix ≡ at_rest.matrix)
    × (m2.matrix ≡ at_rest.matrix)
    × (m3.matrix ≡ at_rest.matrix)
    × (m4.matrix ≡ at_rest.matrix)
unlike_scan_waits_example =
    unlike_scan_waits one_high none_high one_high one_high at_rest 1 at_rest-IsValid (omega arith)
      (λ e. omega (arith, e, read_run))

abbrev ready_host : Host
ready_host = record { driver = true; last_system_report = 0; last_consumer_report = 0; sent = [] }

changes_sent_example :
    ((send_systems (1 ∷ 1 ∷ 0 ∷ []) ready_host).sent
      ≡ [] ++ map system (changed 0 (1 ∷ 1 ∷ 0 ∷ [])))
    × ((send_consumers (1 ∷ 1 ∷ 0 ∷ []) ready_host).sent
        ≡ [] ++ map consumer (changed 0 (1 ∷ 1 ∷ 0 ∷ [])))
changes_sent_example = changes_sent (1 ∷ 1 ∷ 0 ∷ []) ready_host refl

changed_run : changed 0 (1 ∷ 1 ∷ 0 ∷ []) ≡ 1 ∷ 0 ∷ []
unfolding changed
changed_run = refl
