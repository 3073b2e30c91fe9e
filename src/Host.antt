-- ===== src/Host.antt =====
-- TMK/host.c: the reports that go to the host driver, and the system and consumer reports that do
-- not go twice in a row. The driver is the list of what it was given; debug output is left out.
pub mod Changes
use ch583_kbd_rtt.Base.{ℕ, Bool, true, false, List, [], ◌∷◌, ◌++◌, ◌==◌, if◌then◌else◌}

-- What the driver is given.
pub data Sent : Type 0 where
  keyboard mouse : List ℕ → Sent
  system consumer : ℕ → Sent

-- The statics of host.c; `driver` is whether the pointer is set.
pub record Host : Type 0 where
  pub driver : Bool
  pub last_system_report : ℕ
  pub last_consumer_report : ℕ
  pub sent : List Sent

-- `if (!driver) return;` and a call of the driver
unfoldable pub give : Sent → Host → Host
give report h = if h.driver then record h { sent = h.sent ++ (report ∷ []) } else h

unfoldable pub host_keyboard_send : List ℕ → Host → Host
unfolding give
host_keyboard_send report h = give (keyboard report) h

unfoldable pub host_system_send : ℕ → Host → Host
unfolding give
host_system_send report h =
    if report == h.last_system_report
    then h
    else give (system report) (record h { last_system_report = report })

unfoldable pub host_consumer_send : ℕ → Host → Host
unfolding give
host_consumer_send report h =
    if report == h.last_consumer_report
    then h
    else give (consumer report) (record h { last_consumer_report = report })

unfoldable pub host_mouse_send : List ℕ → Host → Host
unfolding give
host_mouse_send report h = give (mouse report) h

unfoldable pub host_set_driver : Bool → Host → Host
host_set_driver d h = record h { driver = d }

unfoldable pub host_get_driver : Host → Bool
host_get_driver h = h.driver

-- `leds` is what the driver's `keyboard_leds` returns.
unfoldable pub host_keyboard_leds : ℕ → Host → ℕ
host_keyboard_leds leds h = if h.driver then leds else 0

unfoldable pub host_last_system_report : Host → ℕ
host_last_system_report h = h.last_system_report

unfoldable pub host_last_consumer_report : Host → ℕ
host_last_consumer_report h = h.last_consumer_report
