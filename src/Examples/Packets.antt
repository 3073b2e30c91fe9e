-- ===== src/Examples/Packets.antt =====
-- DRIVERS/keyboard_host_driver.c with one report of each kind.
use ch583_kbd_rtt.Base.{
  ◌≡◌, refl, true, arith, none, some, ℕ, List, [], ◌∷◌, replicate, ◌==◌, if◌then◌else◌,
}
use ch583_kbd_rtt.Host.{keyboard, mouse, system, consumer}
use ch583_kbd_rtt.Driver.{Usb, Ports, Step, given, token1, token2, run}
use ch583_kbd_rtt.Driver.Slots.{IsUsb, IsDeal, Slots, Holds, reads}
use ch583_kbd_rtt.Driver.Packets.{Reads, run-Reads}

-- DevEPn_IN_Deal of the maker's library.
abbrev arming : ℕ → ℕ → Ports → Ports
arming n len p =
    if n == 1
    then record { armed1 = some len; armed2 = p.armed2 }
    else record { armed1 = p.armed1; armed2 = some len }

arming-IsDeal : IsDeal arming
arming-IsDeal = record { port1 = λ len p. refl; port2 = λ len p. refl }

abbrev plugged : Usb
plugged = record {
  mouse_report = 1 ∷ replicate 5 0;
  extra_report = replicate 3 0;
  nrko_report = replicate 29 0;
  ep1_in = replicate 64 0;
  ep2_in = replicate 64 0;
  ports = record { armed1 = none; armed2 = none };
}

plugged-IsUsb : IsUsb plugged
plugged-IsUsb = record {
  mouse_size = refl;
  mouse_id = refl;
  extra_size = refl;
  nrko_size = refl;
  ep1_size = refl;
  ep2_size = refl;
}

abbrev empty : Slots
empty = record { slot1 = none; slot2 = none }

plugged-Holds : Holds empty plugged
plugged-Holds = record { first = _; second = _ }

-- The word of the system keys is overwritten before the host asks.
abbrev hurried : List Step
hurried =
    given (keyboard (2 ∷ 16 ∷ replicate 26 0))
    ∷ token2
    ∷ given (mouse (1 ∷ 5 ∷ 0 ∷ 0 ∷ 0 ∷ []))
    ∷ token2
    ∷ token1
    ∷ given (system 0x82)
    ∷ given (consumer 0x221)
    ∷ token2
    ∷ []

run-Reads_example : Reads (reads true hurried empty) (run arming true hurried plugged)
run-Reads_example =
    run-Reads arming arming-IsDeal true hurried plugged empty
      (refl, (refl, (omega arith, (omega arith, tt)))) plugged-IsUsb plugged-Holds

system_lost :
    reads true hurried empty
    ≡ keyboard (2 ∷ 16 ∷ replicate 26 0) ∷ mouse (1 ∷ 5 ∷ 0 ∷ 0 ∷ 0 ∷ []) ∷ consumer 0x221 ∷ []
system_lost = refl
