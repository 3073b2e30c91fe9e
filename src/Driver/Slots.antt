-- ===== src/Driver/Slots.antt =====
-- DRIVERS/keyboard_host_driver.c and DRIVERS/USB/usbuser1.c: what the endpoints promise, and what the
-- host reads from a packet.
use ch583_kbd_rtt.Base.{
  ℕ, ◌+◌, ◌*◌, ◌<◌, ◌≡◌, Bool, Option, none, some, List, [], ◌∷◌, ◌++◌, ◌==◌, if◌then◌else◌, length,
  not, false, get_or, take, drop,
}
use ch583_kbd_rtt.Host.{Sent, keyboard, mouse, system, consumer}
use ch583_kbd_rtt.Driver.{Packet, Usb, Ports, Step, given, token1, token2}

-- What the report descriptors say: endpoint 1 is the boot keyboard; the first byte of endpoint 2 tells
-- mouse, system, consumer and the keyboard with one bit for each key.
unfoldable pub host_view : Packet → Option Sent
host_view p =
    let body = drop 1 p.bytes in
    let word = get_or p.bytes 1 0 + get_or p.bytes 2 0 * 256 in
    if p.endpoint == 1
    then some (keyboard p.bytes)
    else if get_or p.bytes 0 0 == 1
    then some (mouse body)
    else if get_or p.bytes 0 0 == 2
    then some (system word)
    else if get_or p.bytes 0 0 == 3
    then some (consumer word)
    else if get_or p.bytes 0 0 == 0x80
    then some (keyboard body)
    else none

-- What the host is to see: without NKRO the first eight bytes of the keyboard report.
abbrev pub seen : Bool → Sent → Sent
seen nkro (keyboard raw) = if nkro then keyboard raw else keyboard (take 8 raw)
seen nkro e = e

-- The sizes of the reports, and words of 16 bits.
abbrev pub IsSendable : Sent → Type 0
IsSendable (keyboard raw) = length raw ≡ 28
IsSendable (mouse report) = length report ≡ 5
IsSendable (system d) = d < 65536
IsSendable (consumer d) = d < 65536

-- The statics and the buffers have their sizes, and the first byte of the mouse report is its id.
pub record IsUsb (u : Usb) : Type 0 where
  pub mouse_size : length u.mouse_report ≡ 6
  pub mouse_id : get_or u.mouse_report 0 0 ≡ 1
  pub extra_size : length u.extra_report ≡ 3
  pub nrko_size : length u.nrko_report ≡ 29
  pub ep1_size : length u.ep1_in ≡ 64
  pub ep2_size : length u.ep2_in ≡ 64

-- CH58x_usbdev.h: DevEPn_IN_Deal arms endpoint n with the length, and no other.
pub record IsDeal (deal : ℕ → ℕ → Ports → Ports) : Type 0 where
  pub port1 : (len : ℕ) (p : Ports) → deal 1 len p ≡ record { armed1 = some len; armed2 = p.armed2 }
  pub port2 : (len : ℕ) (p : Ports) → deal 2 len p ≡ record { armed1 = p.armed1; armed2 = some len }

-- What the endpoints promise: each has room for one report, and a new one takes the place of one that
-- the host has not read.
pub record Slots : Type 0 where
  pub slot1 : Option Sent
  pub slot2 : Option Sent

abbrev pub is_boot : Bool → Sent → Bool
is_boot nkro (keyboard raw) = not nkro
is_boot nkro _ = false

abbrev pub put : Bool → Sent → Slots → Slots
put nkro e s =
    if is_boot nkro e
    then record { slot1 = some (seen nkro e); slot2 = s.slot2 }
    else record { slot1 = s.slot1; slot2 = some (seen nkro e) }

abbrev pub to_list : Option Sent → List Sent
to_list none = []
to_list (some e) = e ∷ []

-- The reports that the host reads.
abbrev pub reads : Bool → List Step → Slots → List Sent
reads nkro [] s = []
reads nkro (given e ∷ rest) s = reads nkro rest (put nkro e s)
reads nkro (token1 ∷ rest) s =
    to_list s.slot1 ++ reads nkro rest (record { slot1 = none; slot2 = s.slot2 })
reads nkro (token2 ∷ rest) s =
    to_list s.slot2 ++ reads nkro rest (record { slot1 = s.slot1; slot2 = none })

abbrev pub Pending : ℕ → Option Sent → Option ℕ → List ℕ → Type 0
Pending n none none buffer = Unit
Pending n (some e) (some len) buffer =
    host_view (record { endpoint = n; bytes = take len buffer }) ≡ some e
Pending n _ _ buffer = ⊥

pub record Holds (s : Slots) (u : Usb) : Type 0 where
  pub first : Pending 1 s.slot1 u.ports.armed1 u.ep1_in
  pub second : Pending 2 s.slot2 u.ports.armed2 u.ep2_in

-- The driver comes back with the report in its slot.
pub record Gives (s : Slots) (m : Option Usb) : Type 0 where
  pub after : Usb
  pub returns : m ≡ some after
  pub valid : IsUsb after
  pub holds : Holds s after
