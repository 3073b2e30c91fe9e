-- ===== src/Driver.antt =====
-- DRIVERS/keyboard_host_driver.c and `usb_send_key` of DRIVERS/USB/usbuser1.c: from a report to the
-- packet of an endpoint. An endpoint has one buffer, which the next report overwrites whether or not the
-- host has read the one before.
pub mod Slots
pub mod Handing
pub mod Packets
use ch583_kbd_rtt.Base.{
  ℕ, ◌+◌, ◌/◌, ◌%◌, Bool, true, false, ◌&&◌, ◌||◌, Option, none, some, List, [], ◌∷◌, ◌++◌, leb,
  ◌==◌, if◌then◌else◌, length, get_or, take, drop, u8,
}
use ch583_kbd_rtt.Host.{Sent, keyboard, mouse, system, consumer}

pub record Packet : Type 0 where
  pub endpoint : ℕ
  pub bytes : List ℕ

-- What the next IN token of endpoints 1 and 2 gets: a packet of this length (R8_UEPn_T_LEN, with the
-- response ACK), or none (NAK).
pub record Ports : Type 0 where
  pub armed1 : Option ℕ
  pub armed2 : Option ℕ

-- The statics of usbuser1.c that `usb_send_key` writes, `pEP1_IN_DataBuf` and `pEP2_IN_DataBuf` with
-- their 64 bytes, and the ports.
pub record Usb : Type 0 where
  pub mouse_report : List ℕ
  pub extra_report : List ℕ
  pub nrko_report : List ℕ
  pub ep1_in : List ℕ
  pub ep2_in : List ℕ
  pub ports : Ports

-- `memcpy(buffer + at, source, len)`; `none` means that it leaves one of them.
unfoldable pub copy_at : ℕ → ℕ → List ℕ → List ℕ → Option (List ℕ)
copy_at at len source buffer =
    if leb len (length source) && leb (at + len) (length buffer)
    then some (take at buffer ++ (take len source ++ drop (at + len) buffer))
    else none

-- An IN token of endpoint 1 or 2, as UIS_TOKEN_IN answers it: a packet that is armed is sent, and the
-- response is NAK again.
unfoldable pub in_token1 : Usb → Usb × List Packet
in_token1 u = elim u.ports.armed1 [
  | none ↦ (u, [])
  | some len ↦ (
    record u { ports = record { armed1 = none; armed2 = u.ports.armed2 } },
    record { endpoint = 1; bytes = take len u.ep1_in } ∷ [],
  )
]

unfoldable pub in_token2 : Usb → Usb × List Packet
in_token2 u = elim u.ports.armed2 [
  | none ↦ (u, [])
  | some len ↦ (
    record u { ports = record { armed1 = u.ports.armed1; armed2 = none } },
    record { endpoint = 2; bytes = take len u.ep2_in } ∷ [],
  )
]

-- What happens: host.c calls the driver, or the host asks an endpoint.
pub data Step : Type 0 where
  given : Sent → Step
  token1 token2 : Step

-- The bytes of a `uint16_t`.
abbrev pub word_bytes : ℕ → List ℕ
word_bytes d = u8 d ∷ u8 (d / 256) ∷ []

-- `deal n len` is DevEPn_IN_Deal.
module _ (deal : ℕ → ℕ → Ports → Ports) where
  -- `memcpy(pEPn_IN_DataBuf, report, len); DevEPn_IN_Deal(len);`
  unfoldable pub hand_over1 : ℕ → List ℕ → Usb → Option Usb
  unfolding copy_at
  hand_over1 len report u = elim (copy_at 0 len report u.ep1_in) [
    | none ↦ none
    | some buffer ↦ some (record u { ep1_in = buffer; ports = deal 1 len u.ports })
  ]

  unfoldable pub hand_over2 : ℕ → List ℕ → Usb → Option Usb
  unfolding copy_at
  hand_over2 len report u = elim (copy_at 0 len report u.ep2_in) [
    | none ↦ none
    | some buffer ↦ some (record u { ep2_in = buffer; ports = deal 2 len u.ports })
  ]

  unfoldable pub usb_send_key : ℕ → ℕ → List ℕ → Usb → Option Usb
  unfolding copy_at hand_over1 hand_over2
  usb_send_key id len report u =
      let extra = id ∷ get_or report 0 0 ∷ get_or report 1 0 ∷ [] in
      let nrko = copy_at 1 len report (0x80 ∷ drop 1 u.nrko_report) in
      if id == 0
      then hand_over1 len report u
      else if id == 1
      then elim (copy_at 1 len report u.mouse_report) [
        | none ↦ none
        | some r ↦ hand_over2 (len + 1) r (record u { mouse_report = r })
      ]
      else if id == 2 || id == 3
      then hand_over2 (len + 1) extra (record u { extra_report = extra })
      else if id == 0x80
      then elim nrko [
        | none ↦ none
        | some r ↦ hand_over2 (len + 1) r (record u { nrko_report = r })
      ]
      else some u

  -- The functions of the driver. `nkro` is `keyboard_protocol && keyboard_nkro`.
  unfoldable pub send_keyboard : Bool → List ℕ → Usb → Option Usb
  unfolding usb_send_key
  send_keyboard nkro raw u = if nkro then usb_send_key 0x80 28 raw u else usb_send_key 0 8 raw u

  unfoldable pub send_mouse : List ℕ → Usb → Option Usb
  unfolding usb_send_key
  send_mouse report u = usb_send_key 1 5 report u

  unfoldable pub send_system : ℕ → Usb → Option Usb
  unfolding usb_send_key
  send_system d u = usb_send_key 2 2 (word_bytes d) u

  unfoldable pub send_consumer : ℕ → Usb → Option Usb
  unfolding usb_send_key
  send_consumer d u = usb_send_key 3 2 (word_bytes d) u

  -- A call of the driver by host.c.
  unfoldable pub drive : Bool → Sent → Usb → Option Usb
  unfolding send_keyboard send_mouse send_system send_consumer
  drive nkro (keyboard raw) u = send_keyboard nkro raw u
  drive nkro (mouse report) u = send_mouse report u
  drive nkro (system d) u = send_system d u
  drive nkro (consumer d) u = send_consumer d u

  -- A run, with the packets that the host reads.
  unfoldable pub run : Bool → List Step → Usb → Option (Usb × List Packet)
  unfolding drive in_token1 in_token2
  run nkro [] u = some (u, [])
  run nkro (given e ∷ rest) u = elim (drive nkro e u) [ none ↦ none | some u' ↦ run nkro rest u' ]
  run nkro (token1 ∷ rest) u =
      let (u', out) = in_token1 u in
      elim (run nkro rest u') [ none ↦ none | some r ↦ some (r.0, out ++ r.1) ]
  run nkro (token2 ∷ rest) u =
      let (u', out) = in_token2 u in
      elim (run nkro rest u') [ none ↦ none | some r ↦ some (r.0, out ++ r.1) ]
