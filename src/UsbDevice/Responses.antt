-- ===== src/UsbDevice/Responses.antt =====
-- DRIVERS/USB/usbuser1.c: the response bits of the endpoint registers, which halt an endpoint.
use mathlib.Core.Bool.{beq}
use ch583_kbd_rtt.Base.{
  ℕ, ◌<◌, ◌≡◌, refl, ap, ◌∙◌, Bool, true, false, not, ◌&&◌, inl, inr, Bool-cases, ◌==◌,
  if◌then◌else◌, bit_and,
}
use ch583_kbd_rtt.Base.Bits.Table.{check_below, check_below_sound}
use ch583_kbd_rtt.UsbDevice.{
  UsbState, respond, direction_mask, stall, ready, Endpoint, ep1, ep2, ep3, ep_ctrl, set_ep_ctrl,
}

-- The addresses of the endpoints; `true` is IN.
abbrev pub address : Endpoint → Bool → ℕ
address ep1 true = 0x81
address ep1 false = 0x01
address ep2 true = 0x82
address ep2 false = 0x02
address ep3 true = 0x83
address ep3 false = 0x03

abbrev pub halted : Endpoint → Bool → UsbState → Bool
halted n dir d = bit_and (ep_ctrl n d) (direction_mask dir) == stall dir

abbrev pub same_direction : Bool → Bool → Bool
same_direction true e = e
same_direction false e = not e

abbrev pub same_endpoint : Endpoint → Endpoint → Bool
same_endpoint ep1 ep1 = true
same_endpoint ep2 ep2 = true
same_endpoint ep3 ep3 = true
same_endpoint _ _ = false

abbrev response : Bool → Bool → ℕ
response true dir = stall dir
response false dir = ready dir

-- A register after a new response for `dir`, seen in direction `e`.
abbrev responds : Bool → Bool → Bool → ℕ → Bool
responds on dir e c =
    beq (bit_and (respond (direction_mask dir) (response on dir) c) (direction_mask e) == stall e)
      (if same_direction dir e then on else bit_and c (direction_mask e) == stall e)

eq_of_beq : (a b : Bool) → beq a b ≡ true → a ≡ b
eq_of_beq true true h = refl
eq_of_beq true false h = cc
eq_of_beq false true h = cc
eq_of_beq false false h = refl

every_byte : (on dir e : Bool) → check_below 256 (responds on dir e) ≡ true
unfolding check_below
every_byte true true true = refl
every_byte true true false = refl
every_byte true false true = refl
every_byte true false false = refl
every_byte false true true = refl
every_byte false true false = refl
every_byte false false true = refl
every_byte false false false = refl

register_responds :
    (on dir e : Bool) (c : ℕ)
    → c < 256
    → (bit_and (respond (direction_mask dir) (response on dir) c) (direction_mask e) == stall e)
      ≡ (if same_direction dir e then on else bit_and c (direction_mask e) == stall e)
register_responds on dir e c small =
    eq_of_beq _ _ (check_below_sound 256 (responds on dir e) c (every_byte on dir e) small)

-- The register of `n` after a new response.
abbrev pub changed : Bool → Endpoint → Bool → UsbState → UsbState
changed on n dir d = set_ep_ctrl n (respond (direction_mask dir) (response on dir) (ep_ctrl n d)) d

ep_ctrl-set :
    (n m : Endpoint) (c : ℕ) (d : UsbState)
    → ep_ctrl m (set_ep_ctrl n c d) ≡ (if same_endpoint n m then c else ep_ctrl m d)
unfolding ep_ctrl set_ep_ctrl
ep_ctrl-set ep1 ep1 c d = refl
ep_ctrl-set ep1 ep2 c d = refl
ep_ctrl-set ep1 ep3 c d = refl
ep_ctrl-set ep2 ep1 c d = refl
ep_ctrl-set ep2 ep2 c d = refl
ep_ctrl-set ep2 ep3 c d = refl
ep_ctrl-set ep3 ep1 c d = refl
ep_ctrl-set ep3 ep2 c d = refl
ep_ctrl-set ep3 ep3 c d = refl

same_endpoint-eq : (n m : Endpoint) → same_endpoint n m ≡ true → n ≡ m
same_endpoint-eq ep1 ep1 h = refl
same_endpoint-eq ep1 ep2 h = cc
same_endpoint-eq ep1 ep3 h = cc
same_endpoint-eq ep2 ep1 h = cc
same_endpoint-eq ep2 ep2 h = refl
same_endpoint-eq ep2 ep3 h = cc
same_endpoint-eq ep3 ep1 h = cc
same_endpoint-eq ep3 ep2 h = cc
same_endpoint-eq ep3 ep3 h = refl

pub changed_halts :
    (on : Bool) (n : Endpoint) (dir : Bool) (d : UsbState) (m : Endpoint) (e : Bool)
    → ep_ctrl n d < 256
    → halted m e (changed on n dir d)
      ≡ (if same_endpoint n m && same_direction dir e then on else halted m e d)
changed_halts on n dir d m e small =
    let c = respond (direction_mask dir) (response on dir) (ep_ctrl n d) in
    elim (Bool-cases (same_endpoint n m)) [
      | inl this ↦
          let same : ep_ctrl n d ≡ ep_ctrl m d =
            ap (λ (x : Endpoint). ep_ctrl x d) (same_endpoint-eq n m this) in
          rw (ep_ctrl-set n m c d, this)
            (register_responds on dir e (ep_ctrl n d) small
              ∙ ap
                  (λ x.
                    if same_direction dir e then on else bit_and x (direction_mask e) == stall e)
                  same)
      | inr other ↦ rw (ep_ctrl-set n m c d, other) refl
    ]
