-- ===== src/UsbDevice/Safety.antt =====
-- DRIVERS/USB/usbuser1.c: interrupts return, and leave the buffers and the transfer in order.
use ch583_kbd_rtt.Base.{
  ℕ, ◌≡◌, refl, ap, ◌∙◌, Bool, true, false, Option, none, some, List, leb, ltb, ◌==◌, ◌!=◌,
  if◌then◌else◌, length, length-set, bit_and,
}
use ch583_kbd_rtt.Storage.{Access, ok, fault}
use ch583_kbd_rtt.UsbDevice.{
  UsbState, request_type, w_value, w_index, put_byte, respond, direction_mask, stall, ready,
  Endpoint, ep1, ep2, ep3, ep_ctrl, set_ep_ctrl,
}
use ch583_kbd_rtt.UsbDevice.Requests.{
  Answer, endpoint_of, respond_endpoint, to_endpoint, to_device, clear_feature, set_feature,
  endpoint_status, get_status, standard_request, class_request, answer, at_most,
}

-- What the requests but GET_DESCRIPTOR leave alone.
abbrev pub kept : UsbState → ℕ × List ℕ × ℕ × List ℕ × List ℕ × List ℕ
kept d =
    (d.setup_req_code, d.descr, length d.ep0_databuf, d.ep1_databuf, d.ep2_databuf, d.ep3_databuf)

abbrev pub Keeps : UsbState → UsbState → Type 0
Keeps d d' = kept d' ≡ kept d

pub Keeps-if :
    (d : UsbState) (b : Bool) (x y : UsbState)
    → Keeps d x
    → Keeps d y
    → Keeps d (if b then x else y)
Keeps-if d true x y hx hy = hx
Keeps-if d false x y hx hy = hy

abbrev pub KeepsFirst : UsbState → Answer → Type 0
KeepsFirst d r = Keeps d r.0

KeepsFirst-if :
    (d : UsbState) (b : Bool) (x y : Answer)
    → KeepsFirst d x
    → KeepsFirst d y
    → KeepsFirst d (if b then x else y)
KeepsFirst-if d true x y hx hy = hx
KeepsFirst-if d false x y hx hy = hy

-- An access that comes back, with a result of this kind.
abbrev pub Returns {ℓ} : {A : Type ℓ} → (A → Type 0) → Access A → Type 0
Returns P (ok a) = P a
Returns P fault = ⊥

pub Returns-if {ℓ} :
    {A : Type ℓ} (P : A → Type 0) (b : Bool) (x y : Access A)
    → Returns P x
    → Returns P y
    → Returns P (if b then x else y)
Returns-if P true x y hx hy = hx
Returns-if P false x y hx hy = hy

set_ep_ctrl-Keeps : (n : Endpoint) (c : ℕ) (d : UsbState) → Keeps d (set_ep_ctrl n c d)
unfolding set_ep_ctrl
set_ep_ctrl-Keeps ep1 c d = refl
set_ep_ctrl-Keeps ep2 c d = refl
set_ep_ctrl-Keeps ep3 c d = refl

put_byte-Keeps : (i v : ℕ) (d d' : UsbState) → Keeps d d' → Keeps d (put_byte i v d')
put_byte-Keeps i v d d' k =
    ap (λ (n : ℕ). (d'.setup_req_code, d'.descr, n, d'.ep1_databuf, d'.ep2_databuf, d'.ep3_databuf))
      (length-set d'.ep0_databuf i v)
    ∙ k

respond_endpoint-Keeps :
    (response : Bool → ℕ) (o : Option (Endpoint × Bool)) (d : UsbState)
    → KeepsFirst d (respond_endpoint response o d)
unfolding respond_endpoint
respond_endpoint-Keeps response none d = refl
respond_endpoint-Keeps response (some (n, dir)) d =
    set_ep_ctrl-Keeps n (respond (direction_mask dir) (response dir) (ep_ctrl n d)) d

asleep-Keeps :
    (d : UsbState) (b : Bool) (s : ℕ) → Keeps d (if b then record d { usb_sleep_status = s } else d)
asleep-Keeps d b s = Keeps-if d b _ _ refl (refl)

clear_feature-Keeps : (d : UsbState) → KeepsFirst d (clear_feature d)
unfolding clear_feature
clear_feature-Keeps d =
    KeepsFirst-if d (to_endpoint d) _ _
      (respond_endpoint-Keeps ready (endpoint_of (bit_and (w_index d) 0xff)) d)
      (KeepsFirst-if d (to_device d) _ _ (asleep-Keeps d (w_value d == 1) _) (refl))

set_feature-Keeps : (d : UsbState) → KeepsFirst d (set_feature d)
unfolding set_feature
set_feature-Keeps d =
    KeepsFirst-if d (to_endpoint d) _ _ (respond_endpoint-Keeps stall (endpoint_of (w_index d)) d)
      (KeepsFirst-if d (to_device d) _ _ (asleep-Keeps d (w_value d == 1) _) (refl))

at_most-Keeps : (n : ℕ) (d d' : UsbState) → Keeps d d' → Keeps d (at_most n d')
at_most-Keeps n d d' k = Keeps-if d (ltb n d'.setup_req_len) _ _ k k

get_status-Keeps : (d : UsbState) → KeepsFirst d (get_status d)
unfolding get_status
get_status-Keeps d =
    let status : ℕ = if d.usb_sleep_status != 0 then 2 else 0 in
    let first : UsbState =
      if to_endpoint d
      then put_byte 0 (endpoint_status d) d
      else if to_device d
      then put_byte 0 status d
      else d in
    let second = put_byte 1 0 first in
    let k : Keeps d second = put_byte-Keeps 1 0 d first (
      Keeps-if d (to_endpoint d) _ _ (put_byte-Keeps 0 (endpoint_status d) d d refl)
        (Keeps-if d (to_device d) _ _ (put_byte-Keeps 0 status d d refl) refl)) in
    Keeps-if d (leb 2 second.setup_req_len) (record second { setup_req_len = 2 }) second k k

pub standard_request-Keeps :
    (d : UsbState) → (d.setup_req_code == 6) ≡ false → Returns (KeepsFirst d) (standard_request d)
unfolding standard_request
standard_request-Keeps d other =
    let same : Keeps d d = refl in
    let step = Returns-if (KeepsFirst d) in
    let code = d.setup_req_code in
    rw other (
      step (code == 5) _ _ refl (
        step (code == 8) _ _ (at_most-Keeps 1 d _ (put_byte-Keeps 0 d.dev_config d d same)) (
          step (code == 9) _ _ refl (
            step (code == 1) _ _ (clear_feature-Keeps d) (
              step (code == 3) _ _ (set_feature-Keeps d) (
                step (code == 0x0A) _ _ (at_most-Keeps 1 d _ (put_byte-Keeps 0 0 d d same)) (
                  step (code == 0x0B) _ _ same
                    (step (code == 0) _ _ (get_status-Keeps d) same))))))))

pub class_request-Keeps : (d : UsbState) → KeepsFirst d (class_request d)
unfolding class_request
class_request-Keeps d =
    let same : Keeps d d = refl in
    let step = KeepsFirst-if d in
    let code = d.setup_req_code in
    step (bit_and (request_type d) 0x40 != 0) _ _ same (
      step (bit_and (request_type d) 0x20 != 0) _ _
        (step (code == 0x0A) _ _ refl (
          step (code == 9) _ _ same (
            step (code == 0x0B) _ _ refl (
              step (code == 2) _ _ (put_byte-Keeps 0 d.idle_value d d same)
                (step (code == 3) _ _ (put_byte-Keeps 0 d.report_value d d same) same)))))
        same)

pub answer-Keeps :
    (chtype : ℕ) (d : UsbState) (r : Answer) → KeepsFirst d r → Keeps d (answer chtype r)
unfolding answer
answer-Keeps chtype d (d', err) k =
    let k' : Keeps d d' = k in Keeps-if d err _ _ k (Keeps-if d (bit_and chtype 0x80 != 0) _ _ k k)
