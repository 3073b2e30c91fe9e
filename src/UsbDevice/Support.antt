-- ===== src/UsbDevice/Support.antt =====
-- DRIVERS/USB/usbuser1.c: which requests are answered, and which are stalled.
use ch583_kbd_rtt.Base.{
  ℕ, ◌/◌, ◌≡◌, refl, sym, ap, ◌∙◌, Bool, true, false, not, ◌&&◌, ◌||◌, Option, none, some, inl, inr,
  Bool-cases, arith, List, [], ◌∷◌, ltb, ◌==◌, ◌!=◌, if◌then◌else◌, bit_and,
}
use ch583_kbd_rtt.Storage.{Access, ok, fault, >>=-eq_ok}
use ch583_kbd_rtt.UsbDevice.{
  UsbState, request_type, request, w_value, w_index, w_length, packet_len, copy_descr, Endpoint,
  stall, ready,
}
use ch583_kbd_rtt.UsbDevice.Safety.{Returns}
use ch583_kbd_rtt.UsbDevice.Returning.{IsSafe, IsProper, setup-Returns}
use ch583_kbd_rtt.UsbDevice.Requests.{
  Answer, Choice, found, beyond, unknown, descriptor_of, report_of, string_of, load, load_choice,
  get_descriptor, respond_endpoint, endpoint_of, to_endpoint, to_device, clear_feature, set_feature,
  get_status, standard_request, class_request, answer, setup,
}

abbrev among : ℕ → List ℕ → Bool
among x [] = false
among x (y ∷ ys) = x == y || among x ys

abbrev pub has_descriptor : ℕ → Bool
has_descriptor value =
    let kind = value / 256 in
    among kind (1 ∷ 2 ∷ 0x22 ∷ []) || (kind == 3 && among (bit_and value 0xff) (0 ∷ 1 ∷ 2 ∷ []))

abbrev pub has_endpoint : ℕ → Bool
has_endpoint n = among n (0x83 ∷ 0x03 ∷ 0x82 ∷ 0x02 ∷ 0x81 ∷ 0x01 ∷ [])

-- The requests that the device knows.
unfoldable pub supports : UsbState → Bool
supports d =
    let code = request d in
    if bit_and (request_type d) 0x60 != 0
    then if bit_and (request_type d) 0x40 != 0
      then true
      else if bit_and (request_type d) 0x20 != 0
      then among code (2 ∷ 3 ∷ 9 ∷ 0x0A ∷ 0x0B ∷ [])
      else true
    else if code == 6
    then has_descriptor (w_value d)
    else if code == 1
    then if to_endpoint d then has_endpoint (bit_and (w_index d) 0xff) else to_device d
    else if code == 3
    then if to_endpoint d then has_endpoint (w_index d) else to_device d
    else among code (0 ∷ 5 ∷ 8 ∷ 9 ∷ 0x0A ∷ 0x0B ∷ [])

is_some : Option (Endpoint × Bool) → Bool
is_some none = false
is_some (some x) = true

class_flag :
    (d : UsbState)
    → (class_request d).1
      ≡ not (
          if bit_and (request_type d) 0x40 != 0
          then true
          else if bit_and (request_type d) 0x20 != 0
          then among d.setup_req_code (2 ∷ 3 ∷ 9 ∷ 0x0A ∷ 0x0B ∷ [])
          else true)
unfolding class_request
class_flag d = ground arith

endpoint_flag :
    (response : Bool → ℕ) (n : ℕ) (d : UsbState)
    → (respond_endpoint response (endpoint_of n) d).1 ≡ not (has_endpoint n)
unfolding respond_endpoint endpoint_of
endpoint_flag response n d = ground arith

clear_flag :
    (d : UsbState)
    → (clear_feature d).1
      ≡ not (if to_endpoint d then has_endpoint (bit_and (w_index d) 0xff) else to_device d)
unfolding clear_feature
clear_flag d = ground (arith, endpoint_flag ready (bit_and (w_index d) 0xff) d)

set_flag :
    (d : UsbState)
    → (set_feature d).1 ≡ not (if to_endpoint d then has_endpoint (w_index d) else to_device d)
unfolding set_feature
set_flag d = ground (arith, endpoint_flag stall (w_index d) d)

get_status_flag : (d : UsbState) → (get_status d).1 ≡ false
unfolding get_status
get_status_flag d = ground arith

is_known : Choice → Bool
is_known unknown = false
is_known _ = true

report_known : (index : ℕ) → is_known (report_of index) ≡ true
unfolding is_known report_of
report_known index = ground arith

string_known : (index : ℕ) → is_known (string_of index) ≡ among index (0 ∷ 1 ∷ 2 ∷ [])
unfolding is_known string_of
string_known index = ground arith

descriptor_known : (value index : ℕ) → is_known (descriptor_of value index) ≡ has_descriptor value
unfolding is_known descriptor_of
descriptor_known value index =
    ground (arith, report_known (bit_and index 0xff), string_known (bit_and value 0xff))

flag : Access Answer → Bool
flag (ok r) = r.1
flag fault = false

load_flag : (len : ℕ) (err : Bool) (d : UsbState) (r : Answer) → load len err d ≡ ok r → r.1 ≡ err
unfolding load flag
load_flag len err d r h =
    let n : ℕ = if ltb len d.setup_req_len then len else d.setup_req_len in
    let (d', copied, done) =
      >>=-eq_ok {B = Answer} (copy_descr (packet_len n) (record d { setup_req_len = n }))
        (λ d'. ok (d', err)) h in
    sym (ap flag done)

load_choice_flag :
    (c : Choice) (d : UsbState) (r : Answer) → load_choice c d ≡ ok r → r.1 ≡ not (is_known c)
unfolding load_choice is_known
load_choice_flag (found bytes len) d r h = load_flag len false (record d { descr = bytes }) r h
load_choice_flag beyond d r h = load_flag 0xff false d r h
load_choice_flag unknown d r h = load_flag 0 true d r h

get_descriptor_flag :
    (d : UsbState) (r : Answer) → get_descriptor d ≡ ok r → r.1 ≡ not (has_descriptor (w_value d))
unfolding get_descriptor
get_descriptor_flag d r h =
    load_choice_flag (descriptor_of (w_value d) (w_index d)) d r h
    ∙ ap not (descriptor_known (w_value d) (w_index d))

standard_flag :
    (d : UsbState)
    → (d.setup_req_code == 6) ≡ false
    → flag (standard_request d)
      ≡ not (
          if d.setup_req_code == 1
          then if to_endpoint d then has_endpoint (bit_and (w_index d) 0xff) else to_device d
          else if d.setup_req_code == 3
          then if to_endpoint d then has_endpoint (w_index d) else to_device d
          else among d.setup_req_code (0 ∷ 5 ∷ 8 ∷ 9 ∷ 0x0A ∷ 0x0B ∷ []))
unfolding standard_request flag
standard_flag d other = ground (arith, other, clear_flag d, set_flag d, get_status_flag d)

begin : UsbState → UsbState
begin d = record d { ep0_ctrl = 0xC2; setup_req_len = w_length d; setup_req_code = request d }

descriptor_request : (d : UsbState) → d.setup_req_code ≡ 6 → standard_request d ≡ get_descriptor d
unfolding standard_request
descriptor_request d asked = simp asked

request_flag :
    (d : UsbState) (r : Answer)
    → (if bit_and (request_type d) 0x60 != 0
        then ok (class_request (begin d))
        else standard_request (begin d))
      ≡ ok r
    → r.1 ≡ not (supports d)
unfolding begin supports flag
request_flag d r h = elim (Bool-cases (bit_and (request_type d) 0x60 != 0)) [
  | inl special ↦ sym (ap flag (rw special at h)) ∙ class_flag (begin d) ∙ rw special refl
  | inr standard ↦
      let done : standard_request (begin d) ≡ ok r = rw standard at h in
      elim (Bool-cases (request d == 6)) [
        | inl descriptor ↦
            let asked : request d ≡ 6 = ground (arith, descriptor) in
            get_descriptor_flag (begin d) r (sym (descriptor_request (begin d) asked) ∙ done)
            ∙ rw (standard, descriptor) refl
        | inr other ↦ sym (ap flag done) ∙ standard_flag (begin d) other ∙ rw (standard, other) refl
      ]
]

answer_ctrl : (chtype : ℕ) (r : Answer) → (answer chtype r).ep0_ctrl ≡ (if r.1 then 0xCF else 0xC0)
unfolding answer
answer_ctrl chtype (d, err) = ground arith

ctrl_of : Access UsbState → ℕ
ctrl_of (ok d) = d.ep0_ctrl
ctrl_of fault = 0

setup_ctrl : (d d' : UsbState) → setup d ≡ ok d' → d'.ep0_ctrl ≡ (if supports d then 0xC0 else 0xCF)
unfolding setup begin ctrl_of
setup_ctrl d d' h =
    let finish : Answer → Access UsbState =
      λ r. ok (record (answer (request_type d) r) { int_fg = 2 }) in
    let (r, done, end) = >>=-eq_ok {B = UsbState} _ finish h in
    let flagged = request_flag d r done in
    sym (ap ctrl_of end) ∙ answer_ctrl (request_type d) r ∙ ground (arith, flagged)

Returns-ok :
    (P : UsbState → Type 0) (m : Access UsbState) → Returns P m → (d : UsbState) × (m ≡ ok d) × P d
Returns-ok P (ok d) h = (d, refl, h)
Returns-ok P fault h = absurd h

-- From a safe state and with a proper setup packet, setup returns in a safe state, with the
-- registers of endpoint 0 ready to answer if the request is one of those in a list of types, codes,
-- descriptors and endpoints, and stalled both ways if it is not.
pub setup_answers :
    (d : UsbState)
    → IsSafe d
    → IsProper d
    → (d' : UsbState) × (setup d ≡ ok d')
      × IsSafe d'
      × (d'.ep0_ctrl ≡ (if supports d then 0xC0 else 0xCF))
setup_answers d v proper =
    let (d', returned, v') = Returns-ok IsSafe (setup d) (setup-Returns d v proper) in
    (d', returned, v', setup_ctrl d d' returned)
