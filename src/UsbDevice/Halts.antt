-- ===== src/UsbDevice/Halts.antt =====
-- DRIVERS/USB/usbuser1.c: SET_FEATURE, CLEAR_FEATURE and GET_STATUS of the endpoints.
use ch583_kbd_rtt.Base.{
  ℕ, ◌≤◌, ◌<◌, ◌≡◌, refl, ap, ◌∙◌, Bool, true, false, ◌&&◌, some, arith, List, [], ◌∷◌, leb, ◌!=◌,
  if◌then◌else◌, bit_and, length, take, set,
}
use ch583_kbd_rtt.Storage.{ok}
use ch583_kbd_rtt.UsbDevice.{
  UsbState, request_type, request, w_index, w_length, Endpoint, ep1, ep2, ep3, ep_ctrl,
}
use ch583_kbd_rtt.UsbDevice.Requests.{
  endpoint_of, respond_endpoint, clear_feature, set_feature, endpoint_status, get_status,
  standard_request, answer, setup,
}
use ch583_kbd_rtt.UsbDevice.Transfer.{packet}
use ch583_kbd_rtt.UsbDevice.Responses.{
  address, halted, same_direction, same_endpoint, changed, changed_halts,
}

-- The setup packet in the buffer is a standard request of this code to an endpoint.
pub record IsRequest (code : ℕ) (n : Endpoint) (dir to_host : Bool) (d : UsbState) : Type 0 where
  pub standard : bit_and (request_type d) 0x60 ≡ 0
  pub recipient : bit_and (request_type d) 0x1F ≡ 2
  pub direction : (bit_and (request_type d) 0x80 != 0) ≡ to_host
  pub asked : request d ≡ code
  pub index : w_index d ≡ address n dir

endpoint_of-address :
    (n : Endpoint) (dir : Bool)
    → (endpoint_of (address n dir) ≡ some (n, dir))
      × (endpoint_of (bit_and (address n dir) 0xff) ≡ some (n, dir))
unfolding endpoint_of
endpoint_of-address ep1 true = (refl, refl)
endpoint_of-address ep1 false = (refl, refl)
endpoint_of-address ep2 true = (refl, refl)
endpoint_of-address ep2 false = (refl, refl)
endpoint_of-address ep3 true = (refl, refl)
endpoint_of-address ep3 false = (refl, refl)

-- SET_FEATURE has the code 3, CLEAR_FEATURE the code 1.
abbrev pub feature_code : Bool → ℕ
feature_code true = 3
feature_code false = 1

abbrev begin : ℕ → UsbState → UsbState
begin code d = record d { ep0_ctrl = 0xC2; setup_req_len = w_length d; setup_req_code = code }

abbrev end : UsbState → UsbState
end d = record d { ep0_t_len = 0; ep0_ctrl = 0xC0; int_fg = 2 }

setup_standard :
    (d d' : UsbState)
    → bit_and (request_type d) 0x60 ≡ 0
    → standard_request (begin (request d) d) ≡ ok (d', false)
    → setup d ≡ ok (record (answer (request_type d) (d', false)) { int_fg = 2 })
unfolding setup
setup_standard d d' standard done = rw (standard, done) refl

answer_out :
    (chtype : ℕ) (d : UsbState)
    → (bit_and chtype 0x80 != 0) ≡ false
    → answer chtype (d, false) ≡ record d { ep0_t_len = 0; ep0_ctrl = 0xC0 }
unfolding answer
answer_out chtype d out = rw out refl

answer_in :
    (chtype : ℕ) (d : UsbState)
    → (bit_and chtype 0x80 != 0) ≡ true
    → d.setup_req_len ≡ 2
    → answer chtype (d, false) ≡ record d { setup_req_len = 0; ep0_t_len = 2; ep0_ctrl = 0xC0 }
unfolding answer
answer_in chtype d to_host two = rw (to_host, two) refl

set_request : (d : UsbState) → d.setup_req_code ≡ 3 → standard_request d ≡ ok (set_feature d)
unfolding standard_request
set_request d asked = simp asked

clear_request : (d : UsbState) → d.setup_req_code ≡ 1 → standard_request d ≡ ok (clear_feature d)
unfolding standard_request
clear_request d asked = simp asked

set_changes :
    (n : Endpoint) (dir : Bool) (d : UsbState)
    → bit_and (request_type d) 0x1F ≡ 2
    → w_index d ≡ address n dir
    → set_feature d ≡ (changed true n dir d, false)
unfolding set_feature respond_endpoint
set_changes n dir d recipient index = rw (recipient, index, (endpoint_of-address n dir).0) refl

clear_changes :
    (n : Endpoint) (dir : Bool) (d : UsbState)
    → bit_and (request_type d) 0x1F ≡ 2
    → w_index d ≡ address n dir
    → clear_feature d ≡ (changed false n dir d, false)
unfolding clear_feature respond_endpoint
clear_changes n dir d recipient index = rw (recipient, index, (endpoint_of-address n dir).1) refl

feature_request :
    (on : Bool) (n : Endpoint) (dir : Bool) (d : UsbState)
    → d.setup_req_code ≡ feature_code on
    → bit_and (request_type d) 0x1F ≡ 2
    → w_index d ≡ address n dir
    → standard_request d ≡ ok (changed on n dir d, false)
feature_request true n dir d asked recipient index =
    set_request d asked ∙ ap (λ x. ok x) (set_changes n dir d recipient index)
feature_request false n dir d asked recipient index =
    clear_request d asked ∙ ap (λ x. ok x) (clear_changes n dir d recipient index)

feature_setup :
    (on : Bool) (n : Endpoint) (dir : Bool) (d : UsbState)
    → IsRequest (feature_code on) n dir false d
    → setup d ≡ ok (end (changed on n dir (begin (request d) d)))
feature_setup on n dir d v =
    let start = begin (request d) d in
    setup_standard d (changed on n dir start) v.standard
      (feature_request on n dir start v.asked v.recipient v.index)
    ∙ ap (λ (x : UsbState). ok (record x { int_fg = 2 }))
        (answer_out (request_type d) (changed on n dir start) v.direction)

ep_ctrl-end : (m : Endpoint) (d : UsbState) → ep_ctrl m (end d) ≡ ep_ctrl m d
unfolding ep_ctrl
ep_ctrl-end ep1 d = refl
ep_ctrl-end ep2 d = refl
ep_ctrl-end ep3 d = refl

ep_ctrl-begin : (m : Endpoint) (code : ℕ) (d : UsbState) → ep_ctrl m (begin code d) ≡ ep_ctrl m d
unfolding ep_ctrl
ep_ctrl-begin ep1 code d = refl
ep_ctrl-begin ep2 code d = refl
ep_ctrl-begin ep3 code d = refl

-- A standard request SET_FEATURE or CLEAR_FEATURE for one of the six endpoint addresses, whose
-- register is a byte, returns; it halts that address, or ends its halt, and leaves the halt of each
-- other address as it was.
pub feature_halts :
    (on : Bool) (n : Endpoint) (dir : Bool) (d : UsbState)
    → IsRequest (feature_code on) n dir false d
    → ep_ctrl n d < 256
    → (d' : UsbState) × (setup d ≡ ok d')
      × ((m : Endpoint) (e : Bool)
          → halted m e d'
            ≡ (if same_endpoint n m && same_direction dir e then on else halted m e d))
feature_halts on n dir d v small =
    let start = begin (request d) d in
    (
      end (changed on n dir start),
      feature_setup on n dir d v,
      λ m e. rw (ep_ctrl-end m (changed on n dir start)) (
          changed_halts on n dir start m e (rw ep_ctrl-begin small)
          ∙ rw (ep_ctrl-begin m (request d) d) refl),
    )

two_bytes :
    (a b : ℕ) (bytes : List ℕ) → 2 ≤ length bytes → take 2 (set (set bytes 0 a) 1 b) ≡ a ∷ b ∷ []
two_bytes a b [] h = absurd (omega arith)
two_bytes a b (x ∷ []) h = absurd (omega arith)
two_bytes a b (x ∷ y ∷ bytes) h = refl

endpoint_status-halted :
    (n : Endpoint) (dir : Bool) (d : UsbState)
    → w_index d ≡ address n dir
    → endpoint_status d ≡ (if halted n dir d then 1 else 0)
unfolding endpoint_status
endpoint_status-halted n dir d index =
    rw (index, (endpoint_of-address n dir).0, endpoint_status) refl

-- The device after GET_STATUS of an endpoint.
abbrev told : ℕ → UsbState → UsbState
told status d = record d {
  setup_req_code = request d;
  setup_req_len = 0;
  ep0_databuf = set (set d.ep0_databuf 0 status) 1 0;
  ep0_t_len = 2;
  ep0_ctrl = 0xC0;
  int_fg = 2;
}

status_request :
    (d : UsbState)
    → d.setup_req_code ≡ 0
    → bit_and (request_type d) 0x1F ≡ 2
    → 2 ≤ d.setup_req_len
    → standard_request d
      ≡ ok (
        record d {
          setup_req_len = 2;
          ep0_databuf = set (set d.ep0_databuf 0 (endpoint_status d)) 1 0;
        },
        false,
      )
unfolding standard_request get_status
status_request d asked recipient long =
    let enough : leb 2 d.setup_req_len ≡ true = ground (arith, long) in
    rw (asked, recipient, enough) refl

status_setup :
    (n : Endpoint) (dir : Bool) (d : UsbState)
    → IsRequest 0 n dir true d
    → 2 ≤ w_length d
    → setup d ≡ ok (told (endpoint_status (begin (request d) d)) d)
status_setup n dir d v long =
    let start = begin (request d) d in
    let done = record start {
      setup_req_len = 2;
      ep0_databuf = set (set d.ep0_databuf 0 (endpoint_status start)) 1 0;
    } in
    setup_standard d done v.standard (status_request start v.asked v.recipient long)
    ∙ ap (λ (x : UsbState). ok (record x { int_fg = 2 }))
        (answer_in (request_type d) done v.direction refl)

-- A standard request GET_STATUS for one of the six endpoint addresses, with a wLength of two or
-- more, returns, and the packet for the host is two bytes: 1 if that address is halted, and 0 if
-- not, and then 0.
pub halt_status :
    (n : Endpoint) (dir : Bool) (d : UsbState)
    → IsRequest 0 n dir true d
    → 2 ≤ w_length d
    → 2 ≤ length d.ep0_databuf
    → (d' : UsbState) × (setup d ≡ ok d') × (packet d' ≡ (if halted n dir d then 1 else 0) ∷ 0 ∷ [])
halt_status n dir d v long room =
    let status = endpoint_status (begin (request d) d) in
    (
      told status d,
      status_setup n dir d v long,
      two_bytes status 0 d.ep0_databuf room
          ∙ ap (λ (s : ℕ). s ∷ 0 ∷ [])
              (endpoint_status-halted n dir (begin (request d) d) v.index
                ∙ rw (ep_ctrl-begin n (request d) d) refl),
    )
