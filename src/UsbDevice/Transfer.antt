-- ===== src/UsbDevice/Transfer.antt =====
-- DRIVERS/USB/usbuser1.c: a descriptor on its way to the host, in packets of at most 64 bytes.
use mathlib.Core.Path.{subst}
use ch583_kbd_rtt.Base.{
  ℕ, zero, suc, ◌-◌, ◌*◌, ◌/◌, ◌≤◌, ◌≡◌, refl, ap, ◌∙◌, Bool, true, false, arith, List, [], ◌++◌,
  ltb, leb, ◌==◌, if◌then◌else◌, length, take, drop, length-drop, bit_and, bit_xor,
}
use Prim.Native.Nat.{min}
use ch583_kbd_rtt.Storage.{Access, ok, ◌>>=◌}
use ch583_kbd_rtt.UsbDevice.{
  UsbState, request_type, request, w_value, w_index, w_length, packet_len, copy_descr,
}
use ch583_kbd_rtt.UsbDevice.Chunks.{length-take_le, take-append_left, chunk, take_shorter}
use ch583_kbd_rtt.UsbDevice.Requests.{
  Choice, found, report_of, string_of, descriptor_of, load, load_choice, get_descriptor,
  standard_request, answer, setup,
}
use ch583_kbd_rtt.UsbDevice.Interrupt.{control_in, usb_dev_trans_process, transfer, token}

-- The packet that the controller sends on the next IN token of endpoint 0.
abbrev pub packet : UsbState → List ℕ
packet d = take d.ep0_t_len d.ep0_databuf

-- A descriptor is on its way: the rest of it has all the bytes that are still to be sent.
pub record IsSending (d : UsbState) : Type 0 where
  pub code : d.setup_req_code ≡ 6
  pub rest : d.setup_req_len ≤ length d.descr

-- After an IN token, when the rest is long enough.
abbrev pub next : UsbState → UsbState
next d =
    let n = packet_len d.setup_req_len in
    record d {
      ep0_databuf = take n d.descr ++ drop n d.ep0_databuf;
      descr = drop n d.descr;
      setup_req_len = d.setup_req_len - n;
      ep0_t_len = n;
      ep0_ctrl = bit_xor d.ep0_ctrl 0x40;
    }

pub packet_len-le : (n : ℕ) → packet_len n ≤ n
packet_len-le n = ground arith

pub control_in-next :
    (d : UsbState)
    → d.setup_req_code ≡ 6
    → packet_len d.setup_req_len ≤ length d.descr
    → control_in d ≡ ok (next d)
unfolding control_in copy_descr
control_in-next d code room =
    let fits : leb (packet_len d.setup_req_len) (length d.descr) ≡ true = ground (arith, room) in
    rw (code, fits) refl

next-IsSending : (d : UsbState) → IsSending d → IsSending (next d)
next-IsSending d v = record {
  code = v.code;
  rest = omega (arith, length-drop (packet_len d.setup_req_len) d.descr, v.rest);
}

packet-next :
    (d : UsbState) → IsSending d → packet (next d) ≡ take (packet_len d.setup_req_len) d.descr
packet-next d v =
    let n = packet_len d.setup_req_len in
    take-append_left n (take n d.descr) (drop n d.ep0_databuf)
      (length-take_le n d.descr (omega (arith, packet_len-le d.setup_req_len, v.rest)))

module _ (deal : ℕ → ℕ → UsbState → UsbState) (maps : List (List (List ℕ))) (info : List ℕ) where
  -- An IN token of the host on endpoint 0, with the interrupt that follows it.
  abbrev pub poll : UsbState → Access UsbState
  poll d = usb_dev_trans_process deal maps info 2 0x20 0 d

  -- What the host reads with `k` IN tokens.
  unfoldable pub read : ℕ → UsbState → Access (List ℕ)
  unfolding usb_dev_trans_process
  read zero d = ok []
  read (suc k) d = poll d >>= λ d'. read k d' >>= λ rest. ok (packet d ++ rest)

  pub poll-next :
      (d : UsbState)
      → d.setup_req_code ≡ 6
      → packet_len d.setup_req_len ≤ length d.descr
      → poll d ≡ ok (record (next d) { int_fg = 2 })
  unfolding usb_dev_trans_process transfer token
  poll-next d code room = rw (control_in-next d code room) refl

  poll_sends : (d : UsbState) → IsSending d → poll d ≡ ok (record (next d) { int_fg = 2 })
  poll_sends d v = poll-next d v.code (omega (arith, packet_len-le d.setup_req_len, v.rest))

  read_sends :
      (k : ℕ) (d : UsbState)
      → IsSending d
      → read (suc k) d ≡ ok (packet d ++ take (64 * k) (take d.setup_req_len d.descr))
  unfolding read
  read_sends zero d v = rw (poll_sends d v) refl
  read_sends (suc k) d v =
      let d' = record (next d) { int_fg = 2 } in
      let sending = next-IsSending d v in
      let v' : IsSending d' = record { code = sending.code; rest = sending.rest } in
      rw (poll_sends d v, read_sends k d' v', packet-next d v)
        (ap (λ (bytes : List ℕ). ok (packet d ++ bytes)) (chunk k d.setup_req_len d.descr))

-- The device once a request for these bytes has been answered.
abbrev pub answered : UsbState → List ℕ → ℕ → UsbState
answered d bytes n =
    let m = packet_len n in
    record d {
      setup_req_code = 6;
      ep0_databuf = take m bytes ++ drop m d.ep0_databuf;
      descr = drop m bytes;
      setup_req_len = n - m;
      ep0_t_len = m;
      ep0_ctrl = 0xC0;
      int_fg = 2;
    }

pub get_descriptor-found :
    (d : UsbState) (bytes : List ℕ) (len : ℕ)
    → descriptor_of (w_value d) (w_index d) ≡ found bytes len
    → get_descriptor d ≡ load len false (record d { descr = bytes })
unfolding get_descriptor load_choice
get_descriptor-found d bytes len known = rw (known, get_descriptor) refl

load_found :
    (d : UsbState) (n len : ℕ)
    → len ≡ length d.descr
    → n ≡ min len d.setup_req_len
    → load len false d
      ≡ ok (
        record d {
          setup_req_len = n;
          ep0_databuf = take (packet_len n) d.descr ++ drop (packet_len n) d.ep0_databuf;
          descr = drop (packet_len n) d.descr;
        },
        false,
      )
unfolding load copy_descr
load_found d n len size smaller =
    let e : (if ltb len d.setup_req_len then len else d.setup_req_len) ≡ n =
      ground (arith, smaller) in
    let fits : leb (packet_len n) (length d.descr) ≡ true =
      ground (arith, packet_len-le n, size, smaller) in
    rw (e, fits) refl

pub setup-found :
    (d : UsbState) (bytes : List ℕ) (len : ℕ)
    → bit_and (request_type d) 0x60 ≡ 0
    → bit_and (request_type d) 0x80 ≡ 0x80
    → request d ≡ 6
    → descriptor_of (w_value d) (w_index d) ≡ found bytes len
    → len ≡ length bytes
    → setup d ≡ ok (answered d bytes (min len (w_length d)))
unfolding setup standard_request answer
setup-found d bytes len standard to_host code known size =
    let n : ℕ = min len (w_length d) in
    let start : UsbState = record d {
      ep0_ctrl = 0xC2;
      setup_req_len = w_length d;
      setup_req_code = 6;
    } in
    let done =
      get_descriptor-found start bytes len known
      ∙ load_found (record start { descr = bytes }) n len size refl in
    rw (standard, code, done, to_host) refl

-- The length that the switch sets is that of the descriptor.
abbrev pub IsSized : Choice → Type 0
IsSized (found bytes len) = len ≡ length bytes
IsSized _ = Unit {0}

IsSized-if : (b : Bool) (x y : Choice) → IsSized x → IsSized y → IsSized (if b then x else y)
IsSized-if true x y hx hy = hx
IsSized-if false x y hx hy = hy

report_of-IsSized : (index : ℕ) → IsSized (report_of index)
unfolding report_of
report_of-IsSized index =
    IsSized-if (index == 0) _ _ refl
      (IsSized-if (index == 1) _ _ refl (IsSized-if (index == 2) _ _ refl tt))

string_of-IsSized : (index : ℕ) → IsSized (string_of index)
unfolding string_of
string_of-IsSized index =
    IsSized-if (index == 1) _ _ refl
      (IsSized-if (index == 2) _ _ refl (IsSized-if (index == 0) _ _ refl tt))

pub descriptor_of-IsSized : (value index : ℕ) → IsSized (descriptor_of value index)
unfolding descriptor_of
descriptor_of-IsSized value index =
    let kind = value / 256 in
    IsSized-if (kind == 1) _ _ refl (
      IsSized-if (kind == 2) _ _ refl (
        IsSized-if (kind == 0x22) _ _ (report_of-IsSized (bit_and index 0xff))
          (IsSized-if (kind == 3) _ _ (string_of-IsSized (bit_and value 0xff)) tt)))

module _ (deal : ℕ → ℕ → UsbState → UsbState) (maps : List (List (List ℕ))) (info : List ℕ) where
  answered_reads :
      (k n : ℕ) (d : UsbState) (bytes : List ℕ)
      → n ≤ length bytes
      → read deal maps info k (answered d bytes n) ≡ ok (take (64 * k) (take n bytes))
  unfolding read
  answered_reads zero n d bytes fits = refl
  answered_reads (suc k) n d bytes fits =
      let m = packet_len n in
      let v : IsSending (answered d bytes n) = record {
        code = refl;
        rest = omega (arith, length-drop m bytes, fits);
      } in
      let first =
        take-append_left m (take m bytes) (drop m d.ep0_databuf)
          (length-take_le m bytes (omega (arith, packet_len-le n, fits))) in
      rw (read_sends deal maps info k (answered d bytes n) v, first)
        (ap (λ (xs : List ℕ). ok xs) (chunk k n bytes))

  -- When the setup packet is a standard request to the host for a descriptor that the switch knows:
  -- after its interrupt, any number k of IN tokens read the first 64 * k bytes of the descriptor
  -- cut to wLength, in order, and no copy leaves the table.
  pub descriptor_read :
      (k : ℕ) (d : UsbState) (bytes : List ℕ) (len : ℕ)
      → bit_and (request_type d) 0x60 ≡ 0
      → bit_and (request_type d) 0x80 ≡ 0x80
      → request d ≡ 6
      → descriptor_of (w_value d) (w_index d) ≡ found bytes len
      → (usb_dev_trans_process deal maps info 2 0xB0 0 d >>= λ d'. read deal maps info k d')
        ≡ ok (take (64 * k) (take (w_length d) bytes))
  unfolding usb_dev_trans_process transfer token
  descriptor_read k d bytes len standard to_host code known =
      let sized = descriptor_of-IsSized (w_value d) (w_index d) in
      let size : len ≡ length bytes = subst IsSized known sized in
      let n : ℕ = min len (w_length d) in
      let whole : take n bytes ≡ take (w_length d) bytes =
        ap (λ i. take (min i (w_length d)) bytes) size ∙ take_shorter (w_length d) bytes in
      rw (setup-found d bytes len standard to_host code known size) (
        answered_reads k n d bytes (omega (arith, size))
        ∙ ap (λ (xs : List ℕ). ok (take (64 * k) xs)) whole)
