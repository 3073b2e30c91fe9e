-- ===== src/UsbDevice/Returning.antt =====
-- DRIVERS/USB/usbuser1.c: every interrupt returns, and leaves the buffers with their sizes and the
-- transfer with the bytes that it still has to send.
use mathlib.Core.Path.{subst}
use ch583_kbd_rtt.Base.{
  ℕ, ◌≤◌, ◌≡◌, ◌≢◌, refl, sym, ap, ◌∙◌, true, false, ◌⊎◌, inl, inr, Bool-cases, arith, List, ◌++◌,
  leb, ltb, ◌==◌, ◌!=◌, if◌then◌else◌, length, length-drop, length-append, take, drop, bit_and,
}
use Prim.Native.Nat.{min}
use ch583_kbd_rtt.Storage.{Access, ok, fault, ◌>>=◌}
use ch583_kbd_rtt.UsbDevice.{
  UsbState, request_type, request, w_value, w_index, w_length, packet_len, copy_descr,
}
use ch583_kbd_rtt.UsbDevice.Requests.{
  Choice, found, beyond, unknown, descriptor_of, load, load_choice, get_descriptor,
  standard_request, answer, setup,
}
use ch583_kbd_rtt.UsbDevice.Interrupt.{control_in}
use ch583_kbd_rtt.UsbDevice.Chunks.{length-take_le}
use ch583_kbd_rtt.UsbDevice.Transfer.{
  control_in-next, packet_len-le, answered, setup-found, IsSized, descriptor_of-IsSized,
}
use ch583_kbd_rtt.UsbDevice.Safety.{
  Returns, Returns-if, Keeps, KeepsFirst, standard_request-Keeps, class_request-Keeps, answer-Keeps,
}

pub record IsSafe (d : UsbState) : Type 0 where
  pub ep0 : length d.ep0_databuf ≡ 192
  pub ep1 : length d.ep1_databuf ≡ 128
  pub ep2 : length d.ep2_databuf ≡ 128
  pub ep3 : length d.ep3_databuf ≡ 128
  pub sending : d.setup_req_code ≡ 6 → d.setup_req_len ≤ length d.descr

-- A setup packet with the code of GET_DESCRIPTOR is a standard request to the host, and not for the
-- report descriptor of an interface that there is not.
pub record IsProper (d : UsbState) : Type 0 where
  pub standard : request d ≡ 6 → bit_and (request_type d) 0x60 ≡ 0
  pub to_host : request d ≡ 6 → bit_and (request_type d) 0x80 ≡ 0x80
  pub there : request d ≡ 6 → descriptor_of (w_value d) (w_index d) ≢ beyond

pub Returns-bind {ℓ κ} :
    {A : Type ℓ} {B : Type κ} (P : A → Type 0) (Q : B → Type 0) (m : Access A) (f : A → Access B)
    → Returns P m
    → ((a : A) → P a → Returns Q (f a))
    → Returns Q (m >>= f)
Returns-bind P Q (ok a) f h g = g a h
Returns-bind P Q fault f h g = absurd h

-- What is safe after a request that is not GET_DESCRIPTOR.
kept-IsSafe : (d d' : UsbState) → IsSafe d → d.setup_req_code ≢ 6 → Keeps d d' → IsSafe d'
kept-IsSafe d d' v other k = record {
  ep0 = ap (λ (t : ℕ × List ℕ × ℕ × List ℕ × List ℕ × List ℕ). t.2) k ∙ v.ep0;
  ep1 = ap (λ (t : ℕ × List ℕ × ℕ × List ℕ × List ℕ × List ℕ). length t.3) k ∙ v.ep1;
  ep2 = ap (λ (t : ℕ × List ℕ × ℕ × List ℕ × List ℕ × List ℕ). length t.4) k ∙ v.ep2;
  ep3 = ap (λ (t : ℕ × List ℕ × ℕ × List ℕ × List ℕ × List ℕ). length t.5) k ∙ v.ep3;
  sending =
      λ e. absurd (other (sym (ap (λ (t : ℕ × List ℕ × ℕ × List ℕ × List ℕ × List ℕ). t.0) k) ∙ e));
}

abbrev begin : UsbState → UsbState
begin d = record d { ep0_ctrl = 0xC2; setup_req_len = w_length d; setup_req_code = request d }

pub with_flag : (d : UsbState) (n : ℕ) → IsSafe d → IsSafe (record d { int_fg = n })
with_flag d n v = record { ep0 = v.ep0; ep1 = v.ep1; ep2 = v.ep2; ep3 = v.ep3; sending = v.sending }

other_setup : (d : UsbState) → IsSafe d → request d ≢ 6 → Returns IsSafe (setup d)
unfolding setup
other_setup d v other =
    let start = begin d in
    let v' : IsSafe start = record {
      ep0 = v.ep0;
      ep1 = v.ep1;
      ep2 = v.ep2;
      ep3 = v.ep3;
      sending = λ e. absurd (other e);
    } in
    let no : (request d == 6) ≡ false = ground (arith, other) in
    Returns-bind (KeepsFirst start) IsSafe _ _
      (Returns-if (KeepsFirst start) (bit_and (request_type d) 0x60 != 0) _ _
        (class_request-Keeps start) (standard_request-Keeps start no))
      (λ r k. with_flag (answer (request_type d) r) 2 (
        kept-IsSafe start (answer (request_type d) r) v' other
          (answer-Keeps (request_type d) start r k)))

overwrite_length :
    (n : ℕ) (source bytes : List ℕ)
    → n ≤ length source
    → n ≤ length bytes
    → length (take n source ++ drop n bytes) ≡ length bytes
overwrite_length n source bytes hs hb = omega (
  arith,
  length-append (take n source) (drop n bytes),
  length-take_le n source hs,
  length-drop n bytes,
)

packet_len-le_64 : (n : ℕ) → packet_len n ≤ 64
packet_len-le_64 n = ground arith

answered-IsSafe :
    (d : UsbState) (bytes : List ℕ) (n : ℕ)
    → IsSafe d
    → n ≤ length bytes
    → IsSafe (answered d bytes n)
answered-IsSafe d bytes n v fits =
    let m = packet_len n in
    let few = packet_len-le n in
    let short = packet_len-le_64 n in
    record {
      ep0 =
          overwrite_length m bytes d.ep0_databuf (omega (arith, few, fits))
            (omega (arith, short, v.ep0))
          ∙ v.ep0;
      ep1 = v.ep1;
      ep2 = v.ep2;
      ep3 = v.ep3;
      sending = λ e. omega (arith, length-drop m bytes, few, fits);
    }

Choice-cases :
    (c : Choice)
    → ((bytes : List ℕ) × (len : ℕ) × (c ≡ found bytes len)) ⊎ ((c ≡ beyond) ⊎ (c ≡ unknown))
Choice-cases (found bytes len) = inl (bytes, len, refl)
Choice-cases beyond = inr (inl refl)
Choice-cases unknown = inr (inr refl)

-- An unknown descriptor: nothing is copied, and nothing is to be sent.
load_unknown : (d : UsbState) → load 0 true d ≡ ok (record d { setup_req_len = 0 }, true)
unfolding load copy_descr
load_unknown d =
    let e : (if ltb 0 d.setup_req_len then 0 else d.setup_req_len) ≡ 0 = ground arith in
    let fits : leb 0 (length d.descr) ≡ true = ground arith in rw (e, fits) refl

get_descriptor_unknown :
    (d : UsbState)
    → descriptor_of (w_value d) (w_index d) ≡ unknown
    → get_descriptor d ≡ load 0 true d
unfolding get_descriptor load_choice
get_descriptor_unknown d missing = rw (missing, get_descriptor) refl

setup_unknown :
    (d : UsbState)
    → bit_and (request_type d) 0x60 ≡ 0
    → request d ≡ 6
    → descriptor_of (w_value d) (w_index d) ≡ unknown
    → setup d ≡ ok (record d { setup_req_code = 6; setup_req_len = 0; ep0_ctrl = 0xCF; int_fg = 2 })
unfolding setup standard_request answer
setup_unknown d standard code missing =
    let start : UsbState = record d {
      ep0_ctrl = 0xC2;
      setup_req_len = w_length d;
      setup_req_code = 6;
    } in
    let done = get_descriptor_unknown start missing ∙ load_unknown start in
    rw (standard, code, done) refl

pub setup-Returns : (d : UsbState) → IsSafe d → IsProper d → Returns IsSafe (setup d)
setup-Returns d v proper = elim (Bool-cases (request d == 6)) [
  | inr other ↦ other_setup d v (λ e. ground (arith, other, e))
  | inl asked ↦
      let code : request d ≡ 6 = ground (arith, asked) in
      elim (Choice-cases (descriptor_of (w_value d) (w_index d))) [
        | inl (bytes, len, known) ↦
            let size : len ≡ length bytes =
              subst IsSized known (descriptor_of-IsSized (w_value d) (w_index d)) in
            rw
              (setup-found d bytes len (proper.standard code) (proper.to_host code) code known size)
              (answered-IsSafe d bytes (min len (w_length d)) v (omega (arith, size)))
        | inr (inl past) ↦ absurd (proper.there code past)
        | inr (inr missing) ↦ rw (setup_unknown d (proper.standard code) code missing) (record {
          ep0 = v.ep0;
          ep1 = v.ep1;
          ep2 = v.ep2;
          ep3 = v.ep3;
          sending = λ e. omega arith;
        })
      ]
]

other_control_in :
    (d : UsbState) → IsSafe d → (d.setup_req_code == 6) ≡ false → Returns IsSafe (control_in d)
unfolding control_in
other_control_in d v other =
    let differs : d.setup_req_code ≢ 6 = λ e. ground (arith, other, e) in
    rw other (
      Returns-if IsSafe (d.setup_req_code == 5) _ _ (kept-IsSafe d _ v differs refl)
        (Returns-if IsSafe (d.setup_req_code == 3) _ _ v (kept-IsSafe d _ v differs refl)))

pub control_in-Returns : (d : UsbState) → IsSafe d → Returns IsSafe (control_in d)
control_in-Returns d v = elim (Bool-cases (d.setup_req_code == 6)) [
  | inl asked ↦
      let code : d.setup_req_code ≡ 6 = ground (arith, asked) in
      let n = packet_len d.setup_req_len in
      let few = packet_len-le d.setup_req_len in
      let short = packet_len-le_64 d.setup_req_len in
      let room : n ≤ length d.descr = omega (arith, few, v.sending code) in
      rw (control_in-next d code room) (record {
        ep0 = overwrite_length n d.descr d.ep0_databuf room (omega (arith, short, v.ep0)) ∙ v.ep0;
        ep1 = v.ep1;
        ep2 = v.ep2;
        ep3 = v.ep3;
        sending = λ e. omega (arith, length-drop n d.descr, v.sending code);
      })
  | inr other ↦ other_control_in d v other
]
