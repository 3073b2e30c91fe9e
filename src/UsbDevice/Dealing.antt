-- ===== src/UsbDevice/Dealing.antt =====
-- DRIVERS/USB/usbuser1.c: the loops and copies of the endpoints stay inside their buffers.
use ch583_kbd_rtt.Base.{
  ℕ, zero, suc, ◌+◌, ◌≤◌, ◌≡◌, refl, ap, ◌∙◌, Bool, true, false, arith, List, [], ◌∷◌, take, ltb,
  ◌==◌, if◌then◌else◌, length, length-set, get_or, set, complement,
}
use ch583_kbd_rtt.Storage.{Access}
use ch583_kbd_rtt.UsbDevice.{UsbState}
use ch583_kbd_rtt.UsbDevice.Endpoints.{put_from, in_buff, invert, in_token}
use ch583_kbd_rtt.UsbDevice.Safety.{Returns, kept}
use ch583_kbd_rtt.UsbDevice.Returning.{IsSafe}

-- DevEPn_IN_Deal leaves the buffers and the transfer alone.
pub record IsDeal (deal : ℕ → ℕ → UsbState → UsbState) : Type 0 where
  pub keeps : (n len : ℕ) (d : UsbState) → kept (deal n len d) ≡ kept d
  pub keeps_len : (n len : ℕ) (d : UsbState) → (deal n len d).setup_req_len ≡ d.setup_req_len

pub deal-IsSafe :
    (deal : ℕ → ℕ → UsbState → UsbState)
    → IsDeal deal
    → (n len : ℕ) (d : UsbState) → IsSafe d
    → IsSafe (deal n len d)
deal-IsSafe deal law n len d v =
    let k = law.keeps n len d in
    let T : Type 0 = ℕ × List ℕ × ℕ × List ℕ × List ℕ × List ℕ in
    let code : (deal n len d).setup_req_code ≡ d.setup_req_code = ap (λ (t : T). t.0) k in
    let descr : length (deal n len d).descr ≡ length d.descr = ap (λ (t : T). length t.1) k in
    record {
      ep0 = ap (λ (t : T). t.2) k ∙ v.ep0;
      ep1 = ap (λ (t : T). length t.3) k ∙ v.ep1;
      ep2 = ap (λ (t : T). length t.4) k ∙ v.ep2;
      ep3 = ap (λ (t : T). length t.5) k ∙ v.ep3;
      sending =
          λ e. omega (arith, law.keeps_len n len d, descr, v.sending (omega (arith, code, e)));
    }

length-put_from :
    (bytes : List ℕ) (i : ℕ) (buffer : List ℕ) → length (put_from i bytes buffer) ≡ length buffer
unfolding put_from
length-put_from [] i buffer = refl
length-put_from (x ∷ bytes) i buffer =
    length-put_from bytes (i + 1) (set buffer i x) ∙ length-set buffer i x

pub length-in_buff :
    (bytes : List ℕ) (d : UsbState) → length (in_buff bytes d) ≡ length d.ep3_databuf
unfolding in_buff
length-in_buff bytes d =
    length-put_from bytes 64 _ ∙ length-put_from (take 64 d.stack) 64 d.ep3_databuf

-- A loop that stays inside the buffer.
pub invert-Returns :
    (left i from to : ℕ) (bytes : List ℕ)
    → to + i + left ≤ length bytes
    → Returns (λ (r : List ℕ). length r ≡ length bytes) (invert left i from to bytes)
unfolding invert
invert-Returns zero i from to bytes h = refl
invert-Returns (suc left) i from to bytes h =
    let b = set bytes (to + i) (complement 8 (get_or bytes (from + i) 0)) in
    let size : length b ≡ length bytes = length-set bytes (to + i) _ in
    let inside : ltb (to + i) (length bytes) ≡ true = ground (arith, h) in
    let rest = invert-Returns left (i + 1) from to b (omega (arith, size, h)) in
    rw inside (rw size at rest)

pub Returns-eq :
    {b : Bool} (x y : Access UsbState) (P : UsbState → Type 0)
    → b ≡ true
    → Returns P x
    → Returns P (if b then x else y)
Returns-eq x y P e h = rw e h

-- The test holds where the first of the two is needed.
pub Returns-when :
    (b : Bool) (x y : Access UsbState)
    → (b ≡ true → Returns IsSafe x)
    → Returns IsSafe y
    → Returns IsSafe (if b then x else y)
Returns-when true x y hx hy = hx refl
Returns-when false x y hx hy = hy

IsSafe-if : (b : Bool) (x y : UsbState) → IsSafe x → IsSafe y → IsSafe (if b then x else y)
IsSafe-if true x y hx hy = hx
IsSafe-if false x y hx hy = hy

pub in_token-IsSafe : (n : ℕ) (d : UsbState) → IsSafe d → IsSafe (in_token n d)
unfolding in_token
in_token-IsSafe n d v =
    IsSafe-if (n == 1) _ _
      (record { ep0 = v.ep0; ep1 = v.ep1; ep2 = v.ep2; ep3 = v.ep3; sending = v.sending })
      (IsSafe-if (n == 2) _ _
        (record { ep0 = v.ep0; ep1 = v.ep1; ep2 = v.ep2; ep3 = v.ep3; sending = v.sending })
        (IsSafe-if (n == 3) _ _
          (record { ep0 = v.ep0; ep1 = v.ep1; ep2 = v.ep2; ep3 = v.ep3; sending = v.sending })
          (IsSafe-if (n == 4) _ _
            (record { ep0 = v.ep0; ep1 = v.ep1; ep2 = v.ep2; ep3 = v.ep3; sending = v.sending })
            v)))
