-- ===== src/Report/Nkro.antt =====
-- The bit map of keys of TMK/action_util.c (NKRO_ENABLE): what entering and taking out a key does
-- to every key.
use native.Mathlib.Nat.{mod-eq_of_lt}
use native.Mathlib.Decide.{ℕ_discrete}
use ch583_kbd_rtt.Base.{
  ℕ, zero, suc, ◌+◌, ◌/◌, ◌%◌, ◌^◌, ◌<◌, ◌≡◌, refl, sym, ap, ◌∙◌, ◌≢◌, Bool, true, false, not, ◌&&◌,
  ◌||◌, List, [], ◌∷◌, arith, ltb, ltb→lt, ◌==◌, ne→==, if◌then◌else◌, bit_and, bit_or, u8, ◌<<<◌,
  complement, length, length-set, get_or, set, get_or-set_self, get_or-set_ne, All,
}
use ch583_kbd_rtt.Base.Bits.{
  bit, bit-bit_and, bit-bit_or, bit-pow, bit-complement, bit_and-mask, bit_and-le, bit_or-lt,
}
use ch583_kbd_rtt.Base.Bits.Table.{check_below, check_below_sound}
use ch583_kbd_rtt.Report.{Report, keyboard_report_size, add_key_bit, del_key_bit}

-- The bit of a key is set in the report.
unfoldable pub is_down : Report → ℕ → Bool
is_down r code = bit (get_or r.raw (1 + code / 8) 0) (code % 8)

-- A report of the right size, made of bytes.
pub record IsReport (r : Report) : Type 0 where
  pub size : length r.raw ≡ keyboard_report_size
  pub bytes : All (λ b. b < 256) r.raw

get_or-lt : (raw : List ℕ) (i : ℕ) → All (λ b. b < 256) raw → get_or raw i 0 < 256
get_or-lt [] i h = omega arith
get_or-lt (x ∷ raw) zero h = h.0
get_or-lt (x ∷ raw) (suc i) h = get_or-lt raw i h.1

All-set :
    (raw : List ℕ) (i v : ℕ) → v < 256 → All (λ b. b < 256) raw → All (λ b. b < 256) (set raw i v)
All-set [] i v hv h = h
All-set (x ∷ raw) zero v hv h = (hv, h.1)
All-set (x ∷ raw) (suc i) v hv h = (h.0, All-set raw i v hv h.1)

power_table : check_below 8 (λ k. ltb (2 ^ k) 256) ≡ true
unfolding check_below
power_table = refl

power_small : (k : ℕ) → k < 8 → 2 ^ k < 256
power_small k h = ltb→lt _ _ (check_below_sound 8 (λ j. ltb (2 ^ j) 256) k power_table h)

one_shift : (k : ℕ) → 1 <<< k ≡ 2 ^ k
one_shift k = omega arith

-- The bits of the byte that `add_key_bit` and `del_key_bit` write.
byte_added : (x k j : ℕ) → x < 256 → k < 8 → bit (u8 (bit_or x (1 <<< k))) j ≡ (bit x j || k == j)
byte_added x k j hx hk =
    let small : bit_or x (2 ^ k) < 256 = bit_or-lt 8 x (2 ^ k) hx (power_small k hk) in
    let kept : u8 (bit_or x (1 <<< k)) ≡ bit_or x (2 ^ k) =
      ap (λ m. u8 (bit_or x m)) (one_shift k) ∙ mod-eq_of_lt small in
    rw (kept, bit-bit_or j x (2 ^ k), bit-pow k j)

byte_removed :
    (x k j : ℕ)
    → k < 8
    → j < 8
    → bit (bit_and x (complement 8 (1 <<< k))) j ≡ (bit x j && not (k == j))
byte_removed x k j hk hj =
    let mask : complement 8 (1 <<< k) ≡ complement 8 (2 ^ k) = ap (complement 8) (one_shift k) in
    rw (
      mask,
      bit-bit_and j x (complement 8 (2 ^ k)),
      bit-complement j 8 (2 ^ k) (power_small k hk) hj,
      bit-pow k j,
    )

-- Two keys are the same if they share the byte and the bit.
same_key : (c d : ℕ) → c / 8 ≡ d / 8 → (c % 8 == d % 8) ≡ (c == d)
same_key c d h = ground arith

low_bits : (c : ℕ) → bit_and c 7 ≡ c % 8
low_bits c = bit_and-mask 3 c

or_false : (b : Bool) → (b || false) ≡ b
or_false true = refl
or_false false = refl

and_true : (b : Bool) → (b && true) ≡ b
and_true true = refl
and_true false = refl

-- Writing one byte of the report leaves the keys of the other bytes alone.
elsewhere :
    (raw : List ℕ) (c d v : ℕ)
    → c / 8 ≢ d / 8
    → get_or (set raw (1 + c / 8) v) (1 + d / 8) 0 ≡ get_or raw (1 + d / 8) 0
elsewhere raw c d v h = get_or-set_ne raw (1 + c / 8) (1 + d / 8) v 0 (λ e. h (omega arith))

here :
    (raw : List ℕ) (c d v : ℕ)
    → length raw ≡ 28
    → c < 216
    → c / 8 ≡ d / 8
    → get_or (set raw (1 + c / 8) v) (1 + d / 8) 0 ≡ v
here raw c d v size hc same =
    ap (λ i. get_or (set raw (1 + c / 8) v) (1 + i) 0) (sym same)
    ∙ get_or-set_self raw (1 + c / 8) v 0 (omega arith)

-- In a report of 28 bytes, entering a key code below 216 sets the bit of that key and of no other,
-- and taking it out clears that bit and no other.
pub key_bits :
    (code d : ℕ) (r : Report)
    → IsReport r
    → code < 216
    → (is_down (add_key_bit code r) d ≡ (is_down r d || code == d))
      × (is_down (del_key_bit code r) d ≡ (is_down r d && not (code == d)))
unfolding is_down add_key_bit del_key_bit
key_bits code d r w hc = elim (ℕ_discrete (code / 8) (d / 8)) [
  | yes same ↦
      let byte : get_or r.raw (1 + code / 8) 0 < 256 = get_or-lt r.raw (1 + code / 8) w.bytes in
      let room : ltb (code / 8) 27 ≡ true = ground arith in
      let place : get_or r.raw (1 + code / 8) 0 ≡ get_or r.raw (1 + d / 8) 0 =
        ap (λ i. get_or r.raw (1 + i) 0) same in
      (
        rw (
          room,
          low_bits code,
          here r.raw code d _ w.size hc same,
          byte_added (get_or r.raw (1 + code / 8) 0) (code % 8) (d % 8) byte (omega arith),
          same_key code d same,
          place,
        ),
        rw (
          room,
          low_bits code,
          here r.raw code d _ w.size hc same,
          byte_removed (get_or r.raw (1 + code / 8) 0) (code % 8) (d % 8) (omega arith)
              (omega arith),
          same_key code d same,
          place,
        ),
      )
  | no differ ↦
      let room : ltb (code / 8) 27 ≡ true = ground arith in
      let other : (code == d) ≡ false = ne→== code d (λ e. differ (ap (λ c. c / 8) e)) in
      (
        rw (room, other)
            (ap (λ b. bit b (d % 8)) (elsewhere r.raw code d _ differ) ∙ sym (or_false _)),
        rw (room, other)
            (ap (λ b. bit b (d % 8)) (elsewhere r.raw code d _ differ) ∙ sym (and_true _)),
      )
]

IsReport-byte :
    (r : Report) (i v : ℕ) → v < 256 → IsReport r → IsReport (record r { raw = set r.raw i v })
IsReport-byte r i v hv w = record {
  size = length-set r.raw i v ∙ w.size;
  bytes = All-set r.raw i v hv w.bytes;
}

IsReport-if : (b : Bool) (r s : Report) → IsReport r → IsReport s → IsReport (if b then r else s)
IsReport-if true r s hr hs = hr
IsReport-if false r s hr hs = hs

-- Entering and taking out any key keeps the size of the report and its bytes below 256.
pub key_bits-IsReport :
    (code : ℕ) (r : Report)
    → IsReport r
    → IsReport (add_key_bit code r) × IsReport (del_key_bit code r)
unfolding add_key_bit del_key_bit
key_bits-IsReport code r w =
    let byte : get_or r.raw (1 + code / 8) 0 < 256 = get_or-lt r.raw (1 + code / 8) w.bytes in
    (
      IsReport-if (ltb (code / 8) 27) _ r (IsReport-byte r (1 + code / 8) _ (omega arith) w) w,
      IsReport-if (ltb (code / 8) 27) _ r
          (IsReport-byte r (1 + code / 8) _
            (omega (
              arith,
              bit_and-le 8 (get_or r.raw (1 + code / 8) 0) (complement 8 (1 <<< bit_and code 7))
                  byte,
            ))
            w)
          w,
    )
