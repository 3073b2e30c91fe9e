-- ===== src/Util/Reverse.antt =====
-- The bit reversals of TMK/util.c, digit by digit.
use native.Mathlib.Nat.{one-le-pow}
use ch583_kbd_rtt.Base.{
  ℕ, ◌+◌, ◌-◌, ◌*◌, ◌/◌, ◌%◌, ◌^◌, ◌<◌, bit_and, bit_or, ◌≡◌, refl, sym, ap, ◌∙◌, Bool, true, false,
  inl, inr, ◌||◌, arith, ltb, ltb→lt, Bool-cases,
}
use ch583_kbd_rtt.Base.Bits.{
  bit, bit-bit_and, bit-bit_or, bit-zero, bit-complement, bit_high, bit_or-lt, bit_and-le,
  bit_and-le_right,
}
use ch583_kbd_rtt.Base.Bits.Shift.{bit-shl, bit-shl_low, bit-shr}
use ch583_kbd_rtt.Base.Bits.Table.{check_below, check_below_sound}
use ch583_kbd_rtt.Util.{bitrev, bitrev16, bitrev32}

abbrev same : Bool → Bool → Bool
same true true = true
same false false = true
same _ _ = false

same_sound : (a b : Bool) → same a b ≡ true → a ≡ b
same_sound true true h = refl
same_sound true false h = cc
same_sound false true h = cc
same_sound false false h = refl

-- Every digit of every byte lands in its mirror place.
mirror_table :
    check_below 256 (λ x. check_below 8 (λ k. same (bit (bitrev x) k) (bit x (7 - k)))) ≡ true
unfolding check_below bit bitrev
mirror_table = refl

bitrev_small : check_below 256 (λ x. ltb (bitrev x) 256) ≡ true
unfolding check_below bitrev
bitrev_small = refl

mirror8 : (x k : ℕ) → x < 256 → k < 8 → bit (bitrev x) k ≡ bit x (7 - k)
mirror8 x k hx hk = same_sound _ _ (
    check_below_sound 8 (λ j. same (bit (bitrev x) j) (bit x (7 - j))) k
      (check_below_sound 256 (λ y. check_below 8 (λ j. same (bit (bitrev y) j) (bit y (7 - j)))) x
        mirror_table hx)
      hk)

bitrev-lt : (x : ℕ) → x < 256 → bitrev x < 256
bitrev-lt x h = ltb→lt _ _ (check_below_sound 256 (λ y. ltb (bitrev y) 256) x bitrev_small h)

or-false : (b : Bool) → (b || false) ≡ b
or-false true = refl
or-false false = refl

-- A mask of `w` ones has them in the `w` lowest places.
bit_mask : (w k : ℕ) → k < w → bit (2 ^ w - 1) k ≡ true
bit_mask w k h =
    let whole : 2 ^ w - 1 - 0 ≡ 2 ^ w - 1 = omega arith in
    rw (← whole, bit-complement k w 0 (one-le-pow w 2 (omega arith)) h, bit-zero k)

bit_mask_low : (w x k : ℕ) → k < w → bit (bit_and x (2 ^ w - 1)) k ≡ bit x k
bit_mask_low w x k h = rw (bit-bit_and k x (2 ^ w - 1), bit_mask w k h) (ground arith)

bit_mask_high :
    (w x k : ℕ) → k < w → bit (bit_and x ((2 ^ w - 1) * 2 ^ w) / 2 ^ w) k ≡ bit x (w + k)
bit_mask_high w x k h =
    rw
      (
        bit-shr w (bit_and x ((2 ^ w - 1) * 2 ^ w)) k,
        bit-bit_and (w + k) x ((2 ^ w - 1) * 2 ^ w),
        bit-shl w (2 ^ w - 1) k,
        bit_mask w k h,
      )
      (ground arith)

-- Mirrored halves, swapped, are the mirrored whole.
module _ (w : ℕ) (rev : ℕ → ℕ) (rev-lt : (x : ℕ) → x < 2 ^ w → rev x < 2 ^ w)
    (mirror : (x k : ℕ) → x < 2 ^ w → k < w → bit (rev x) k ≡ bit x (w - 1 - k)) where
  mirror_join :
      (x lo hi k : ℕ)
      → lo < 2 ^ w
      → hi < 2 ^ w
      → ((j : ℕ) → j < w → bit lo j ≡ bit x j)
      → ((j : ℕ) → j < w → bit hi j ≡ bit x (w + j))
      → k < w + w
      → bit (bit_or (rev lo * 2 ^ w) (rev hi)) k ≡ bit x (w + w - 1 - k)
  mirror_join x lo hi k hl hh low high hk = elim (Bool-cases (ltb k w)) [
    | inl below ↦
        let kw : k < w = ltb→lt k w below in
        let place : w + (w - 1 - k) ≡ w + w - 1 - k = omega arith in
        rw (bit-bit_or k (rev lo * 2 ^ w) (rev hi), bit-shl_low w (rev lo) k kw)
          (mirror hi k hh kw ∙ high (w - 1 - k) (omega arith) ∙ ap (bit x) place)
    | inr above ↦
        let j : w + (k - w) ≡ k = ground arith in
        let small : k - w < w = ground arith in
        let shifted : bit (rev lo * 2 ^ w) k ≡ bit (rev lo) (k - w) =
          ap (bit (rev lo * 2 ^ w)) (sym j) ∙ bit-shl w (rev lo) (k - w) in
        let place : w - 1 - (k - w) ≡ w + w - 1 - k = omega arith in
        rw
          (
            bit-bit_or k (rev lo * 2 ^ w) (rev hi),
            shifted,
            bit_high w k (rev hi) (rev-lt hi hh) (omega arith),
          )
          (or-false (bit (rev lo) (k - w))
            ∙ mirror lo (k - w) hl small
            ∙ low (w - 1 - (k - w)) (omega arith)
            ∙ ap (bit x) place)
  ]

mirror16 : (x k : ℕ) → x < 65536 → k < 16 → bit (bitrev16 x) k ≡ bit x (15 - k)
unfolding bitrev16
mirror16 x k hx hk =
    let lo : ℕ = bit_and x 0xff in
    let hi : ℕ = bit_and x 0xff00 / 2 ^ 8 in
    let hl : lo < 256 = omega (arith, bit_and-le_right 8 x 0xff (omega arith)) in
    let hh : hi < 256 = omega (arith, bit_and-le 16 x 0xff00 hx) in
    let word : bit_or (bitrev lo * 2 ^ 8) (bitrev hi) < 65536 =
      bit_or-lt 16 _ _ (omega (arith, bitrev-lt lo hl)) (omega (arith, bitrev-lt hi hh)) in
    let kept : bit_or (bitrev lo * 2 ^ 8) (bitrev hi) % 65536
        ≡ bit_or (bitrev lo * 2 ^ 8) (bitrev hi) =
      omega arith in
    rw kept (
      mirror_join 8 bitrev bitrev-lt mirror8 x lo hi k hl hh (bit_mask_low 8 x) (bit_mask_high 8 x)
        hk)

bitrev16-lt : (x : ℕ) → bitrev16 x < 65536
unfolding bitrev16
bitrev16-lt x = omega arith

mirror32 : (x k : ℕ) → x < 4294967296 → k < 32 → bit (bitrev32 x) k ≡ bit x (31 - k)
unfolding bitrev32
mirror32 x k hx hk =
    let lo : ℕ = bit_and x 0xffff in
    let hi : ℕ = bit_and x 0xffff0000 / 2 ^ 16 in
    let hl : lo < 65536 = omega (arith, bit_and-le_right 16 x 0xffff (omega arith)) in
    let hh : hi < 65536 = omega (arith, bit_and-le 32 x 0xffff0000 hx) in
    let word : bit_or (bitrev16 lo * 2 ^ 16) (bitrev16 hi) < 4294967296 =
      bit_or-lt 32 _ _ (omega (arith, bitrev16-lt lo)) (omega (arith, bitrev16-lt hi)) in
    let kept : bit_or (bitrev16 lo * 2 ^ 16) (bitrev16 hi) % 4294967296
        ≡ bit_or (bitrev16 lo * 2 ^ 16) (bitrev16 hi) =
      omega arith in
    rw kept (
      mirror_join 16 bitrev16 (λ y _. bitrev16-lt y) mirror16 x lo hi k hl hh (bit_mask_low 16 x)
        (bit_mask_high 16 x) hk)

-- For arguments in their word, bit k of the reversed word is the mirrored bit of the word, at 8, 16
-- and 32 bits.
pub bitrev_mirrors :
    (x y z k : ℕ)
    → x < 2 ^ 8
    → y < 2 ^ 16
    → z < 2 ^ 32
    → (k < 8 → bit (bitrev x) k ≡ bit x (7 - k))
      × (k < 16 → bit (bitrev16 y) k ≡ bit y (15 - k))
      × (k < 32 → bit (bitrev32 z) k ≡ bit z (31 - k))
bitrev_mirrors x y z k hx hy hz = (mirror8 x k hx, mirror16 y k hy, mirror32 z k hz)
