-- ===== src/Util/Pop.antt =====
-- The population counts of TMK/util.c against a count of the binary digits.
use mathlib.Core.Path.{ap}
use native.Mathlib.Nat.{pow-suc}
use ch583_kbd_rtt.Base.{
  ℕ, zero, suc, ◌+◌, ◌-◌, ◌*◌, ◌/◌, ◌%◌, ◌^◌, ◌≤◌, ◌<◌, bit_and, ◌≡◌, refl, ◌∙◌, some, inl, inr,
  arith, ◌==◌, Bool-cases, ==_iff, u8,
}
use ch583_kbd_rtt.Base.Bits.{bit_and-digit, bit_and-le}
use ch583_kbd_rtt.Util.{bitpop_loop, bitpop, bitpop16, bitpop32}

-- The number of ones among the `w` lowest binary digits.
unfoldable pub ones : ℕ → ℕ → ℕ
ones zero x = 0
ones (suc w) x = x % 2 + ones w (x / 2)

bit_and_self : (w x : ℕ) → x < 2 ^ w → bit_and x x ≡ x
bit_and_self zero x h = let e : x ≡ 0 = omega arith in rw e
bit_and_self (suc w) x h =
    omega (arith, bit_and-digit x x, bit_and_self w (x / 2) (omega (arith, pow-suc 2 w)))

ones-double : (w y : ℕ) → ones (suc w) (y * 2) ≡ ones w y
unfolding ones
ones-double w y =
    let half : y * 2 / 2 ≡ y = omega arith in
    let digit : y * 2 % 2 ≡ 0 = omega arith in rw (half, digit) (omega arith)

-- `x & (x - 1)` loses exactly one of the ones.
ones-clear_lowest : (w x : ℕ) → 0 < x → x < 2 ^ w → ones w (bit_and x (x - 1)) + 1 ≡ ones w x
unfolding ones
ones-clear_lowest zero x pos h = absurd (omega arith)
ones-clear_lowest (suc w) x pos h = elim (Bool-cases (x % 2 == 1)) [
  | inl odd ↦
      let one : x % 2 ≡ 1 = (==_iff _ _).0 odd in
      let down : (x - 1) / 2 ≡ x / 2 = omega arith in
      let digits : bit_and x (x - 1) ≡ x / 2 * 2 =
        omega (arith, bit_and-digit x (x - 1), ap (bit_and (x / 2)) down, same) in
      rw digits (omega (arith, ones-double w (x / 2)))
  | inr even ↦
      let zero_left : x % 2 ≡ 0 = ground arith in
      let down : (x - 1) / 2 ≡ x / 2 - 1 = omega arith in
      let digits : bit_and x (x - 1) ≡ bit_and (x / 2) (x / 2 - 1) * 2 =
        omega (arith, bit_and-digit x (x - 1), ap (bit_and (x / 2)) down) in
      rw digits (
        omega (
          arith,
          ones-double w (bit_and (x / 2) (x / 2 - 1)),
          ones-clear_lowest w (x / 2) (omega arith) half_small,
        ))
]
  where
    half_small : x / 2 < 2 ^ w
    half_small = omega (arith, pow-suc 2 w)

    same : bit_and (x / 2) (x / 2) ≡ x / 2
    same = bit_and_self w (x / 2) half_small

ones-zero : (w : ℕ) → ones w 0 ≡ 0
unfolding ones
ones-zero zero = refl
ones-zero (suc w) = omega (arith, ones-zero w)

ones-pos : (w x : ℕ) → 0 < x → x < 2 ^ w → 0 < ones w x
ones-pos w x pos h = omega (arith, ones-clear_lowest w x pos h)

ones-le : (w x : ℕ) → ones w x ≤ w
unfolding ones
ones-le zero x = omega arith
ones-le (suc w) x = omega (arith, ones-le w (x / 2))

-- The loop ends within its fuel and has counted the ones.
bitpop_loop-eq-ones :
    (w fuel x c : ℕ)
    → x < 2 ^ w
    → c + ones w x < 256
    → ones w x < fuel
    → bitpop_loop fuel x c ≡ some (c + ones w x)
unfolding bitpop_loop
bitpop_loop-eq-ones w zero x c h byte enough = absurd (omega arith)
bitpop_loop-eq-ones w (suc fuel) x c h byte enough = elim (Bool-cases (x == 0)) [
  | inl done ↦
      let empty : x ≡ 0 = (==_iff _ _).0 done in
      rw done (ap some (omega (arith, ap (ones w) empty, ones-zero w)))
  | inr more ↦
      let pos : 0 < x = ground arith in
      let fewer : ones w (bit_and x (x - 1)) + 1 ≡ ones w x = ones-clear_lowest w x pos h in
      let kept : u8 (c + 1) ≡ c + 1 = omega arith in
      let small : bit_and x (x - 1) < 2 ^ w = omega (arith, bit_and-le w x (x - 1) h) in
      let total : c + 1 + ones w (bit_and x (x - 1)) ≡ c + ones w x = omega arith in
      rw (more, kept)
        (bitpop_loop-eq-ones w fuel (bit_and x (x - 1)) (c + 1) small (omega arith) (omega arith)
          ∙ ap some total)
]

-- For arguments in their word, the three loops end and return the number of bits set.
pub bitpop_counts :
    (x y z : ℕ)
    → x < 2 ^ 8
    → y < 2 ^ 16
    → z < 2 ^ 32
    → (bitpop x ≡ some (ones 8 x))
      × (bitpop16 y ≡ some (ones 16 y))
      × (bitpop32 z ≡ some (ones 32 z))
unfolding bitpop bitpop16 bitpop32
bitpop_counts x y z hx hy hz =
    (count 8 x hx (omega arith), count 16 y hy (omega arith), count 32 z hz (omega arith))
  where
    count : (w v : ℕ) → v < 2 ^ w → w ≤ 32 → bitpop_loop (suc w) v 0 ≡ some (ones w v)
    count w v h small =
        bitpop_loop-eq-ones w (suc w) v 0 h (omega (arith, ones-le w v))
          (omega (arith, ones-le w v))
        ∙ ap some (omega arith)
