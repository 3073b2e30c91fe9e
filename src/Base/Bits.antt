-- ===== src/Base/Bits.antt =====
-- The binary digits of a number, and what `&`, `|`, `^`, `~` and a shifted one do to them, at
-- every width. The source masks words of 8, 16 and 32 bits with these operations.
pub mod Shift
pub mod Table
use Prim.Native.Nat.{
  ℕ, zero, suc, ◌+◌, ◌-◌, ◌*◌, ◌/◌, ◌%◌, ◌^◌, ◌≤◌, ◌<◌, min, max, differ, digits, bitwise, bit_and,
  bit_or, bit_xor, bit_and-bitwise, bit_or-bitwise, bit_xor-bitwise,
}
use mathlib.Core.Path.{◌≡◌, refl, sym, ap, ◌∙◌}
use mathlib.Core.Logic.{inl, inr}
use mathlib.Core.Bool.{Bool, false, not, ◌&&◌, ◌||◌, xor}
use native.Mathlib.Nat.{
  pow-suc, one-le-pow, mod-lt, mod-eq_of_lt, div-add-mod, add-mul-mod_self_right,
}
use native.Mathlib.Omega.{arith}
use ch583_kbd_rtt.Base.Tests.{◌==◌, ◌!=◌, bool_to_nat, Bool-cases}

-- On digits `differ` is the sum without its carry.
differ-eq-mod : (p q : ℕ) → p < 2 → q < 2 → differ p q ≡ (p + q) % 2
differ-eq-mod zero zero hp hq = refl
differ-eq-mod zero (suc zero) hp hq = refl
differ-eq-mod (suc zero) zero hp hq = refl
differ-eq-mod (suc zero) (suc zero) hp hq = refl
differ-eq-mod (suc (suc p)) q hp hq = absurd (omega arith)
differ-eq-mod zero (suc (suc q)) hp hq = absurd (omega arith)
differ-eq-mod (suc zero) (suc (suc q)) hp hq = absurd (omega arith)

-- The digit of weight `2 ^ k` is one.
unfoldable pub bit : ℕ → ℕ → Bool
bit x zero = (x % 2) == 1
bit x (suc k) = bit (x / 2) k

module _ (base : ℕ → ℕ) (op : ℕ → ℕ → ℕ) where
  -- Any fuel from `a` on gives the same digits.
  enough_digits : (m n a b : ℕ) → a ≤ m → a ≤ n → digits base op m a b ≡ digits base op n a b
  enough_digits zero zero a b hm hn = refl
  enough_digits zero (suc n) zero b hm hn = refl
  enough_digits zero (suc n) (suc a) b hm hn = elim hm [ ]
  enough_digits (suc m) zero zero b hm hn = refl
  enough_digits (suc m) zero (suc a) b hm hn = elim hn [ ]
  enough_digits (suc m) (suc n) zero b hm hn = refl
  enough_digits (suc m) (suc n) (suc a) b hm hn =
      ap (λ t. t * 2 + op (suc a % 2) (b % 2))
        (enough_digits m n (suc a / 2) (b / 2) (omega arith) (omega arith))

  lowest_digit :
      (a b : ℕ)
      → bitwise base op (suc a) b ≡ bitwise base op (suc a / 2) (b / 2) * 2 + op (suc a % 2) (b % 2)
  lowest_digit a b =
      ap (λ t. t * 2 + op (suc a % 2) (b % 2))
        (enough_digits a (suc a / 2) (suc a / 2) (b / 2) (omega arith) (omega arith))

zero-bit_and : (b : ℕ) → bit_and 0 b ≡ 0
zero-bit_and b = bit_and-bitwise 0 b

pub bit_and-digit : (a b : ℕ) → bit_and a b ≡ bit_and (a / 2) (b / 2) * 2 + min (a % 2) (b % 2)
bit_and-digit zero b = simp bit_and-bitwise (omega arith)
bit_and-digit (suc a) b = simp bit_and-bitwise (lowest_digit (λ y. zero) min a b)

bit_or-digit : (a b : ℕ) → bit_or a b ≡ bit_or (a / 2) (b / 2) * 2 + max (a % 2) (b % 2)
bit_or-digit zero b = simp bit_or-bitwise (omega arith)
bit_or-digit (suc a) b = simp bit_or-bitwise (lowest_digit (λ y. y) max a b)

bit_xor-digit : (a b : ℕ) → bit_xor a b ≡ bit_xor (a / 2) (b / 2) * 2 + (a + b) % 2
bit_xor-digit zero b = simp bit_xor-bitwise (omega arith)
bit_xor-digit (suc a) b =
    let digit : differ (suc a % 2) (b % 2) ≡ (suc a % 2 + b % 2) % 2 =
      differ-eq-mod (suc a % 2) (b % 2) (omega arith) (omega arith) in
    let whole : bit_xor (suc a) b ≡ bit_xor (suc a / 2) (b / 2) * 2 + differ (suc a % 2) (b % 2) =
      simp bit_xor-bitwise (lowest_digit (λ y. y) differ a b) in
    omega arith

pub bit-zero : (k : ℕ) → bit 0 k ≡ false
unfolding bit
bit-zero zero = refl
bit-zero (suc k) = bit-zero k

pub bit-bit_and : (k a b : ℕ) → bit (bit_and a b) k ≡ (bit a k && bit b k)
unfolding bit
bit-bit_and zero a b = ground (arith, bit_and-digit a b)
bit-bit_and (suc k) a b =
    let half : bit_and a b / 2 ≡ bit_and (a / 2) (b / 2) = omega (arith, bit_and-digit a b) in
    rw half (bit-bit_and k (a / 2) (b / 2))

pub bit-bit_or : (k a b : ℕ) → bit (bit_or a b) k ≡ (bit a k || bit b k)
unfolding bit
bit-bit_or zero a b = ground (arith, bit_or-digit a b)
bit-bit_or (suc k) a b =
    let half : bit_or a b / 2 ≡ bit_or (a / 2) (b / 2) = omega (arith, bit_or-digit a b) in
    rw half (bit-bit_or k (a / 2) (b / 2))

pub bit-bit_xor : (k a b : ℕ) → bit (bit_xor a b) k ≡ xor (bit a k) (bit b k)
unfolding bit xor
bit-bit_xor zero a b = ground (arith, bit_xor-digit a b)
bit-bit_xor (suc k) a b =
    let half : bit_xor a b / 2 ≡ bit_xor (a / 2) (b / 2) = omega (arith, bit_xor-digit a b) in
    rw half (bit-bit_xor k (a / 2) (b / 2))

-- `1 << i` has one digit.
pub bit-pow : (i k : ℕ) → bit (2 ^ i) k ≡ (i == k)
unfolding bit
bit-pow zero zero = refl
bit-pow zero (suc k) = rw (bit-zero k) (ground arith)
bit-pow (suc i) zero = ground (arith, pow-suc 2 i)
bit-pow (suc i) (suc k) =
    let half : 2 ^ suc i / 2 ≡ 2 ^ i = omega (arith, pow-suc 2 i) in
    rw (half, bit-pow i k) (ground arith)

pub bit-complement : (k w x : ℕ) → x < 2 ^ w → k < w → bit (2 ^ w - 1 - x) k ≡ not (bit x k)
unfolding bit
bit-complement k zero x h kw = absurd (omega arith)
bit-complement zero (suc w) x h kw = ground (arith, pow-suc 2 w)
bit-complement (suc k) (suc w) x h kw =
    let half : (2 ^ suc w - 1 - x) / 2 ≡ 2 ^ w - 1 - x / 2 = omega (arith, pow-suc 2 w) in
    rw half (bit-complement k w (x / 2) (omega (arith, pow-suc 2 w)) (omega arith))

pub bit_high : (w k x : ℕ) → x < 2 ^ w → w ≤ k → bit x k ≡ false
unfolding bit
bit_high zero k x h wk = let e : x ≡ 0 = omega arith in rw e (bit-zero k)
bit_high (suc w) zero x h wk = absurd (omega arith)
bit_high (suc w) (suc k) x h wk = bit_high w k (x / 2) (omega (arith, pow-suc 2 w)) (omega arith)

-- Words of the same width with the same digits are equal.
pub eq_of_bits : (w x y : ℕ) → x < 2 ^ w → y < 2 ^ w → ((k : ℕ) → k < w → bit x k ≡ bit y k) → x ≡ y
unfolding bit
eq_of_bits zero x y hx hy same = omega arith
eq_of_bits (suc w) x y hx hy same =
    let halves : x / 2 ≡ y / 2 =
      eq_of_bits w (x / 2) (y / 2) (omega (arith, pow-suc 2 w)) (omega (arith, pow-suc 2 w))
        (λ k h. same (suc k) (omega arith)) in
    ground (arith, same 0 (omega arith), halves)

-- The operations stay within a width.
pub bit_or-lt : (w a b : ℕ) → a < 2 ^ w → b < 2 ^ w → bit_or a b < 2 ^ w
bit_or-lt zero a b ha hb =
    let ea : a ≡ 0 = omega arith in let eb : b ≡ 0 = omega arith in rw (ea, eb) (omega arith)
bit_or-lt (suc w) a b ha hb = omega (
  arith,
  bit_or-digit a b,
  pow-suc 2 w,
  bit_or-lt w (a / 2) (b / 2) (omega (arith, pow-suc 2 w)) (omega (arith, pow-suc 2 w)),
)

pub bit_xor-lt : (w a b : ℕ) → a < 2 ^ w → b < 2 ^ w → bit_xor a b < 2 ^ w
bit_xor-lt zero a b ha hb =
    let ea : a ≡ 0 = omega arith in let eb : b ≡ 0 = omega arith in rw (ea, eb) (omega arith)
bit_xor-lt (suc w) a b ha hb = omega (
  arith,
  bit_xor-digit a b,
  pow-suc 2 w,
  bit_xor-lt w (a / 2) (b / 2) (omega (arith, pow-suc 2 w)) (omega (arith, pow-suc 2 w)),
)

pub bit_and-le : (w a b : ℕ) → a < 2 ^ w → bit_and a b ≤ a
bit_and-le zero a b ha =
    let ea : a ≡ 0 = omega arith in rw ea (omega (arith, bit_and-digit 0 b, zero-bit_and b))
bit_and-le (suc w) a b ha =
    omega (arith, bit_and-digit a b, bit_and-le w (a / 2) (b / 2) (omega (arith, pow-suc 2 w)))

bit_and-zero : (n a : ℕ) → a ≤ n → bit_and a 0 ≡ 0
bit_and-zero zero a h = let e : a ≡ 0 = omega arith in rw e (zero-bit_and 0)
bit_and-zero (suc n) a h = omega (arith, bit_and-digit a 0, bit_and-zero n (a / 2) (omega arith))

pub bit_and-le_right : (w a b : ℕ) → b < 2 ^ w → bit_and a b ≤ b
bit_and-le_right zero a b hb =
    let eb : b ≡ 0 = omega arith in rw eb (omega (arith, bit_and-zero a a (omega arith)))
bit_and-le_right (suc w) a b hb =
    omega
      (arith, bit_and-digit a b, bit_and-le_right w (a / 2) (b / 2) (omega (arith, pow-suc 2 w)))

mod-double : (a p q : ℕ) → 0 < p → q ≡ 2 * p → a % q ≡ a / 2 % p * 2 + a % 2
mod-double a p q pos e =
    let r : ℕ = a / 2 % p * 2 + a % 2 in
    let rest : a / 2 % p < p = mod-lt (a / 2) pos in
    let small : r < q = omega arith in
    let halves : p * (a / 2 / p) + a / 2 % p ≡ a / 2 = div-add-mod (a / 2) p in
    let turns : a / 2 / p * q ≡ 2 * (p * (a / 2 / p)) = rw e (grind arith) in
    let whole : r + a / 2 / p * q ≡ a = omega arith in
    ap (λ t. t % q) (sym whole) ∙ add-mul-mod_self_right r (a / 2 / p) q ∙ mod-eq_of_lt small

-- A mask of `w` ones is the remainder by `2 ^ w`.
pub bit_and-mask : (w a : ℕ) → bit_and a (2 ^ w - 1) ≡ a % 2 ^ w
bit_and-mask zero a = omega (arith, bit_and-zero a a (omega arith))
bit_and-mask (suc w) a =
    let pos : 0 < 2 ^ w = one-le-pow w 2 (omega arith) in
    let half : (2 ^ suc w - 1) / 2 ≡ 2 ^ w - 1 = omega (arith, pow-suc 2 w) in
    let split : a % 2 ^ suc w ≡ a / 2 % 2 ^ w * 2 + a % 2 =
      mod-double a (2 ^ w) (2 ^ suc w) pos (omega (arith, pow-suc 2 w)) in
    omega (
      arith,
      bit_and-digit a (2 ^ suc w - 1),
      ap (bit_and (a / 2)) half,
      bit_and-mask w (a / 2),
      pow-suc 2 w,
    )

-- A mask of one bit keeps the digit of its place.
bit_and-pow : (i x : ℕ) → bit_and x (2 ^ i) ≡ bool_to_nat (bit x i) * 2 ^ i
unfolding bit
bit_and-pow zero x = ground (arith, bit_and-digit x 1, bit_and-zero (x / 2) (x / 2) (omega arith))
bit_and-pow (suc i) x =
    let half : 2 ^ suc i / 2 ≡ 2 ^ i = omega (arith, pow-suc 2 i) in
    let both : bit_and x (2 ^ suc i) ≡ 2 * (bool_to_nat (bit (x / 2) i) * 2 ^ i) = omega (
      arith,
      bit_and-digit x (2 ^ suc i),
      pow-suc 2 i,
      ap (bit_and (x / 2)) half,
      bit_and-pow i (x / 2),
    ) in
    both ∙ twice_inside (bool_to_nat (bit (x / 2) i)) i
  where
    twice_inside : (t i : ℕ) → 2 * (t * 2 ^ i) ≡ t * 2 ^ suc i
    twice_inside t i = omega (arith, ap (λ (u : ℕ). t * u) (pow-suc 2 i))

-- Testing a word against one bit reads that digit.
pub bit_test : (i x : ℕ) → (bit_and x (2 ^ i) != 0) ≡ bit x i
bit_test i x = elim (Bool-cases (bit x i)) [
  | inl on ↦
      let value : bit_and x (2 ^ i) ≡ 1 * 2 ^ i =
        bit_and-pow i x ∙ ap (λ b. bool_to_nat b * 2 ^ i) on in
      rw on (ground (arith, value, one-le-pow i 2 (omega arith)))
  | inr off ↦
      let value : bit_and x (2 ^ i) ≡ 0 * 2 ^ i =
        bit_and-pow i x ∙ ap (λ b. bool_to_nat b * 2 ^ i) off in
      rw off (ground (arith, value))
]
