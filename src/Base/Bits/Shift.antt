-- ===== src/Base/Bits/Shift.antt =====
-- The binary digits of a shifted word.
use Prim.Native.Nat.{ℕ, zero, suc, ◌+◌, ◌*◌, ◌/◌, ◌^◌, ◌<◌}
use mathlib.Core.Path.{◌≡◌, ap, ◌∙◌}
use mathlib.Core.Bool.{false}
use native.Mathlib.Nat.{pow-suc, div-div-eq-div-mul}
use native.Mathlib.Omega.{arith}
use ch583_kbd_rtt.Base.Bits.{bit}

div-pow-suc : (x n : ℕ) → x / 2 ^ suc n ≡ x / 2 / 2 ^ n
div-pow-suc x n =
    let double : 2 ^ suc n ≡ 2 * 2 ^ n = omega (arith, pow-suc 2 n) in
    rw (double, div-div-eq-div-mul x 2 (2 ^ n))

half-mul-pow-suc : (x n : ℕ) → x * 2 ^ suc n / 2 ≡ x * 2 ^ n
half-mul-pow-suc x n =
    let double : x * 2 ^ suc n ≡ 2 * (x * 2 ^ n) =
      omega (arith, ap (λ (t : ℕ). x * t) (pow-suc 2 n)) in
    omega arith

pub bit-shr : (n x k : ℕ) → bit (x / 2 ^ n) k ≡ bit x (n + k)
unfolding bit
bit-shr zero x k =
    let whole : x / 2 ^ 0 ≡ x = omega arith in
    let same : 0 + k ≡ k = omega arith in rw (whole, same)
bit-shr (suc n) x k =
    let next : suc n + k ≡ suc (n + k) = omega arith in
    rw (div-pow-suc x n, next) (bit-shr n (x / 2) k)

pub bit-shl : (n x k : ℕ) → bit (x * 2 ^ n) (n + k) ≡ bit x k
unfolding bit
bit-shl zero x k =
    let whole : x * 2 ^ 0 ≡ x = omega arith in
    let same : 0 + k ≡ k = omega arith in rw (whole, same)
bit-shl (suc n) x k =
    let next : suc n + k ≡ suc (n + k) = omega arith in
    rw next (ap (λ t. bit t (n + k)) (half-mul-pow-suc x n) ∙ bit-shl n x k)

pub bit-shl_low : (n x k : ℕ) → k < n → bit (x * 2 ^ n) k ≡ false
unfolding bit
bit-shl_low zero x k h = absurd (omega arith)
bit-shl_low (suc n) x zero h =
    ground (arith, pow-suc 2 n, half-mul-pow-suc x n, ap (λ (t : ℕ). x * t) (pow-suc 2 n))
bit-shl_low (suc n) x (suc k) h = rw (half-mul-pow-suc x n) (bit-shl_low n x k (omega arith))
