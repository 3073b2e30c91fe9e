-- ===== src/UsbDevice/Chunks.antt =====
-- A list cut into packets of at most 64 bytes.
use Prim.Native.Nat.{min}
use ch583_kbd_rtt.Base.{
  ℕ, zero, suc, ◌+◌, ◌-◌, ◌*◌, ◌≤◌, ◌≡◌, refl, sym, ap, ◌∙◌, arith, List, [], ◌∷◌, ◌++◌, length,
  take, drop,
}
use ch583_kbd_rtt.UsbDevice.{packet_len}

take_nil : (n : ℕ) → take {A = ℕ} n [] ≡ []
take_nil zero = refl
take_nil (suc n) = refl

take_all : (n : ℕ) (xs : List ℕ) → length xs ≤ n → take n xs ≡ xs
take_all zero [] h = refl
take_all zero (x ∷ xs) h = absurd (omega arith)
take_all (suc n) [] h = refl
take_all (suc n) (x ∷ xs) h = ap (λ (ys : List ℕ). x ∷ ys) (take_all n xs (omega arith))

pub length-take_le : (n : ℕ) (xs : List ℕ) → n ≤ length xs → length (take n xs) ≡ n
length-take_le zero xs h = refl
length-take_le (suc n) [] h = absurd (omega arith)
length-take_le (suc n) (x ∷ xs) h = ap suc (length-take_le n xs (omega arith))

pub take-append_left : (n : ℕ) (xs ys : List ℕ) → length xs ≡ n → take n (xs ++ ys) ≡ xs
take-append_left zero [] ys h = refl
take-append_left zero (x ∷ xs) ys h = absurd (omega (arith, h))
take-append_left (suc n) [] ys h = absurd (omega (arith, h))
take-append_left (suc n) (x ∷ xs) ys h =
    ap (λ (zs : List ℕ). x ∷ zs) (take-append_left n xs ys (omega (arith, h)))

take_split : (a b : ℕ) (xs : List ℕ) → take a xs ++ take b (drop a xs) ≡ take (a + b) xs
take_split zero b xs = let e : b ≡ 0 + b = omega arith in ap (λ n. take n xs) e
take_split (suc a) b [] = take_nil b ∙ sym (take_nil (suc a + b))
take_split (suc a) b (x ∷ xs) =
    let e : suc (a + b) ≡ suc a + b = omega arith in
    ap (λ (ys : List ℕ). x ∷ ys) (take_split a b xs) ∙ ap (λ n. take n (x ∷ xs)) e

take-take : (a b : ℕ) (xs : List ℕ) → take a (take b xs) ≡ take (min a b) xs
take-take zero b xs = let e : 0 ≡ min 0 b = omega arith in ap (λ n. take n xs) e
take-take (suc a) zero xs = let e : 0 ≡ min (suc a) 0 = omega arith in ap (λ n. take n xs) e
take-take (suc a) (suc b) [] = sym (take_nil (min (suc a) (suc b)))
take-take (suc a) (suc b) (x ∷ xs) =
    let e : suc (min a b) ≡ min (suc a) (suc b) = omega arith in
    ap (λ (ys : List ℕ). x ∷ ys) (take-take a b xs) ∙ ap (λ n. take n (x ∷ xs)) e

-- The packet of 64 bytes, or of all that is left, and what follows it.
pub chunk :
    (k n : ℕ) (xs : List ℕ)
    → take (packet_len n) xs ++ take (64 * k) (take (n - packet_len n) (drop (packet_len n) xs))
      ≡ take (64 * suc k) (take n xs)
chunk k n xs =
    let m = packet_len n in
    let e : m + min (64 * k) (n - m) ≡ min (64 * suc k) n = ground arith in
    ap (λ (ys : List ℕ). take m xs ++ ys) (take-take (64 * k) (n - m) (drop m xs))
    ∙ take_split m (min (64 * k) (n - m)) xs
    ∙ ap (λ i. take i xs) e
    ∙ sym (take-take (64 * suc k) n xs)

pub take_shorter : (n : ℕ) (xs : List ℕ) → take (min (length xs) n) xs ≡ take n xs
take_shorter n [] = take_nil (min 0 n) ∙ sym (take_nil n)
take_shorter zero (x ∷ xs) =
    let e : min (suc (length xs)) 0 ≡ 0 = omega arith in ap (λ i. take i (x ∷ xs)) e
take_shorter (suc n) (x ∷ xs) =
    let e : min (suc (length xs)) (suc n) ≡ suc (min (length xs) n) = omega arith in
    ap (λ i. take i (x ∷ xs)) e ∙ ap (λ (ys : List ℕ). x ∷ ys) (take_shorter n xs)
