-- ===== src/Util/High.antt =====
-- The highest bit found by the `biton` functions of TMK/util.c.
use native.Mathlib.Nat.{pow-suc, one-le-pow, div-div-eq-div-mul}
use ch583_kbd_rtt.Base.{
  ℕ, zero, suc, ◌+◌, ◌*◌, ◌/◌, ◌^◌, ◌≤◌, ◌<◌, ◌≡◌, ap, ◌∙◌, inl, inr, false, arith, ◌!=◌,
  Bool-cases, ◌>>>◌, u8,
}
use ch583_kbd_rtt.Util.{Search, halve, start, biton, biton16, biton32}

-- What every line of the search keeps: `bits` is the word shifted by `n`, which is at most `m`,
-- and is neither zero nor as large as `bound`.
record Searching (x bound m : ℕ) (s : Search) : Type 0 where
  shifted : x / 2 ^ s.n ≡ s.bits
  positive : 0 < s.bits
  below : s.bits < bound
  near : s.n ≤ m

pow-add : (a b : ℕ) → 2 ^ (a + b) ≡ 2 ^ a * 2 ^ b
pow-add zero b = omega (arith, ap (λ (t : ℕ). 2 ^ t) (zero_plus b))
  where
    zero_plus : (b : ℕ) → 0 + b ≡ b
    zero_plus b = omega arith
pow-add (suc a) b =
    let next : suc a + b ≡ suc (a + b) = omega arith in
    rw next (grind (arith, pow-suc 2 (a + b), pow-suc 2 a, pow-add a b))

div-pow-add : (x a b : ℕ) → x / 2 ^ (a + b) ≡ x / 2 ^ a / 2 ^ b
div-pow-add x a b = rw (pow-add a b, div-div-eq-div-mul x (2 ^ a) (2 ^ b))

quotient_small : (p b : ℕ) → 0 < p → b < p * p → b / p < p
quotient_small p b pos h = grind arith

no_quotient : (p b : ℕ) → 0 < p → (b / p != 0) ≡ false → b < p
no_quotient p b pos h = grind arith

halve-Searching :
    (k m x : ℕ) {s : Search}
    → m + k < 256
    → Searching x (2 ^ k * 2 ^ k) m s
    → Searching x (2 ^ k) (m + k) (halve k s)
unfolding halve
halve-Searching k m x {s} room h = elim (Bool-cases (s.bits >>> k != 0)) [
  | inl some_bit ↦
      let moved : u8 (s.n + k) ≡ s.n + k = omega (arith, h.near) in
      let word : x / 2 ^ (s.n + k) ≡ s.bits / 2 ^ k =
        div-pow-add x s.n k ∙ ap (λ t. t / 2 ^ k) h.shifted in
      rw (some_bit, moved)
        (record {
          shifted = word;
          positive = ground arith;
          below = quotient_small (2 ^ k) s.bits (one-le-pow k 2 (omega arith)) h.below;
          near = omega (arith, h.near);
        })
  | inr no_bit ↦ rw no_bit (record {
    shifted = h.shifted;
    positive = h.positive;
    below = no_quotient (2 ^ k) s.bits (one-le-pow k 2 (omega arith)) no_bit;
    near = omega (arith, h.near);
  })
]

start-Searching : (x bound : ℕ) → 0 < x → x < bound → Searching x bound 0 (start x)
start-Searching x bound pos small = record {
  shifted = omega arith;
  positive = pos;
  below = small;
  near = omega arith;
}

-- With one bit left, `n` is its place.
found : {x m : ℕ} {s : Search} → Searching x 2 m s → x >>> s.n ≡ 1
found h = omega (arith, h.shifted, h.positive, h.below)

-- For a nonzero argument in its word, shifting it right by the result leaves 1: the result is the
-- place of its highest bit.
pub biton_highest :
    (x y z : ℕ)
    → 0 < x
    → x < 2 ^ 8
    → 0 < y
    → y < 2 ^ 16
    → 0 < z
    → z < 2 ^ 32
    → (x >>> biton x ≡ 1) × (y >>> biton16 y ≡ 1) × (z >>> biton32 z ≡ 1)
unfolding biton biton16 biton32
biton_highest x y z px hx py hy pz hz = (
  found (from4 (omega arith) (start-Searching x 256 px hx)),
  found (from4 (omega arith) (halve-Searching 8 0 y (omega arith) (start-Searching y 65536 py hy))),
  found (
      from4 (omega arith) (
        halve-Searching 8 16 z (omega arith)
          (halve-Searching 16 0 z (omega arith) (start-Searching z 4294967296 pz hz)))),
)
  where
    from4 :
        {w m : ℕ} {s : Search}
        → m + 7 < 256
        → Searching w 256 m s
        → Searching w 2 (m + 4 + 2 + 1) (halve 1 (halve 2 (halve 4 s)))
    from4 {w} {m} room h =
        halve-Searching 1 (m + 4 + 2) w (omega arith)
          (halve-Searching 2 (m + 4) w (omega arith) (halve-Searching 4 m w (omega arith) h))
