-- ===== src/Layer/Bits.antt =====
-- The layer operations of TMK/action_layer.c, layer by layer.
use mathlib.Core.Bool.{xor}
use ch583_kbd_rtt.Base.{
  ℕ, ◌^◌, ◌<◌, ◌≡◌, refl, ap, ◌∙◌, true, false, not, ◌&&◌, ◌||◌, arith, ◌==◌, ==_iff,
}
use ch583_kbd_rtt.Base.Bits.{
  bit, bit-zero, bit-bit_and, bit-bit_or, bit-bit_xor, bit-pow, bit-complement,
}
use ch583_kbd_rtt.Base.Bits.Table.{check_below, check_below_sound}
use ch583_kbd_rtt.Layer.{
  Layers, one_bit, layer_clear, layer_move, layer_on, layer_off, layer_invert,
}

one_bit_table : check_below 32 (λ i. one_bit i == 2 ^ i) ≡ true
unfolding check_below
one_bit_table = refl

pub one_bit-eq-pow : (i : ℕ) → i < 32 → one_bit i ≡ 2 ^ i
one_bit-eq-pow i h =
    (==_iff _ _).0 (check_below_sound 32 (λ j. one_bit j == 2 ^ j) i one_bit_table h)

bit-one_bit : (i k : ℕ) → i < 32 → bit (one_bit i) k ≡ (i == k)
bit-one_bit i k h = ap (λ t. bit t k) (one_bit-eq-pow i h) ∙ bit-pow i k

-- For a layer and a bit below 32: each layer operation bit by bit.
pub layer_ops_bits :
    (layer k : ℕ) (s : Layers)
    → layer < 32
    → k < 32
    → (bit (layer_clear s).layer_state k ≡ false)
      × (bit (layer_move layer s).layer_state k ≡ (layer == k))
      × (bit (layer_on layer s).layer_state k ≡ (bit s.layer_state k || layer == k))
      × (bit (layer_off layer s).layer_state k ≡ (bit s.layer_state k && not (layer == k)))
      × (bit (layer_invert layer s).layer_state k ≡ xor (bit s.layer_state k) (layer == k))
unfolding layer_clear layer_move layer_on layer_off layer_invert
layer_ops_bits layer k s hl hk =
    let here : bit (one_bit layer) k ≡ (layer == k) = bit-one_bit layer k hl in
    (
      bit-zero k,
      here,
      rw (bit-bit_or k s.layer_state (one_bit layer), here),
      rw (
        bit-bit_and k s.layer_state _,
        bit-complement k 32 (one_bit layer) (omega arith) hk,
        here,
      ),
      rw (bit-bit_xor k s.layer_state (one_bit layer), here),
    )
