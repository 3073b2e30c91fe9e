-- ===== src/Layer/Select.antt =====
-- Which layer `current_layer_for_key` chooses.
use ch583_kbd_rtt.Base.{
  ℕ, zero, suc, ◌<◌, ◌≤◌, ◌≡◌, refl, ap, ◌∙◌, ◌⊎◌, inl, inr, Bool, true, false, ◌&&◌, ◌||◌, arith,
  ◌!=◌, ◌==◌, ==_iff, bit_or, bit_and, Bool-cases,
}
use ch583_kbd_rtt.Base.Bits.{bit, bit_test, bit-bit_or}
use ch583_kbd_rtt.Event.{KeyPos}
use ch583_kbd_rtt.Layer.{
  Layers, KeymapReader, one_bit, action_transparent, top_layer, current_layer_for_key,
}
use ch583_kbd_rtt.Layer.Bits.{one_bit-eq-pow}

module _ (action_for_key : KeymapReader) (key : KeyPos) where
  -- Layer `i` is on, and has something at the key.
  pub holds : Layers → ℕ → Bool
  holds s i =
      (bit s.layer_state i || bit s.default_layer_state i)
      && action_for_key i key.row key.col != action_transparent

  abbrev guard : ℕ → ℕ → Bool
  guard layers i =
      bit_and layers (one_bit i) != 0 && action_for_key i key.row key.col != action_transparent

  guard-eq-holds :
      (s : Layers) (i : ℕ)
      → i < 32
      → guard (bit_or s.layer_state s.default_layer_state) i ≡ holds s i
  unfolding holds
  guard-eq-holds s i h =
      let test : (bit_and (bit_or s.layer_state s.default_layer_state) (one_bit i) != 0)
          ≡ (bit s.layer_state i || bit s.default_layer_state i) =
        ap (λ m. bit_and (bit_or s.layer_state s.default_layer_state) m != 0) (one_bit-eq-pow i h)
        ∙ bit_test i (bit_or s.layer_state s.default_layer_state)
        ∙ bit-bit_or i s.layer_state s.default_layer_state in
      ap (λ b. b && action_for_key i key.row key.col != action_transparent) test

  -- `r` is the highest of the layers below `n` that hold, or 0 if none does.
  pub record IsTop (s : Layers) (n r : ℕ) : Type 0 where
    pub chosen : (holds s r ≡ true) ⊎ ((r ≡ 0) × ((i : ℕ) → i < n → holds s i ≡ false))
    pub above : (i : ℕ) → r < i → i < n → holds s i ≡ false

  extend : (n : ℕ) (s : Layers) {r : ℕ} → IsTop s n r → holds s n ≡ false → IsTop s (suc n) r
  extend n s {r} top off = record {
    chosen = widen top.chosen;
    above = λ i up lt. at_or_below i lt (λ below. top.above i up below);
  }
    where
      at_or_below : (i : ℕ) → i < suc n → (i < n → holds s i ≡ false) → holds s i ≡ false
      at_or_below i lt before = elim (Bool-cases (i == n)) [
        | inl last ↦ ap (holds s) ((==_iff i n).0 last) ∙ off
        | inr other ↦ before (ground arith)
      ]

      widen :
          (holds s r ≡ true) ⊎ ((r ≡ 0) × ((i : ℕ) → i < n → holds s i ≡ false))
          → (holds s r ≡ true) ⊎ ((r ≡ 0) × ((i : ℕ) → i < suc n → holds s i ≡ false))
      widen (inl on) = inl on
      widen (inr (zero_r, none_on)) = inr (zero_r, λ i lt. at_or_below i lt (none_on i))

  top_layer-IsTop :
      (n : ℕ) (s : Layers)
      → n ≤ 32
      → IsTop s n (top_layer action_for_key n (bit_or s.layer_state s.default_layer_state) key)
  unfolding top_layer
  top_layer-IsTop zero s h = record {
    chosen = inr (refl, λ i lt. elim lt [ ]);
    above = λ i up lt. elim lt [ ];
  }
  top_layer-IsTop (suc n) s h = elim (Bool-cases (holds s n)) [
    | inl on ↦
        rw (guard-eq-holds s n (omega arith) ∙ on)
          (record { chosen = inl on; above = λ i up lt. absurd (omega arith) })
    | inr off ↦
        rw (guard-eq-holds s n (omega arith) ∙ off)
          (extend n s (top_layer-IsTop n s (omega arith)) off)
  ]

  -- The layer for a key is the highest layer, of the 32, that is on and has something at the key;
  -- it is layer 0 if there is none.
  pub current_layer_for_key-IsTop :
      (s : Layers) → IsTop s 32 (current_layer_for_key action_for_key key s)
  unfolding current_layer_for_key
  current_layer_for_key-IsTop s = top_layer-IsTop 32 s (omega arith)
