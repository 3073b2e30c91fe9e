-- ===== src/Action/LayerKeys.antt =====
-- ACT_LAYER_TAP of TMK/action.c with OP_ON_OFF, the momentary layer switch, bit by bit.
use ch583_kbd_rtt.Base.{
  ℕ, ◌<◌, ◌≡◌, refl, ap, ◌∙◌, Bool, true, false, not, ◌&&◌, ◌||◌, arith, ◌==◌, if◌then◌else◌,
}
use ch583_kbd_rtt.Base.Bits.{bit}
use ch583_kbd_rtt.Code.{kind_id, layer_tap_code, layer_tap_val}
use ch583_kbd_rtt.Event.{KeyRecord}
use ch583_kbd_rtt.Layer.{layer_on, layer_off}
use ch583_kbd_rtt.Layer.Bits.{layer_ops_bits}
use ch583_kbd_rtt.Keyboard.{Keyboard, Board}
use ch583_kbd_rtt.Action.{act}
use ch583_kbd_rtt.Action.Kinds.{on_layers, act_layer_tap}

-- ACTION_LAYER_MOMENTARY
abbrev pub is_momentary : ℕ → Bool
is_momentary action =
    (kind_id action == 10 || kind_id action == 11) && layer_tap_code action == 0xF1

-- The record with the key down or up.
abbrev pub with_pressed : Bool → KeyRecord → KeyRecord
with_pressed pressed r = record {
  event = record { key = r.event.key; pressed = pressed; time = r.event.time };
  tap = r.tap;
}

momentary_numbers :
    (kind code : ℕ)
    → ((kind == 10 || kind == 11) && code == 0xF1) ≡ true
    → ((kind == 0 || kind == 1) ≡ false)
      × ((kind == 2 || kind == 3) ≡ false)
      × ((kind == 4) ≡ false)
      × ((kind == 5) ≡ false)
      × ((kind == 8) ≡ false)
      × ((kind == 10 || kind == 11) ≡ true)
      × (code ≡ 0xF1)
momentary_numbers kind code h = (
  ground arith,
  ground arith,
  ground arith,
  ground arith,
  ground arith,
  ground arith,
  ground arith,
)

off_again : (x y : Bool) → ((x || y) && not y) ≡ (x && not y)
off_again true true = refl
off_again true false = refl
off_again false true = refl
off_again false false = refl

module _ (b : Board) where
  momentary :
      (action : ℕ) (pressed : Bool) (r : KeyRecord) (k : Keyboard)
      → is_momentary action ≡ true
      → (act b action (with_pressed pressed r) k).0 ≡ (
          if pressed
          then on_layers (layer_on (layer_tap_val action)) k
          else on_layers (layer_off (layer_tap_val action)) k)
  unfolding act act_layer_tap
  momentary action pressed r k h =
      let (a, c, d, e, f, g, code) = momentary_numbers (kind_id action) (layer_tap_code action) h in
      rw (a, c, d, e, f, g, code) refl

  -- For a momentary layer key and a layer below 32: the press turns its layer on and no other, the
  -- release turns it off and no other, and the report and the host are as they were before.
  pub momentary_layer :
      (action i : ℕ) (r : KeyRecord) (k : Keyboard)
      → is_momentary action ≡ true
      → i < 32
      → let down = (act b action (with_pressed true r) k).0 in
        let up = (act b action (with_pressed false r) down).0 in
        let here = layer_tap_val action == i in
        (bit down.layers.layer_state i ≡ (bit k.layers.layer_state i || here))
        × (bit up.layers.layer_state i ≡ (bit k.layers.layer_state i && not here))
        × (up.report ≡ k.report)
        × (up.host ≡ k.host)
  unfolding on_layers
  momentary_layer action i r k h hi =
      let val = layer_tap_val action in
      let small : val < 32 = omega arith in
      let down = on_layers (layer_on val) k in
      let pressed = momentary action true r k h in
      let released = momentary action false r (act b action (with_pressed true r) k).0 h in
      let both = released ∙ ap (on_layers (layer_off val)) pressed in
      let on = (layer_ops_bits val i k.layers small hi).2 in
      let off = (layer_ops_bits val i down.layers small hi).3 in
      (
        ap (λ (x : Keyboard). bit x.layers.layer_state i) pressed ∙ on,
        ap (λ (x : Keyboard). bit x.layers.layer_state i) both
            ∙ off
            ∙ ap (λ (x : Bool). x && not (val == i)) on
            ∙ off_again (bit k.layers.layer_state i) (val == i),
        ap (λ (x : Keyboard). x.report) both,
        ap (λ (x : Keyboard). x.host) both,
      )
