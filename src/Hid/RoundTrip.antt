-- ===== src/Hid/RoundTrip.antt =====
-- A key stored by one command of the host is reported by another.
use Prim.Native.Nat.{min}
use ch583_kbd_rtt.Base.{
  ℕ, ◌+◌, ◌*◌, ◌/◌, ◌^◌, ◌<◌, ◌≤◌, ◌≡◌, refl, sym, ap, ◌∙◌, ◌≢◌, inl, inr, true, false, List, [],
  ◌∷◌, arith, ltb, leb, ◌==◌, ==_iff, ◌-◌, Bool-cases, get_or, u16, ◌<<<◌, bit_and,
}
use ch583_kbd_rtt.Base.Bits.{bit_and-mask}
use ch583_kbd_rtt.Storage.{
  ok, keymap, Storage, block_size, block, uint16_read, key_index, action_for_key, max_layer,
  matrix_rows, matrix_cols,
}
use ch583_kbd_rtt.Storage.Bounds.{IsValid, written, written-IsValid, write_inside}
use ch583_kbd_rtt.Storage.RoundTrip.{written_bytes}
use ch583_kbd_rtt.Storage.Keymap.{action_for_key-stored, key_index-lt, any_byte_set-true}
use ch583_kbd_rtt.Hid.{
  get_single_key, set_single_key, hid_response_generic, hid_response_success, set_storage,
  store_key, dispatch, uint16_seq, packet, get_single_key_reply, hid_send_data,
}

uint16_seq-of_bytes : (lo hi : ℕ) → lo < 256 → hi < 256 → uint16_seq (lo + hi * 256) ≡ lo ∷ hi ∷ []
uint16_seq-of_bytes lo hi hl hh =
    let low : bit_and (lo + hi * 256) 0xff ≡ lo = omega (arith, bit_and-mask 8 (lo + hi * 256)) in
    let high : bit_and ((lo + hi * 256) / 2 ^ 8) 0xff ≡ hi =
      omega (arith, bit_and-mask 8 ((lo + hi * 256) / 2 ^ 8)) in
    rw (low, high)

-- The store after a key's two bytes are written.
pub with_key : ℕ → ℕ → ℕ → ℕ → ℕ → Storage → Storage
with_key layer row col lo hi s = written keymap (key_index layer row col) 2 (lo ∷ hi ∷ []) s

module _ (layer row col lo hi : ℕ) (s : Storage) (v : IsValid s) (hl : layer < max_layer)
    (hr : row < matrix_rows) (hc : col < matrix_cols) (hlo : lo < 256) (hhi : hi < 256)
    (some_byte : lo + hi ≢ 0) where
  inside : key_index layer row col + 2 ≤ block_size keymap
  inside = omega (arith, key_index-lt layer row col hl hr hc)

  with_key-IsValid : IsValid (with_key layer row col lo hi s)
  unfolding with_key
  with_key-IsValid =
      written-IsValid keymap (key_index layer row col) 2 (lo ∷ hi ∷ []) s v inside (omega arith)

  byte_lo : get_or (with_key layer row col lo hi s).keymap_block (key_index layer row col) 0 ≡ lo
  unfolding with_key block
  byte_lo =
      let i : ℕ = key_index layer row col in
      ground
        (arith, (written_bytes keymap keymap i 2 (lo ∷ hi ∷ []) s i v refl inside (omega arith)).0)

  byte_hi :
      get_or (with_key layer row col lo hi s).keymap_block (key_index layer row col + 1) 0 ≡ hi
  unfolding with_key block
  byte_hi =
      let i : ℕ = key_index layer row col in
      let second : i + 1 - i ≡ 1 = omega arith in
      let from : leb i (i + 1) ≡ true = ground arith in
      let to : ltb (i + 1) (i + 2) ≡ true = ground arith in
      (written_bytes keymap keymap i 2 (lo ∷ hi ∷ []) s (i + 1) v refl inside (omega arith)).0
      ∙ rw (from, to) (ap (λ j. get_or (lo ∷ hi ∷ []) j 0) second)

  is_set : (lo == 0) ≡ false → lo ≢ 0
  is_set h e = cc ((==_iff lo 0).1 e)

  -- One of the two bytes is set, so the key map counts as present.
  now_present : (with_key layer row col lo hi s).keymap_valid ≡ true
  now_present =
      let i : ℕ = key_index layer row col in
      let block' : List ℕ = (with_key layer row col lo hi s).keymap_block in
      let end : i + 2 ≤ 1120 = unfold block_size in inside in
      with_key-IsValid.flag ∙ elim (Bool-cases (lo == 0)) [
        | inl no_lo ↦
            let zero_lo : lo ≡ 0 = (==_iff lo 0).0 no_lo in
            any_byte_set-true 1120 0 (i + 1) block' (omega arith) (omega arith)
              (λ e. some_byte (omega (arith, byte_hi, e)))
        | inr is_lo ↦
            any_byte_set-true 1120 0 i block' (omega arith) (omega arith)
              (λ e. is_set is_lo (sym byte_lo ∙ e))
      ]

  pub stored :
      (maps : List (List (List ℕ)))
      → action_for_key maps layer row col (with_key layer row col lo hi s) ≡ ok (lo + hi * 256)
  stored maps =
      action_for_key-stored maps layer row col (with_key layer row col lo hi s) with_key-IsValid
        now_present hl hr hc
      ∙ ap ok (rw (byte_lo, byte_hi) (omega arith))

  -- In a valid store, SET_SINGLE_KEY of a key of the eight layers, with a code that is not zero,
  -- succeeds, and GET_SINGLE_KEY then reports the same two bytes and changes nothing.
  pub get-set_single_key :
      (maps : List (List (List ℕ))) (info rest : List ℕ)
      → let s' = with_key layer row col lo hi s in
        (dispatch set_single_key maps info 5 (layer ∷ row ∷ col ∷ lo ∷ hi ∷ rest) s
          ≡ ok (s', packet (0x3f ∷ 1 ∷ 0 ∷ []) ∷ []))
        × (dispatch get_single_key maps info 3 (layer ∷ row ∷ col ∷ rest) s'
            ≡ ok (s', packet (0x3f ∷ 2 ∷ lo ∷ hi ∷ []) ∷ []))
  unfolding dispatch hid_send_data with_key get_single_key_reply hid_response_success
      hid_response_generic store_key set_storage uint16_read
  get-set_single_key maps info rest =
      let word : lo + u16 (hi <<< 8) ≡ lo + hi * 256 = omega arith in
      let i : ℕ = key_index layer row col in
      let fits : min 2 (block_size keymap - i) ≡ 2 = omega (arith, inside) in
      (
        rw (word, uint16_seq-of_bytes lo hi hlo hhi)
            (rw (
              write_inside keymap i 2 (lo ∷ hi ∷ []) s v refl (omega (arith, inside)) (omega arith),
              fits,
            )),
        rw (stored maps) (rw (uint16_seq-of_bytes lo hi hlo hhi)),
      )
