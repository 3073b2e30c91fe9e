-- ===== src/Storage/Keymap.antt =====
-- The key map in its block: which keys can be read, and that a stored key is found.
use ch583_kbd_rtt.Base.{
  ℕ, zero, suc, ◌+◌, ◌≤◌, ◌<◌, ◌≡◌, refl, ◌≢◌, inl, inr, Bool, true, false, ◌||◌, List, [], ◌∷◌,
  arith, leb, ◌==◌, ◌!=◌, ==_iff, Bool-cases, if◌then◌else◌, length, get_or, u16, ◌<<<◌,
}
use ch583_kbd_rtt.Storage.{
  ok, fault, keymap, Storage, keymap_layer_size, max_layer, matrix_rows, matrix_cols, any_byte_set,
  block_size, block, at, uint16_read, key_index, action_for_key,
}
use ch583_kbd_rtt.Storage.Bounds.{IsValid}

at-eq_get_or : (xs : List ℕ) (i : ℕ) → i < length xs → at xs i ≡ ok (get_or xs i 0)
at-eq_get_or [] i h = absurd (omega arith)
at-eq_get_or (x ∷ xs) zero h = refl
at-eq_get_or (x ∷ xs) (suc i) h = at-eq_get_or xs i (omega arith)

at_beyond : (xs : List ℕ) (i : ℕ) → length xs ≤ i → at xs i ≡ fault
at_beyond [] i h = refl
at_beyond (x ∷ xs) zero h = absurd (omega arith)
at_beyond (x ∷ xs) (suc i) h = at_beyond xs i (omega arith)

if_same : (b : Bool) → (if b then true else true) ≡ true
if_same true = refl
if_same false = refl

-- The loop of `check_keymap` finds a byte that is set.
pub any_byte_set-true :
    (left i j : ℕ) (bytes : List ℕ)
    → i ≤ j
    → j < i + left
    → get_or bytes j 0 ≢ 0
    → any_byte_set left i bytes ≡ true
unfolding any_byte_set
any_byte_set-true zero i j bytes from to set = absurd (omega arith)
any_byte_set-true (suc left) i j bytes from to set = elim (Bool-cases (i == j)) [
  | inl here ↦
      let e : i ≡ j = (==_iff i j).0 here in
      let nonzero : (get_or bytes i 0 != 0) ≡ true = rw e (ground arith) in rw nonzero
  | inr later ↦
      let found : any_byte_set left (i + 1) bytes ≡ true =
        any_byte_set-true left (i + 1) j bytes (ground arith) (omega arith) set in
      rw found (if_same (get_or bytes i 0 != 0))
]

uint16_read-eq :
    (bytes : List ℕ) (i : ℕ)
    → i + 1 < length bytes
    → uint16_read bytes i ≡ ok (get_or bytes i 0 + u16 (get_or bytes (i + 1) 0 <<< 8))
unfolding uint16_read
uint16_read-eq bytes i h = rw (at-eq_get_or bytes i (omega arith), at-eq_get_or bytes (i + 1) h)

-- A key of the first eight layers lies in the block.
pub key_index-lt :
    (layer row col : ℕ)
    → layer < max_layer
    → row < matrix_rows
    → col < matrix_cols
    → key_index layer row col + 1 < block_size keymap
unfolding block_size
key_index-lt layer row col hl hr hc = omega arith

-- The guard of `action_for_key` lets every key of the board's matrix through, at these layers.
guard_open :
    (layer row col : ℕ)
    → layer < keymap_layer_size
    → row < matrix_rows
    → col < matrix_cols
    → (leb keymap_layer_size layer || leb matrix_cols col || leb matrix_rows row) ≡ false
guard_open layer row col hl hr hc = ground arith

-- In a valid store with a key map, a key of the eight layers is the little-endian word at its
-- place.
pub action_for_key-stored :
    (maps : List (List (List ℕ))) (layer row col : ℕ) (s : Storage)
    → IsValid s
    → s.keymap_valid ≡ true
    → layer < max_layer
    → row < matrix_rows
    → col < matrix_cols
    → let i = key_index layer row col in
      action_for_key maps layer row col s
      ≡ ok (u16 (get_or s.keymap_block i 0 + u16 (get_or s.keymap_block (i + 1) 0 <<< 8)))
unfolding action_for_key
action_for_key-stored maps layer row col s v valid hl hr hc =
    let size : length s.keymap_block ≡ block_size keymap = unfold block in v.sizes keymap in
    rw (guard_open layer row col (omega arith) hr hc, valid)
      (rw (
        uint16_read-eq s.keymap_block (key_index layer row col)
          (omega (arith, key_index-lt layer row col hl hr hc))))

-- In a valid store with a key map, a key at a layer from 8 to 139 is read past the end of the
-- block: the guard compares the layer with the size of a layer in bytes.
pub action_for_key-overrun :
    (maps : List (List (List ℕ))) (layer row col : ℕ) (s : Storage)
    → IsValid s
    → s.keymap_valid ≡ true
    → max_layer ≤ layer
    → layer < keymap_layer_size
    → row < matrix_rows
    → col < matrix_cols
    → action_for_key maps layer row col s ≡ fault
unfolding action_for_key uint16_read
action_for_key-overrun maps layer row col s v valid low high hr hc =
    let size : length s.keymap_block ≡ block_size keymap = unfold block in v.sizes keymap in
    let past : length s.keymap_block ≤ key_index layer row col =
      unfold block_size in omega (arith, size) in
    rw (guard_open layer row col high hr hc, valid)
      (rw (at_beyond s.keymap_block (key_index layer row col) past))
