-- ===== src/Storage.antt =====
-- DRIVERS/eeprom/eeprom.c and eeprom.h: the blocks of RAM behind the configuration, and the key
-- map that they hold. KEYMAP_STORAGE, MACRO_STORAGE and CONFIG_STORAGE are defined by
-- keyboard/zora61/config.h, ENCODER_ENABLED is not, so STORAGE_ENCODER has no block.
pub mod Bounds
pub mod RoundTrip
pub mod Keymap
pub mod Flash
use ch583_kbd_rtt.Base.{
  ◌≡◌, refl, ℕ, zero, suc, ◌+◌, ◌-◌, ◌*◌, ◌/◌, Bool, true, false, ◌||◌, List, [], ◌∷◌, ◌++◌, ltb,
  leb, ◌!=◌, if◌then◌else◌, length, get_or, take, drop, u8, u16, bit_and, bit_or, ◌<<<◌,
}

-- `fault` is an access outside an array, which C leaves undefined.
pub data Access {ℓ} (A : Type ℓ) : Type ℓ where
  ok : A → Access A
  fault : Access A

infixl 5 ◌>>=◌
abbrev pub ◌>>=◌ {ℓ κ} : {A : Type ℓ} {B : Type κ} → Access A → (A → Access B) → Access B
ok a >>= f = f a
fault >>= f = fault

-- Inversion of a bind that returned.
pub >>=-eq_ok {ℓ κ} :
    {A : Type ℓ} {B : Type κ} (m : Access A) (f : A → Access B) {b : B}
    → (m >>= f) ≡ ok b
    → (a : A) × (m ≡ ok a) × (f a ≡ ok b)
>>=-eq_ok (ok a) f h = (a, refl, h)
>>=-eq_ok fault f h = cc

abbrev pub matrix_rows : ℕ
matrix_rows = 5

abbrev pub matrix_cols : ℕ
matrix_cols = 14

abbrev pub max_layer : ℕ
max_layer = 8

abbrev pub max_macro_size : ℕ
max_macro_size = 1024

abbrev pub single_key_size : ℕ
single_key_size = 2

abbrev pub keymap_row_size : ℕ
keymap_row_size = matrix_cols * single_key_size

abbrev pub keymap_layer_size : ℕ
keymap_layer_size = matrix_rows * keymap_row_size

-- `GET_WORD`
abbrev pub get_word : ℕ → ℕ
get_word i = (i + 3) / 4

abbrev pub keymap_size : ℕ
keymap_size = get_word (keymap_layer_size * max_layer) * 4

abbrev pub macro_block_size : ℕ
macro_block_size = get_word max_macro_size * 4

abbrev pub config_block_size : ℕ
config_block_size = 6 * 4

pub data StorageType : Type 0 where
  keymap macro config encoder : StorageType

-- The blocks and `keymap_valid`.
pub record Storage : Type 0 where
  pub keymap_block : List ℕ
  pub macro_block : List ℕ
  pub config_block : List ℕ
  pub keymap_valid : Bool

-- The loop of `check_keymap` from index `i`, with `left` rounds to go; it stops at a byte set.
unfoldable pub any_byte_set : ℕ → ℕ → List ℕ → Bool
any_byte_set zero i block = false
any_byte_set (suc left) i block =
    let rest = any_byte_set left (i + 1) block in if get_or block i 0 != 0 then true else rest

unfoldable pub check_keymap : Storage → Storage
check_keymap s = record s {
  keymap_valid = any_byte_set (keymap_layer_size * max_layer) 0 s.keymap_block;
}

-- The size that `storage_get_data_pointer` returns, and the block behind its pointer; the block of
-- an unsupported type is `[]`, for the null pointer.
unfoldable pub block_size : StorageType → ℕ
block_size keymap = keymap_size
block_size macro = macro_block_size
block_size config = config_block_size
block_size encoder = 0

unfoldable pub block : StorageType → Storage → List ℕ
block keymap s = s.keymap_block
block macro s = s.macro_block
block config s = s.config_block
block encoder s = []

unfoldable pub put_block : StorageType → List ℕ → Storage → Storage
put_block keymap bytes s = record s { keymap_block = bytes }
put_block macro bytes s = record s { macro_block = bytes }
put_block config bytes s = record s { config_block = bytes }
put_block encoder bytes s = s

-- `pointer == 0`
abbrev pub is_null : StorageType → Bool
is_null encoder = true
is_null _ = false

-- `if (size < len + offset) len = size - offset;` The sum is an `int`; the difference goes back
-- into a `uint16_t`.
unfoldable pub clip : ℕ → ℕ → ℕ → ℕ
clip size offset len = if ltb size (len + offset) then u16 (size + 65536 - offset) else len

-- `memcpy(data, &pointer[offset], len)`
unfoldable pub copy_out : List ℕ → ℕ → ℕ → Access (List ℕ)
copy_out bytes offset len =
    if leb (offset + len) (length bytes) then ok (take len (drop offset bytes)) else fault

-- `memcpy(&pointer[offset], data, len)`
unfoldable pub copy_in : List ℕ → ℕ → ℕ → List ℕ → Access (List ℕ)
copy_in bytes offset len data_bytes =
    if leb (offset + len) (length bytes)
    then if leb len (length data_bytes)
      then ok (take offset bytes ++ (take len data_bytes ++ drop (offset + len) bytes))
      else fault
    else fault

-- The returned length is that of the list.
unfoldable pub storage_read_data : StorageType → ℕ → ℕ → Storage → Access (List ℕ)
storage_read_data type offset len s =
    if is_null type
    then ok []
    else copy_out (block type s) offset (clip (block_size type) offset len)

-- `if (type == STORAGE_KEYMAP) check_keymap();`
abbrev pub recheck : StorageType → Storage → Storage
recheck keymap s = check_keymap s
recheck _ s = s

unfoldable pub storage_write_data : StorageType → ℕ → ℕ → List ℕ → Storage → Access (Storage × ℕ)
storage_write_data type offset len data_bytes s =
    let n = clip (block_size type) offset len in
    if is_null type
    then ok (s, 0)
    else (copy_in (block type s) offset n data_bytes >>= λ bytes.
        ok (recheck type (put_block type bytes s), n))

-- An element of an array.
abbrev pub at {ℓ} : {A : Type ℓ} → List A → ℕ → Access A
at [] i = fault
at (x ∷ xs) zero = ok x
at (x ∷ xs) (suc i) = at xs i

-- `AC_NO`
abbrev pub ac_no : ℕ
ac_no = 0

-- `UINT16_READ`
unfoldable pub uint16_read : List ℕ → ℕ → Access ℕ
uint16_read bytes i = do lo ← at bytes i; hi ← at bytes (i + 1); ok (lo + u16 (hi <<< 8))

abbrev pub key_index : ℕ → ℕ → ℕ → ℕ
key_index layer row col =
    u16 (layer * keymap_layer_size + row * keymap_row_size + col * single_key_size)

-- The code of the action of a key. `actionmaps` is the table that the board's key map file holds,
-- by layer, row and column.
unfoldable pub action_for_key : List (List (List ℕ)) → ℕ → ℕ → ℕ → Storage → Access ℕ
action_for_key actionmaps layer row col s =
    if leb keymap_layer_size layer || leb matrix_cols col || leb matrix_rows row
    then ok ac_no
    else if s.keymap_valid
    then (uint16_read s.keymap_block (key_index layer row col) >>= λ c. ok (u16 c))
    else (at actionmaps layer >>= λ rows. at rows row >>= λ cols. at cols col)
