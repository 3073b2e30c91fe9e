-- ===== src/Examples/Stores.antt =====
-- DRIVERS/eeprom/eeprom.c on a store with one key set.
use Prim.Native.Nat.{min}
use ch583_kbd_rtt.Base.{
  ℕ, zero, suc, length, if◌then◌else◌, ◌==◌, bit_and, ◌+◌, ◌-◌, ◌*◌, ◌≡◌, refl, sym, ap, true, List,
  [], ◌∷◌, arith, length-replicate, replicate, take,
}
use ch583_kbd_rtt.Storage.{
  StorageType, ok, fault, ◌>>=◌, keymap, macro, config, encoder, Storage, block, block_size,
  storage_read_data, storage_write_data, action_for_key, macro_block_size, config_block_size,
  keymap_layer_size, max_layer,
}
use ch583_kbd_rtt.Storage.Bounds.{IsValid, write_inside, written}
use ch583_kbd_rtt.Storage.RoundTrip.{read-write}
use ch583_kbd_rtt.Storage.Keymap.{action_for_key-overrun, any_byte_set-true}
use ch583_kbd_rtt.Storage.Flash.{Flash, IsFlash, place, same_type, reloaded, block-saved}

-- The key map has the key of layer 0, row 0 and column 0, nothing else is set.
abbrev pub one_key : Storage
one_key = record {
  keymap_block = 0x1E ∷ replicate 1119 0;
  macro_block = replicate macro_block_size 0;
  config_block = replicate config_block_size 0;
  keymap_valid = true;
}

pub one_key-IsValid : IsValid one_key
unfolding block block_size
one_key-IsValid = record {
  sizes = elim [
    | keymap ↦ ap (λ n. n + 1) (length-replicate {A = ℕ} 1119 0)
    | macro ↦ length-replicate {A = ℕ} macro_block_size 0
    | config ↦ length-replicate {A = ℕ} config_block_size 0
    | encoder ↦ refl
  ];
  flag = sym (
      any_byte_set-true (keymap_layer_size * max_layer) 0 0 one_key.keymap_block (omega arith)
        (omega arith) (λ e. omega (arith, e)));
}

stored_write :
    storage_write_data config 22 2 (7 ∷ 8 ∷ []) one_key
    ≡ ok (written config 22 (min 2 (24 - 22)) (7 ∷ 8 ∷ []) one_key, min 2 (24 - 22))
unfolding block_size
stored_write =
    write_inside config 22 2 (7 ∷ 8 ∷ []) one_key one_key-IsValid refl (omega arith) (omega arith)

read-write_example :
    (storage_write_data config 22 2 (7 ∷ 8 ∷ []) one_key >>= λ r.
    storage_read_data config 22 r.1 r.0)
    ≡ ok (take 2 (7 ∷ 8 ∷ []))
unfolding block_size
read-write_example =
    read-write config 22 2 (7 ∷ 8 ∷ []) one_key one_key-IsValid refl (omega arith) (omega arith)

action_for_key-overrun_example : action_for_key [] 8 0 0 one_key ≡ fault
action_for_key-overrun_example =
    action_for_key-overrun [] 8 0 0 one_key one_key-IsValid refl (omega arith) (omega arith)
      (omega arith) (omega arith)

-- A flash that always reads zeros.
abbrev blank_flash : Flash
blank_flash = record {
  Device = ℕ;
  eeprom_read = λ a n d. replicate n 0;
  eeprom_erase = λ a n d. d;
  eeprom_program = λ a bytes d. d;
}

-- `program` clears bits only.
abbrev cleared : List ℕ → List ℕ → List ℕ
cleared [] old = []
cleared (x ∷ bytes) [] = x ∷ cleared bytes []
cleared (x ∷ bytes) (y ∷ old) = (if y == 0xff then x else bit_and x y) ∷ cleared bytes old

-- A flash of one block.
abbrev small_flash : Flash
small_flash = record {
  Device = List ℕ;
  eeprom_read = λ a n d. d;
  eeprom_erase = λ a n d. replicate n 0xff;
  eeprom_program = λ a bytes d. cleared bytes d;
}

cleared_blank :
    (n : ℕ) (bytes : List ℕ) → length bytes ≡ n → cleared bytes (replicate n 0xff) ≡ bytes
cleared_blank zero [] size = refl
cleared_blank zero (x ∷ bytes) size = absurd (omega (arith, size))
cleared_blank (suc n) [] size = absurd (omega (arith, size))
cleared_blank (suc n) (x ∷ bytes) size =
    ap (λ (ys : List ℕ). x ∷ ys) (cleared_blank n bytes (omega (arith, size)))

small_flash-IsFlash : (a n : ℕ) → IsFlash small_flash a n
small_flash-IsFlash a n = record {
  erased = λ d. refl;
  programmed = λ bytes d size blank. rw blank (cleared_blank n bytes size);
}

block-saved_example :
    ((t : StorageType)
      → block t (reloaded small_flash [] one_key one_key keymap)
        ≡ block t (if same_type keymap t then one_key else one_key))
    × IsValid (reloaded small_flash [] one_key one_key keymap)
block-saved_example =
    block-saved small_flash [] one_key one_key keymap
      (small_flash-IsFlash (place keymap) (block_size keymap)) one_key-IsValid one_key-IsValid
