-- ===== src/Storage/Flash.antt =====
-- DRIVERS/eeprom/eeprom.c: `storage_read` and `storage_write`, the blocks' way from and to the data
-- flash. The flash, with its three commands, is a parameter.
use ch583_kbd_rtt.Base.{
  ℕ, Bool, true, false, replicate, ◌+◌, ◌≡◌, refl, ap, ◌∙◌, List, ◌!=◌, inl, inr, Bool-cases,
  if◌then◌else◌, length, bit_and,
}
use ch583_kbd_rtt.Storage.{
  StorageType, Storage, keymap, macro, config, encoder, keymap_size, macro_block_size,
  config_block_size, block, block_size, check_keymap,
}
use ch583_kbd_rtt.Storage.Bounds.{IsValid}

-- `EEPROM_READ`, `EEPROM_ERASE` and `EEPROM_WRITE`: address, then length or bytes.
pub record Flash : Type 1 where
  pub Device : Type 0
  pub eeprom_read : ℕ → ℕ → Device → List ℕ
  pub eeprom_erase : ℕ → ℕ → Device → Device
  pub eeprom_program : ℕ → List ℕ → Device → Device

abbrev pub storage_keymap_p : ℕ
storage_keymap_p = 0

abbrev pub storage_macro_p : ℕ
storage_macro_p = storage_keymap_p + keymap_size

abbrev pub storage_config_p : ℕ
storage_config_p = storage_macro_p + macro_block_size

module _ (f : Flash) where
  open f use {Device, eeprom_read, eeprom_erase, eeprom_program}

  unfoldable pub eeprom_write : ℕ → List ℕ → ℕ → Device → Device
  eeprom_write start bytes len d = eeprom_program start bytes (eeprom_erase start len d)

  -- The three `if`s of `storage_read`, in order.
  unfoldable pub read_keymap : ℕ → Device → Storage → Storage
  unfolding check_keymap
  read_keymap mask d s =
      if bit_and mask 0x01 != 0
      then check_keymap (record s { keymap_block = eeprom_read storage_keymap_p keymap_size d })
      else s

  unfoldable pub read_macro : ℕ → Device → Storage → Storage
  read_macro mask d s =
      if bit_and mask 0x02 != 0
      then record s { macro_block = eeprom_read storage_macro_p macro_block_size d }
      else s

  unfoldable pub read_config : ℕ → Device → Storage → Storage
  read_config mask d s =
      if bit_and mask 0x04 != 0
      then record s { config_block = eeprom_read storage_config_p config_block_size d }
      else s

  unfoldable pub storage_read : ℕ → Device → Storage → Storage
  unfolding read_keymap read_macro read_config
  storage_read mask d s = read_config mask d (read_macro mask d (read_keymap mask d s))

  unfoldable pub storage_write : ℕ → Storage → Device → Device
  unfolding eeprom_write
  storage_write mask s d =
      let d1 =
        if bit_and mask 0x01 != 0
        then eeprom_write storage_keymap_p s.keymap_block keymap_size d
        else d in
      let d2 =
        if bit_and mask 0x02 != 0
        then eeprom_write storage_macro_p s.macro_block macro_block_size d1
        else d1 in
      if bit_and mask 0x04 != 0
      then eeprom_write storage_config_p s.config_block config_block_size d2
      else d2

module _ (f : Flash) (d : f.Device) (whole : (a n : ℕ) → length (f.eeprom_read a n d) ≡ n) where
  read_keymap-IsValid : (mask : ℕ) (s : Storage) → IsValid s → IsValid (read_keymap f mask d s)
  unfolding read_keymap check_keymap block block_size
  read_keymap-IsValid mask s v = elim (Bool-cases (bit_and mask 0x01 != 0)) [
    | inl e ↦ rw e (record {
      sizes = elim [
        | keymap ↦ whole storage_keymap_p keymap_size
        | macro ↦ v.sizes macro
        | config ↦ v.sizes config
        | encoder ↦ v.sizes encoder
      ];
      flag = refl;
    })
    | inr e ↦ rw e v
  ]

  read_macro-IsValid : (mask : ℕ) (s : Storage) → IsValid s → IsValid (read_macro f mask d s)
  unfolding read_macro block block_size
  read_macro-IsValid mask s v = elim (Bool-cases (bit_and mask 0x02 != 0)) [
    | inl e ↦ rw e (record {
      sizes = elim [
        | keymap ↦ v.sizes keymap
        | macro ↦ whole storage_macro_p macro_block_size
        | config ↦ v.sizes config
        | encoder ↦ v.sizes encoder
      ];
      flag = v.flag;
    })
    | inr e ↦ rw e v
  ]

  read_config-IsValid : (mask : ℕ) (s : Storage) → IsValid s → IsValid (read_config f mask d s)
  unfolding read_config block block_size
  read_config-IsValid mask s v = elim (Bool-cases (bit_and mask 0x04 != 0)) [
    | inl e ↦ rw e (record {
      sizes = elim [
        | keymap ↦ v.sizes keymap
        | macro ↦ v.sizes macro
        | config ↦ whole storage_config_p config_block_size
        | encoder ↦ v.sizes encoder
      ];
      flag = v.flag;
    })
    | inr e ↦ rw e v
  ]

  -- From a valid store, and with a flash that reads as many bytes as it is asked for, storage_read
  -- leaves a valid store for every mask.
  pub storage_read-IsValid :
      (mask : ℕ) (s : Storage) → IsValid s → IsValid (storage_read f mask d s)
  unfolding storage_read
  storage_read-IsValid mask s v =
      read_config-IsValid mask _ (read_macro-IsValid mask _ (read_keymap-IsValid mask s v))

-- What the data flash does in the `n` bytes from `a` on, by ISP583.h: an erase leaves all bits set,
-- and bytes that are programmed where all bits are set are read back.
pub record IsFlash (f : Flash) (a n : ℕ) : Type 0 where
  pub erased : (d : f.Device) → f.eeprom_read a n (f.eeprom_erase a n d) ≡ replicate n 0xff
  pub programmed :
      (bytes : List ℕ) (d : f.Device)
      → length bytes ≡ n
      → f.eeprom_read a n d ≡ replicate n 0xff
      → f.eeprom_read a n (f.eeprom_program a bytes d) ≡ bytes

-- The place of a block; STORAGE_ENCODER has none.
abbrev pub place : StorageType → ℕ
place keymap = storage_keymap_p
place macro = storage_macro_p
place config = storage_config_p
place encoder = 0

-- `1 << type`
abbrev pub mask_of : StorageType → ℕ
mask_of keymap = 1
mask_of macro = 2
mask_of config = 4
mask_of encoder = 8

abbrev pub same_type : StorageType → StorageType → Bool
same_type keymap keymap = true
same_type macro macro = true
same_type config config = true
same_type encoder encoder = true
same_type _ _ = false

eeprom_read-write :
    (f : Flash) (a n : ℕ) (bytes : List ℕ) (d : f.Device)
    → IsFlash f a n
    → length bytes ≡ n
    → f.eeprom_read a n (eeprom_write f a bytes n d) ≡ bytes
unfolding eeprom_write
eeprom_read-write f a n bytes d law size =
    law.programmed bytes (f.eeprom_erase a n d) size (law.erased d)

module _ (f : Flash) (d : f.Device) (s s' : Storage) where
  -- The store that is loaded, in place of s'.
  abbrev pub reloaded : StorageType → Storage
  reloaded type = storage_read f (mask_of type) (storage_write f (mask_of type) s d) s'

  -- For each type of block, saved alone with storage_write from a valid store and loaded alone with
  -- storage_read into another valid store: that block is what it was, every other block of the
  -- loading store is left, and the store is valid, its keymap_valid included. The flash is such
  -- that, in the bytes of that block, an erase leaves all bits set, and bytes programmed where all
  -- bits are set are read back.
  pub block-saved :
      (type : StorageType)
      → IsFlash f (place type) (block_size type)
      → IsValid s
      → IsValid s'
      → ((t : StorageType) → block t (reloaded type) ≡ block t (if same_type type t then s else s'))
        × IsValid (reloaded type)
  unfolding storage_read storage_write read_keymap read_macro read_config check_keymap block
      block_size
  block-saved keymap law v v' =
      let back =
        eeprom_read-write f (place keymap) (block_size keymap) s.keymap_block d law
          (v.sizes keymap) in
      (
        elim [ keymap ↦ back | macro ↦ refl | config ↦ refl | encoder ↦ refl ],
        record {
          sizes = elim [
            | keymap ↦ ap length back ∙ v.sizes keymap
            | macro ↦ v'.sizes macro
            | config ↦ v'.sizes config
            | encoder ↦ refl
          ];
          flag = refl;
        },
      )
  block-saved macro law v v' =
      let back =
        eeprom_read-write f (place macro) (block_size macro) s.macro_block d law (v.sizes macro) in
      (
        elim [ keymap ↦ refl | macro ↦ back | config ↦ refl | encoder ↦ refl ],
        record {
          sizes = elim [
            | keymap ↦ v'.sizes keymap
            | macro ↦ ap length back ∙ v.sizes macro
            | config ↦ v'.sizes config
            | encoder ↦ refl
          ];
          flag = v'.flag;
        },
      )
  block-saved config law v v' =
      let back =
        eeprom_read-write f (place config) (block_size config) s.config_block d law
          (v.sizes config) in
      (
        elim [ keymap ↦ refl | macro ↦ refl | config ↦ back | encoder ↦ refl ],
        record {
          sizes = elim [
            | keymap ↦ v'.sizes keymap
            | macro ↦ v'.sizes macro
            | config ↦ ap length back ∙ v.sizes config
            | encoder ↦ refl
          ];
          flag = v'.flag;
        },
      )
  block-saved encoder law v v' =
      (elim [ keymap ↦ refl | macro ↦ refl | config ↦ refl | encoder ↦ refl ], v')
