-- ===== src/Storage/Bounds.antt =====
-- Which accesses of eeprom.c stay inside their block, and what keeps a store well formed.
use ch583_kbd_rtt.Base.{
  ℕ, ◌+◌, ◌-◌, ◌*◌, ◌≤◌, ◌<◌, ◌≡◌, refl, ◌∙◌, inl, inr, false, List, ◌++◌, arith, Bool-cases,
  length, length-append, length-take, length-drop, take, drop,
}
use mathlib.Core.Path.{subst}
use Prim.Native.Nat.{min}
use ch583_kbd_rtt.Storage.{
  ok, fault, ◌>>=◌, >>=-eq_ok, StorageType, keymap, macro, config, encoder, Storage,
  keymap_layer_size, max_layer, any_byte_set, check_keymap, block_size, block, put_block, is_null,
  clip, copy_out, copy_in, storage_read_data, storage_write_data, recheck,
}

-- Every block has its declared size, and `keymap_valid` says whether the key map has a byte set.
pub record IsValid (s : Storage) : Type 0 where
  pub sizes : (t : StorageType) → length (block t s) ≡ block_size t
  pub flag : s.keymap_valid ≡ any_byte_set (keymap_layer_size * max_layer) 0 s.keymap_block

block_size-lt : (t : StorageType) → block_size t < 2000
unfolding block_size
block_size-lt keymap = omega arith
block_size-lt macro = omega arith
block_size-lt config = omega arith
block_size-lt encoder = omega arith

clip_inside :
    (size offset len : ℕ)
    → offset ≤ size
    → size < 2000
    → clip size offset len ≡ min len (size - offset)
unfolding clip
clip_inside size offset len inside small = ground arith

-- Beyond the end the difference wraps, and never fits.
pub clip_beyond :
    (size offset len : ℕ) → size < offset → offset < 65536 → size < offset + clip size offset len
unfolding clip
clip_beyond size offset len beyond word = ground arith

copy_out_ok :
    (bytes : List ℕ) (offset len : ℕ)
    → offset + len ≤ length bytes
    → copy_out bytes offset len ≡ ok (take len (drop offset bytes))
unfolding copy_out
copy_out_ok bytes offset len h = ground arith

copy_out_fault :
    (bytes : List ℕ) (offset len : ℕ)
    → length bytes < offset + len
    → copy_out bytes offset len ≡ fault
unfolding copy_out
copy_out_fault bytes offset len h = ground arith

-- In a valid store, a read of a supported block at an offset inside it returns the bytes from there
-- on, at most len and at most what the block has left.
pub read_inside :
    (t : StorageType) (offset len : ℕ) (s : Storage)
    → IsValid s
    → is_null t ≡ false
    → offset ≤ block_size t
    → storage_read_data t offset len s
      ≡ ok (take (min len (block_size t - offset)) (drop offset (block t s)))
unfolding storage_read_data
read_inside t offset len s v supported inside =
    let size : length (block t s) ≡ block_size t = v.sizes t in
    rw (supported, clip_inside (block_size t) offset len inside (block_size-lt t))
      (copy_out_ok (block t s) offset (min len (block_size t - offset)) (omega arith))

-- In a valid store, a read of a supported block at an offset past it leaves the block, whatever the
-- length asked for.
pub read_beyond :
    (t : StorageType) (offset len : ℕ) (s : Storage)
    → IsValid s
    → is_null t ≡ false
    → block_size t < offset
    → offset < 65536
    → storage_read_data t offset len s ≡ fault
unfolding storage_read_data
read_beyond t offset len s v supported beyond word =
    let size : length (block t s) ≡ block_size t = v.sizes t in
    let long : block_size t < offset + clip (block_size t) offset len =
      clip_beyond (block_size t) offset len beyond word in
    rw supported (copy_out_fault (block t s) offset (clip (block_size t) offset len) (omega arith))

-- The bytes of a block after `n` bytes are written at `offset`.
unfoldable pub patch : List ℕ → ℕ → ℕ → List ℕ → List ℕ
patch bytes offset n data_bytes =
    take offset bytes ++ (take n data_bytes ++ drop (offset + n) bytes)

length-patch :
    (bytes : List ℕ) (offset n : ℕ) (data_bytes : List ℕ)
    → offset + n ≤ length bytes
    → n ≤ length data_bytes
    → length (patch bytes offset n data_bytes) ≡ length bytes
unfolding patch
length-patch bytes offset n data_bytes inside enough = omega (
  arith,
  length-append (take offset bytes) (take n data_bytes ++ drop (offset + n) bytes),
  length-append (take n data_bytes) (drop (offset + n) bytes),
  length-take offset bytes,
  length-take n data_bytes,
  length-drop (offset + n) bytes,
)

copy_in_ok :
    (bytes : List ℕ) (offset n : ℕ) (data_bytes : List ℕ)
    → offset + n ≤ length bytes
    → n ≤ length data_bytes
    → copy_in bytes offset n data_bytes ≡ ok (patch bytes offset n data_bytes)
unfolding copy_in patch
copy_in_ok bytes offset n data_bytes inside enough = ground arith

-- The store after `n` bytes are written at `offset` of the block of `t`.
unfoldable pub written : StorageType → ℕ → ℕ → List ℕ → Storage → Storage
written t offset n data_bytes s = recheck t (put_block t (patch (block t s) offset n data_bytes) s)

-- In a valid store, a write to a supported block at an offset inside it stores as much of the data
-- as fits, and returns that length.
pub write_inside :
    (t : StorageType) (offset len : ℕ) (data_bytes : List ℕ) (s : Storage)
    → IsValid s
    → is_null t ≡ false
    → offset ≤ block_size t
    → len ≤ length data_bytes
    → let n = min len (block_size t - offset) in
      storage_write_data t offset len data_bytes s ≡ ok (written t offset n data_bytes s, n)
unfolding storage_write_data written
write_inside t offset len data_bytes s v supported inside enough =
    let size : length (block t s) ≡ block_size t = v.sizes t in
    rw (supported, clip_inside (block_size t) offset len inside (block_size-lt t))
      (rw (
        copy_in_ok (block t s) offset (min len (block_size t - offset)) data_bytes (omega arith)
          (omega arith)))

put_block-sizes :
    (t u : StorageType) (bytes : List ℕ) (s : Storage)
    → ((x : StorageType) → length (block x s) ≡ block_size x)
    → length bytes ≡ block_size t
    → length (block u (recheck t (put_block t bytes s))) ≡ block_size u
unfolding block put_block check_keymap
put_block-sizes keymap keymap bytes s sizes h = h
put_block-sizes keymap macro bytes s sizes h = sizes macro
put_block-sizes keymap config bytes s sizes h = sizes config
put_block-sizes keymap encoder bytes s sizes h = sizes encoder
put_block-sizes macro macro bytes s sizes h = h
put_block-sizes macro keymap bytes s sizes h = sizes keymap
put_block-sizes macro config bytes s sizes h = sizes config
put_block-sizes macro encoder bytes s sizes h = sizes encoder
put_block-sizes config config bytes s sizes h = h
put_block-sizes config keymap bytes s sizes h = sizes keymap
put_block-sizes config macro bytes s sizes h = sizes macro
put_block-sizes config encoder bytes s sizes h = sizes encoder
put_block-sizes encoder u bytes s sizes h = sizes u

put_block-flag :
    (t : StorageType) (bytes : List ℕ) (s : Storage)
    → s.keymap_valid ≡ any_byte_set (keymap_layer_size * max_layer) 0 s.keymap_block
    → let s' = recheck t (put_block t bytes s) in
      s'.keymap_valid ≡ any_byte_set (keymap_layer_size * max_layer) 0 s'.keymap_block
unfolding put_block check_keymap
put_block-flag keymap bytes s h = refl
put_block-flag macro bytes s h = h
put_block-flag config bytes s h = h
put_block-flag encoder bytes s h = h

-- Every write that stays in its block keeps the store well formed.
pub written-IsValid :
    (t : StorageType) (offset n : ℕ) (data_bytes : List ℕ) (s : Storage)
    → IsValid s
    → offset + n ≤ block_size t
    → n ≤ length data_bytes
    → IsValid (written t offset n data_bytes s)
unfolding written
written-IsValid t offset n data_bytes s v inside enough =
    let size : length (block t s) ≡ block_size t = v.sizes t in
    let kept : length (patch (block t s) offset n data_bytes) ≡ length (block t s) =
      length-patch (block t s) offset n data_bytes (omega arith) enough in
    record {
      sizes =
          λ u. put_block-sizes t u (patch (block t s) offset n data_bytes) s v.sizes (kept ∙ size);
      flag = put_block-flag t (patch (block t s) offset n data_bytes) s v.flag;
    }

-- A copy into a block that returns has stayed inside both arrays.
copy_in-inv :
    (bytes : List ℕ) (offset n : ℕ) (data_bytes : List ℕ) {out : List ℕ}
    → copy_in bytes offset n data_bytes ≡ ok out
    → (out ≡ patch bytes offset n data_bytes)
      × (offset + n ≤ length bytes)
      × (n ≤ length data_bytes)
unfolding copy_in patch
copy_in-inv bytes offset n data_bytes h = ground arith

-- From a valid store, a write that returns at all leaves a valid store.
pub storage_write_data-IsValid :
    (t : StorageType) (offset len : ℕ) (data_bytes : List ℕ) (s : Storage) {r : Storage × ℕ}
    → IsValid s
    → storage_write_data t offset len data_bytes s ≡ ok r
    → IsValid r.0
unfolding storage_write_data
storage_write_data-IsValid t offset len data_bytes s {r} v h = elim (Bool-cases (is_null t)) [
  | inl unsupported ↦
      let done : ok (s, 0) ≡ ok r = rw unsupported at h in
      let same : s ≡ r.0 = cc in subst IsValid same v
  | inr supported ↦
      let n : ℕ = clip (block_size t) offset len in
      let rest : (copy_in (block t s) offset n data_bytes >>= λ bytes.
      ok (recheck t (put_block t bytes s), n))
          ≡ ok r =
        rw supported at h in
      let (bytes, copied, last) = >>=-eq_ok (copy_in (block t s) offset n data_bytes) _ rest in
      let (patched, inside, enough) = copy_in-inv (block t s) offset n data_bytes copied in
      let size : length (block t s) ≡ block_size t = v.sizes t in
      let valid : IsValid (written t offset n data_bytes s) =
        written-IsValid t offset n data_bytes s v (omega arith) enough in
      let same : written t offset n data_bytes s ≡ r.0 = unfold written in cc in
      subst IsValid same valid
]
