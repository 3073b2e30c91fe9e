-- ===== src/Storage/RoundTrip.antt =====
-- What a read sees after a write.
use Prim.Native.Nat.{min}
use ch583_kbd_rtt.Base.{
  ℕ, ◌+◌, ◌-◌, ◌≤◌, ◌<◌, ◌≡◌, refl, sym, ap, ◌∙◌, ◌≢◌, inl, inr, true, false, ◌&&◌, List, [], ◌∷◌,
  ◌++◌, arith, ltb, leb, Bool-cases, if◌then◌else◌, length, length-take, take, drop, get_or,
  get_or-append_left, get_or-append_right, get_or-drop, get_or-take,
}
use ch583_kbd_rtt.Storage.{
  ok, ◌>>=◌, StorageType, keymap, macro, config, encoder, Storage, check_keymap, block_size, block,
  put_block, is_null, storage_read_data, storage_write_data, recheck,
}
use ch583_kbd_rtt.Storage.Bounds.{
  IsValid, patch, written, write_inside, read_inside, written-IsValid,
}

take-length_append : (xs ys : List ℕ) → take (length xs) (xs ++ ys) ≡ xs
take-length_append [] ys = refl
take-length_append (x ∷ xs) ys = ap (λ t. x ∷ t) (take-length_append xs ys)

drop-length_append : (xs ys : List ℕ) → drop (length xs) (xs ++ ys) ≡ ys
drop-length_append [] ys = refl
drop-length_append (x ∷ xs) ys = drop-length_append xs ys

-- Each byte after a patch: the data's inside the range, the old one outside.
get_or-patch :
    (bytes : List ℕ) (offset n : ℕ) (data_bytes : List ℕ) (i : ℕ)
    → offset + n ≤ length bytes
    → n ≤ length data_bytes
    → get_or (patch bytes offset n data_bytes) i 0 ≡ (
        if leb offset i && ltb i (offset + n)
        then get_or data_bytes (i - offset) 0
        else get_or bytes i 0)
unfolding patch
get_or-patch bytes offset n data_bytes i inside enough = elim (Bool-cases (ltb i offset)) [
  | inl before ↦
      let below : i < offset = ground arith in
      let outside : leb offset i ≡ false = ground arith in
      rw outside (
        get_or-append_left (take offset bytes) rest i 0 (omega (arith, length-take offset bytes))
        ∙ get_or-take offset i bytes 0 below)
  | inr after ↦
      let reached : leb offset i ≡ true = ground arith in
      let place : length (take offset bytes) + (i - offset) ≡ i =
        ground (arith, length-take offset bytes) in
      let skipped : get_or (take offset bytes ++ rest) i 0 ≡ get_or rest (i - offset) 0 =
        ap (λ k. get_or (take offset bytes ++ rest) k 0) (sym place)
        ∙ get_or-append_right (take offset bytes) rest (i - offset) 0 in
      rw (reached, skipped) (in_rest reached)
]
  where
    rest : List ℕ
    rest = take n data_bytes ++ drop (offset + n) bytes

    in_rest :
        leb offset i ≡ true
        → get_or rest (i - offset) 0 ≡ (
            if true && ltb i (offset + n)
            then get_or data_bytes (i - offset) 0
            else get_or bytes i 0)
    in_rest reached = elim (Bool-cases (ltb i (offset + n))) [
      | inl within ↦
          let small : i - offset < n = ground arith in
          rw within (
            get_or-append_left (take n data_bytes) (drop (offset + n) bytes) (i - offset) 0
              (omega (arith, length-take n data_bytes))
            ∙ get_or-take n (i - offset) data_bytes 0 small)
      | inr past ↦
          let place : length (take n data_bytes) + (i - (offset + n)) ≡ i - offset =
            ground (arith, length-take n data_bytes) in
          let back : offset + n + (i - (offset + n)) ≡ i = ground arith in
          rw past (
            ap (λ k. get_or rest k 0) (sym place)
            ∙ get_or-append_right (take n data_bytes) (drop (offset + n) bytes) (i - (offset + n)) 0
            ∙ get_or-drop (offset + n) (i - (offset + n)) bytes 0
            ∙ ap (λ k. get_or bytes k 0) back)
    ]

block-recheck : (t u : StorageType) (s : Storage) → block u (recheck t s) ≡ block u s
unfolding block check_keymap
block-recheck keymap keymap s = refl
block-recheck keymap macro s = refl
block-recheck keymap config s = refl
block-recheck keymap encoder s = refl
block-recheck _ u s = refl

block-put_block_self :
    (t : StorageType) (bytes : List ℕ) (s : Storage)
    → is_null t ≡ false
    → block t (put_block t bytes s) ≡ bytes
unfolding block put_block
block-put_block_self keymap bytes s h = refl
block-put_block_self macro bytes s h = refl
block-put_block_self config bytes s h = refl
block-put_block_self encoder bytes s h = cc

block-put_block_ne :
    (t u : StorageType) (bytes : List ℕ) (s : Storage)
    → t ≢ u
    → block u (put_block t bytes s) ≡ block u s
unfolding block put_block
block-put_block_ne keymap keymap bytes s h = absurd (h refl)
block-put_block_ne macro macro bytes s h = absurd (h refl)
block-put_block_ne config config bytes s h = absurd (h refl)
block-put_block_ne keymap macro bytes s h = refl
block-put_block_ne keymap config bytes s h = refl
block-put_block_ne keymap encoder bytes s h = refl
block-put_block_ne macro keymap bytes s h = refl
block-put_block_ne macro config bytes s h = refl
block-put_block_ne macro encoder bytes s h = refl
block-put_block_ne config keymap bytes s h = refl
block-put_block_ne config macro bytes s h = refl
block-put_block_ne config encoder bytes s h = refl
block-put_block_ne encoder u bytes s h = refl

slice-patch :
    (bytes : List ℕ) (offset n : ℕ) (data_bytes : List ℕ)
    → offset ≤ length bytes
    → n ≤ length data_bytes
    → take n (drop offset (patch bytes offset n data_bytes)) ≡ take n data_bytes
unfolding patch
slice-patch bytes offset n data_bytes inside enough =
    let front : length (take offset bytes) ≡ offset = omega (arith, length-take offset bytes) in
    let middle : length (take n data_bytes) ≡ n = omega (arith, length-take n data_bytes) in
    let rest : List ℕ = drop (offset + n) bytes in
    ap (λ k. take n (drop k (take offset bytes ++ (take n data_bytes ++ rest)))) (sym front)
    ∙ ap (take n) (drop-length_append (take offset bytes) (take n data_bytes ++ rest))
    ∙ ap (λ k. take k (take n data_bytes ++ rest)) (sym middle)
    ∙ take-length_append (take n data_bytes) rest

block-written_self :
    (t : StorageType) (offset n : ℕ) (data_bytes : List ℕ) (s : Storage)
    → is_null t ≡ false
    → block t (written t offset n data_bytes s) ≡ patch (block t s) offset n data_bytes
unfolding written
block-written_self t offset n data_bytes s supported =
    block-recheck t t (put_block t (patch (block t s) offset n data_bytes) s)
    ∙ block-put_block_self t (patch (block t s) offset n data_bytes) s supported

block-written_ne :
    (t u : StorageType) (offset n : ℕ) (data_bytes : List ℕ) (s : Storage)
    → t ≢ u
    → block u (written t offset n data_bytes s) ≡ block u s
unfolding written
block-written_ne t u offset n data_bytes s differ =
    block-recheck t u (put_block t (patch (block t s) offset n data_bytes) s)
    ∙ block-put_block_ne t u (patch (block t s) offset n data_bytes) s differ

-- In a valid store, a supported block, a range inside it and data of that length: what
-- storage_write_data wrote is what storage_read_data reads at the same place.
pub read-write :
    (t : StorageType) (offset len : ℕ) (data_bytes : List ℕ) (s : Storage)
    → IsValid s
    → is_null t ≡ false
    → offset + len ≤ block_size t
    → len ≤ length data_bytes
    → (storage_write_data t offset len data_bytes s >>= λ r. storage_read_data t offset r.1 r.0)
      ≡ ok (take len data_bytes)
read-write t offset len data_bytes s v supported inside enough =
    let fits : min len (block_size t - offset) ≡ len = omega arith in
    let size : length (block t s) ≡ block_size t = v.sizes t in
    let valid : IsValid (written t offset len data_bytes s) =
      written-IsValid t offset len data_bytes s v inside enough in
    rw (write_inside t offset len data_bytes s v supported (omega arith) enough, fits)
      (rw
        (
          read_inside t offset len (written t offset len data_bytes s) valid supported
              (omega arith),
          fits,
          block-written_self t offset len data_bytes s supported,
        )
        (ap ok (slice-patch (block t s) offset len data_bytes (omega arith) enough)))

-- In a valid store, a write inside a supported block changes the bytes of its range to those of the
-- data, and no other byte of any block.
pub written_bytes :
    (t u : StorageType) (offset n : ℕ) (data_bytes : List ℕ) (s : Storage) (i : ℕ)
    → IsValid s
    → is_null t ≡ false
    → offset + n ≤ block_size t
    → n ≤ length data_bytes
    → (get_or (block t (written t offset n data_bytes s)) i 0 ≡ (
        if leb offset i && ltb i (offset + n)
        then get_or data_bytes (i - offset) 0
        else get_or (block t s) i 0))
      × (t ≢ u → block u (written t offset n data_bytes s) ≡ block u s)
written_bytes t u offset n data_bytes s i v supported inside enough =
    let size : length (block t s) ≡ block_size t = v.sizes t in
    (
      rw (block-written_self t offset n data_bytes s supported)
          (get_or-patch (block t s) offset n data_bytes i (omega arith) enough),
      block-written_ne t u offset n data_bytes s,
    )
