-- ===== src/Hid/Bounds.antt =====
-- What keeps the store well formed under the commands of hid_configuration.c, and the offsets
-- that a command does not check.
use mathlib.Core.Path.{subst}
use ch583_kbd_rtt.Base.{
  ℕ, ◌+◌, ◌*◌, ◌<◌, ◌≡◌, refl, sym, inl, inr, true, false, List, ◌∷◌, arith, ltb, leb, ◌!=◌,
  Bool-cases, length, drop, u8, u16, ◌<<<◌,
}
use ch583_kbd_rtt.Storage.{
  ok, fault, >>=-eq_ok, StorageType, keymap, macro, Storage, block_size, block, is_null, clip,
  copy_in, storage_write_data, uint16_read,
}
use ch583_kbd_rtt.Storage.Bounds.{IsValid, storage_write_data-IsValid, clip_beyond, read_beyond}
use ch583_kbd_rtt.Hid.{
  Command, get_all_keys, set_single_key, set_all_keys, set_all_macro, Effect, Outcome, Response,
  write_overflow, parameter_error, success, max_hid_packet_size, hid_response_generic,
  response_storage, set_storage, store_key, store_packet, dispatch,
}
use ch583_kbd_rtt.Hid.Replies.{writes, dispatch_keeps}

-- A store that comes back is well formed.
abbrev Valid : Outcome → Type 0
Valid m = (r : Storage × List Effect) → m ≡ ok r → IsValid r.0

Valid-generic : (s : Storage) (x : Response) → IsValid s → Valid (hid_response_generic s x)
unfolding hid_response_generic
Valid-generic s x v r h = let same : s ≡ r.0 = cc in subst IsValid same v

Valid-set_storage :
    (t : StorageType) (offset : ℕ) (bytes : List ℕ) (len : ℕ) (s : Storage)
    → IsValid s
    → Valid (set_storage t offset bytes len s)
unfolding set_storage
Valid-set_storage t offset bytes len s v r h =
    let (w, stored, reply) = >>=-eq_ok (storage_write_data t offset len bytes s) _ h in
    let valid : IsValid w.0 = storage_write_data-IsValid t offset len bytes s v stored in
    elim (Bool-cases (ltb w.1 len)) [
      | inl short ↦ Valid-generic w.0 write_overflow valid r (rw short at reply)
      | inr whole ↦ Valid-generic w.0 success valid r (rw whole at reply)
    ]

Valid-writer :
    (c : Command) (maps : List (List (List ℕ))) (info : List ℕ) (len : ℕ) (d : List ℕ) (s : Storage)
    → IsValid s
    → writes c ≡ true
    → Valid (dispatch c maps info len d s)
unfolding writes dispatch store_packet store_key
Valid-writer set_single_key maps info len d s v w r h = elim (Bool-cases (len != 5)) [
  | inl wrong ↦ Valid-generic s parameter_error v r (rw wrong at h)
  | inr right ↦
      let (keycode, read, last) = >>=-eq_ok (uint16_read d 3) _ (rw right at h) in
      Valid-set_storage keymap _ _ 2 s v r last
]
Valid-writer set_all_keys maps info len d s v w r h =
    Valid-set_storage keymap _ (drop 1 d) len s v r h
Valid-writer set_all_macro maps info len d s v w r h =
    Valid-set_storage macro _ (drop 1 d) (u8 (len + 255)) s v r h
Valid-writer _ maps info len d s v w r h = cc

-- From a valid store, every command of the host that comes back leaves a valid store.
pub dispatch-IsValid :
    (c : Command) (maps : List (List (List ℕ))) (info : List ℕ) (len : ℕ) (d : List ℕ) (s : Storage)
    (r : Storage × List Effect)
    → IsValid s
    → dispatch c maps info len d s ≡ ok r
    → IsValid r.0
dispatch-IsValid c maps info len d s r v h = elim (Bool-cases (writes c)) [
  | inl w ↦ Valid-writer c maps info len d s v w r h
  | inr q ↦ subst IsValid (sym (dispatch_keeps c maps info len d s r q h)) v
]

write_beyond :
    (t : StorageType) (offset len : ℕ) (bytes : List ℕ) (s : Storage)
    → IsValid s
    → is_null t ≡ false
    → block_size t < offset
    → offset < 65536
    → storage_write_data t offset len bytes s ≡ fault
unfolding storage_write_data copy_in
write_beyond t offset len bytes s v supported beyond word =
    let size : length (block t s) ≡ block_size t = v.sizes t in
    let long : block_size t < offset + clip (block_size t) offset len =
      clip_beyond (block_size t) offset len beyond word in
    let outside : leb (offset + clip (block_size t) offset len) (length (block t s)) ≡ false =
      ground arith in
    rw supported (rw outside)

-- In a valid store, GET_ALL_KEYS with an offset past the key map and SET_ALL_KEYS with a packet
-- number whose place is past it leave the block.
pub key_commands_overrun :
    (maps : List (List (List ℕ))) (info : List ℕ) (len lo hi id : ℕ) (d : List ℕ) (s : Storage)
    → IsValid s
    → lo < 256
    → hi < 256
    → block_size keymap < lo + hi * 256
    → id < 256
    → block_size keymap < id * max_hid_packet_size
    → (dispatch get_all_keys maps info 2 (lo ∷ hi ∷ d) s ≡ fault)
      × (dispatch set_all_keys maps info len (id ∷ d) s ≡ fault)
unfolding dispatch store_packet response_storage set_storage uint16_read
key_commands_overrun maps info len lo hi id d s v hlo hhi far hid past =
    let word : lo + u16 (hi <<< 8) ≡ lo + hi * 256 = omega arith in
    (
      rw word (rw (read_beyond keymap (lo + hi * 256) 60 s v refl far (omega arith))),
      rw (write_beyond keymap (id * 60) len d s v refl past (omega arith)),
    )
