-- ===== src/Hid.antt =====
-- DRIVERS/USB/hid_configuration.c: the commands by which the configuration tool reads and writes
-- the store over USB. ACTIONMAP_ENABLE, KEYMAP_STORAGE and MACRO_STORAGE are defined by
-- keyboard/zora61, ENCODER_ENABLED is not.
pub mod Replies
pub mod RoundTrip
pub mod Bounds
pub mod Remap
use ch583_kbd_rtt.Base.{
  Option, none, some, ℕ, zero, suc, ◌+◌, ◌-◌, ◌*◌, ◌/◌, Bool, true, false, ◌||◌, List, [], ◌∷◌,
  ◌++◌, ltb, leb, ◌==◌, ◌!=◌, if◌then◌else◌, length, get_or, take, drop, u8, u16, bit_and, ◌>>>◌,
  ◌<<<◌,
}
use ch583_kbd_rtt.Storage.{
  Access, ok, fault, ◌>>=◌, StorageType, keymap, macro, encoder, Storage, keymap_layer_size,
  keymap_row_size, single_key_size, storage_read_data, storage_write_data, uint16_read, at,
  action_for_key,
}

abbrev pub max_hid_packet_size : ℕ
max_hid_packet_size = 60

-- `enum hid_response`
pub data Response : Type 0 where
  success undefined parameter_error internal_error write_overflow usbd_checksum_error : Response

abbrev pub response_code : Response → ℕ
response_code success = 0
response_code undefined = 1
response_code parameter_error = 2
response_code internal_error = 3
response_code write_overflow = 4
response_code usbd_checksum_error = 5

-- `enum hid_command`
pub data Command : Type 0 where
  get_information get_single_key get_single_fn get_all_keys get_all_fns get_single_config
        get_all_config get_all_macro get_all_encoder :
      Command
  set_single_key set_single_fn set_all_keys set_all_fns set_single_config set_all_config
        set_all_macro set_all_encoder enter_dfu read_config write_config reset_config :
      Command

unfoldable pub command_of : ℕ → Option Command
command_of c =
    if c == 0x20
    then some get_information
    else if c == 0x21
    then some get_single_key
    else if c == 0x22
    then some get_single_fn
    else if c == 0x23
    then some get_all_keys
    else if c == 0x24
    then some get_all_fns
    else if c == 0x25
    then some get_single_config
    else if c == 0x26
    then some get_all_config
    else if c == 0x27
    then some get_all_macro
    else if c == 0x28
    then some get_all_encoder
    else if c == 0x31
    then some set_single_key
    else if c == 0x32
    then some set_single_fn
    else if c == 0x33
    then some set_all_keys
    else if c == 0x34
    then some set_all_fns
    else if c == 0x35
    then some set_single_config
    else if c == 0x36
    then some set_all_config
    else if c == 0x37
    then some set_all_macro
    else if c == 0x38
    then some set_all_encoder
    else if c == 0x39
    then some enter_dfu
    else if c == 0x3D
    then some read_config
    else if c == 0x3E
    then some write_config
    else if c == 0x3F
    then some reset_config
    else none

-- What a command does besides changing the blocks: a packet for the host, `storage_write(mask)`,
-- and `clear_keyboard()`.
pub data Effect : Type 0 where
  packet : List ℕ → Effect
  flash_write : ℕ → Effect
  clear_keyboard : Effect

abbrev pub Outcome : Type 0
Outcome = Access (Storage × List Effect)

-- `hid_send_data` up to its first `memcpy`, which stays in the 64 bytes of `buff`: the bytes that it
-- sets, the rest of `buff` is not. UsbDevice.Endpoints has its other half, which hands `buff` over.
unfoldable pub hid_send_data : List ℕ → Access Effect
hid_send_data data_bytes =
    if leb (2 + length data_bytes) 64
    then ok (packet (0x3f ∷ u8 (length data_bytes) ∷ data_bytes))
    else fault

-- `hid_response_success`
unfoldable pub hid_response_success : Storage → List ℕ → Outcome
unfolding hid_send_data
hid_response_success s data_bytes = hid_send_data data_bytes >>= λ e. ok (s, e ∷ [])

unfoldable pub hid_response_generic : Storage → Response → Outcome
unfolding hid_send_data
hid_response_generic s r = hid_send_data (response_code r ∷ []) >>= λ e. ok (s, e ∷ [])

-- `UINT16_SEQ`
abbrev pub uint16_seq : ℕ → List ℕ
uint16_seq d = bit_and d 0xff ∷ bit_and (d >>> 8) 0xff ∷ []

unfoldable pub get_single_key_reply : List (List (List ℕ)) → ℕ → ℕ → ℕ → Storage → Outcome
get_single_key_reply maps layer row col s =
    action_for_key maps layer row col s >>= λ code. hid_response_success s (uint16_seq code)

unfoldable pub response_storage : StorageType → ℕ → ℕ → Storage → Outcome
response_storage type offset len s =
    if ltb max_hid_packet_size len
    then hid_response_generic s parameter_error
    else (storage_read_data type offset len s >>= λ data_bytes. hid_response_success s data_bytes)

-- `set_storage`
unfoldable pub set_storage : StorageType → ℕ → List ℕ → ℕ → Storage → Outcome
set_storage type offset data_bytes len s = storage_write_data type offset len data_bytes s >>= λ r.
    if ltb r.1 len
    then hid_response_generic r.0 write_overflow
    else hid_response_generic r.0 success

unfoldable pub store_key : ℕ → ℕ → ℕ → ℕ → Storage → Outcome
store_key layer row col keycode s =
    set_storage keymap
      (u16 (layer * keymap_layer_size + row * keymap_row_size + col * single_key_size))
      (uint16_seq keycode) single_key_size s

-- `set_all_keys` and `set_all_macro`: packet `id` of a block.
unfoldable pub store_packet : StorageType → ℕ → ℕ → List ℕ → Storage → Outcome
store_packet type id len data_bytes s = set_storage type (id * max_hid_packet_size) data_bytes len s

-- `if (len != n) ... PARAMETER_ERROR; else ...`
abbrev pub with_length : ℕ → ℕ → Storage → Outcome → Outcome
with_length len n s body = if len != n then hid_response_generic s parameter_error else body

-- The handlers of the switch, each with the store. `info` is the bytes of `send_information`, which
-- the build fixes.
abbrev pub send_information : List ℕ → Storage → Outcome
send_information info s = hid_response_success s info

-- The Fn keys are compiled only without ACTIONMAP_ENABLE, the encoders only with ENCODER_ENABLED.
abbrev pub get_single_fn_reply : ℕ → Storage → Outcome
get_single_fn_reply id s = hid_response_generic s undefined

abbrev pub get_all_keys_reply : ℕ → Storage → Outcome
get_all_keys_reply offset s = response_storage keymap offset max_hid_packet_size s

abbrev pub get_all_fns_reply : ℕ → Storage → Outcome
get_all_fns_reply offset s = hid_response_generic s undefined

-- The bodies of `get_single_config`, `set_single_config`, `read_data` and `reset_data` are commented
-- out.
abbrev pub get_single_config_reply : ℕ → Storage → Outcome
get_single_config_reply id s = ok (s, [])

abbrev pub get_all_macro_reply : ℕ → Storage → Outcome
get_all_macro_reply offset s = response_storage macro offset max_hid_packet_size s

abbrev pub get_all_encoders_reply : ℕ → Storage → Outcome
get_all_encoders_reply offset s = response_storage encoder offset max_hid_packet_size s

abbrev pub set_single_fn_reply : ℕ → ℕ → Storage → Outcome
set_single_fn_reply id keycode s = hid_response_generic s undefined

abbrev pub set_all_keys_reply : ℕ → ℕ → List ℕ → Storage → Outcome
set_all_keys_reply id len data_bytes s = store_packet keymap id len data_bytes s

abbrev pub set_all_encoders_reply : ℕ → ℕ → List ℕ → Storage → Outcome
set_all_encoders_reply id len data_bytes s = hid_response_generic s undefined

abbrev pub set_all_fns_reply : ℕ → ℕ → List ℕ → Storage → Outcome
set_all_fns_reply id len data_bytes s = hid_response_generic s undefined

abbrev pub set_single_config_reply : ℕ → ℕ → List ℕ → Storage → Outcome
set_single_config_reply id len data_bytes s = ok (s, [])

abbrev pub set_all_macro_reply : ℕ → ℕ → List ℕ → Storage → Outcome
set_all_macro_reply id len data_bytes s = store_packet macro id len data_bytes s

abbrev pub write_data : ℕ → Storage → Outcome
write_data type s =
    hid_send_data (response_code success ∷ []) >>= λ e. ok (s, flash_write type ∷ e ∷ [])

abbrev pub read_data : ℕ → Storage → Outcome
read_data type s = ok (s, [])

abbrev pub reset_data : ℕ → Storage → Outcome
reset_data type s = ok (s, [])

-- The switch of `hid_on_recv`. `maps` is the board's key map table and `info` the bytes of
-- `send_information`; `d` is the endpoint's buffer behind the
-- header. `len - 1` goes into a `uint8_t`, hence `u8 (len + 255)`.
unfoldable pub dispatch : Command → List (List (List ℕ)) → List ℕ → ℕ → List ℕ → Storage → Outcome
dispatch get_information maps info len d s = with_length len 0 s (send_information info s)
dispatch get_single_key maps info len d s =
    with_length len 3 s (get_single_key_reply maps (get_or d 0 0) (get_or d 1 0) (get_or d 2 0) s)
dispatch get_single_fn maps info len d s =
    with_length len 1 s (get_single_fn_reply (get_or d 0 0) s)
dispatch get_all_keys maps info len d s =
    with_length len 2 s (uint16_read d 0 >>= λ offset. get_all_keys_reply offset s)
dispatch get_all_fns maps info len d s = with_length len 1 s (get_all_fns_reply (get_or d 0 0) s)
dispatch get_single_config maps info len d s =
    with_length len 1 s (get_single_config_reply (get_or d 0 0) s)
dispatch get_all_macro maps info len d s =
    with_length len 2 s (uint16_read d 0 >>= λ offset. get_all_macro_reply offset s)
dispatch get_all_encoder maps info len d s =
    with_length len 2 s (uint16_read d 0 >>= λ offset. get_all_encoders_reply offset s)
dispatch set_single_key maps info len d s = with_length len 5 s (
    uint16_read d 3 >>= λ keycode. store_key (get_or d 0 0) (get_or d 1 0) (get_or d 2 0) keycode s)
dispatch set_single_fn maps info len d s =
    with_length len 3 s
      (uint16_read d 1 >>= λ keycode. set_single_fn_reply (get_or d 0 0) keycode s)
dispatch set_all_keys maps info len d s = set_all_keys_reply (get_or d 0 0) len (drop 1 d) s
dispatch set_all_encoder maps info len d s = set_all_encoders_reply (get_or d 0 0) len (drop 1 d) s
dispatch set_all_fns maps info len d s =
    set_all_fns_reply (get_or d 0 0) (u8 (len + 255)) (drop 1 d) s
dispatch set_single_config maps info len d s =
    set_single_config_reply (get_or d 0 0) len (drop 1 d) s
dispatch set_all_macro maps info len d s =
    set_all_macro_reply (get_or d 0 0) (u8 (len + 255)) (drop 1 d) s
dispatch enter_dfu maps info len d s = if len == 1 then ok (s, clear_keyboard ∷ []) else ok (s, [])
dispatch read_config maps info len d s = with_length len 1 s (read_data (get_or d 0 0) s)
dispatch write_config maps info len d s = with_length len 1 s (write_data (get_or d 0 0) s)
dispatch reset_config maps info len d s = with_length len 1 s (reset_data (get_or d 0 0) s)
dispatch get_all_config maps info len d s = hid_response_generic s undefined
dispatch set_all_config maps info len d s = hid_response_generic s undefined

unfoldable pub hid_on_recv : List (List (List ℕ)) → List ℕ → ℕ → ℕ → List ℕ → Storage → Outcome
hid_on_recv maps info command len d s = elim (command_of command) [
  | none ↦ hid_response_generic s undefined
  | some c ↦ dispatch c maps info len d s
]
