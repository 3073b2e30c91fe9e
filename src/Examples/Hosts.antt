-- ===== src/Examples/Hosts.antt =====
-- DRIVERS/USB/hid_configuration.c: commands of the host on a store with one key set.
use ch583_kbd_rtt.Base.{◌≡◌, refl, [], ◌∷◌, arith}
use ch583_kbd_rtt.Storage.{ok, fault, block_size}
use ch583_kbd_rtt.Storage.Bounds.{IsValid}
use ch583_kbd_rtt.Hid.{
  packet, get_single_key, set_single_key, get_all_keys, set_all_keys, get_all_fns,
  hid_response_generic, hid_send_data, dispatch,
}
use ch583_kbd_rtt.Hid.Bounds.{dispatch-IsValid, key_commands_overrun}
use ch583_kbd_rtt.Hid.RoundTrip.{with_key, get-set_single_key}
use ch583_kbd_rtt.Examples.Stores.{one_key, one_key-IsValid}

get-set_single_key_example :
    let s' = with_key 2 1 5 0x29 0 one_key in
    (dispatch set_single_key [] [] 5 (2 ∷ 1 ∷ 5 ∷ 0x29 ∷ 0 ∷ []) one_key
      ≡ ok (s', packet (0x3f ∷ 1 ∷ 0 ∷ []) ∷ []))
    × (dispatch get_single_key [] [] 3 (2 ∷ 1 ∷ 5 ∷ []) s'
        ≡ ok (s', packet (0x3f ∷ 2 ∷ 0x29 ∷ 0 ∷ []) ∷ []))
get-set_single_key_example =
    get-set_single_key 2 1 5 0x29 0 one_key one_key-IsValid (omega arith) (omega arith)
      (omega arith) (omega arith) (omega arith) (λ e. omega (arith, e)) [] [] []

answer_fns :
    dispatch get_all_fns [] [] 1 (0 ∷ []) one_key ≡ ok (one_key, packet (0x3f ∷ 1 ∷ 1 ∷ []) ∷ [])
unfolding dispatch hid_response_generic hid_send_data
answer_fns = refl

written_key :
    dispatch set_single_key [] [] 5 (2 ∷ 1 ∷ 5 ∷ 0x29 ∷ 0 ∷ []) one_key
    ≡ ok (with_key 2 1 5 0x29 0 one_key, packet (0x3f ∷ 1 ∷ 0 ∷ []) ∷ [])
written_key = get-set_single_key_example.0

dispatch-IsValid_example : IsValid (with_key 2 1 5 0x29 0 one_key)
dispatch-IsValid_example =
    dispatch-IsValid set_single_key [] [] 5 (2 ∷ 1 ∷ 5 ∷ 0x29 ∷ 0 ∷ []) one_key
      (with_key 2 1 5 0x29 0 one_key, packet (0x3f ∷ 1 ∷ 0 ∷ []) ∷ []) one_key-IsValid written_key

key_commands_overrun_example :
    (dispatch get_all_keys [] [] 2 (0x61 ∷ 4 ∷ []) one_key ≡ fault)
    × (dispatch set_all_keys [] [] 61 (19 ∷ []) one_key ≡ fault)
unfolding block_size
key_commands_overrun_example =
    key_commands_overrun [] [] 61 0x61 4 19 [] one_key one_key-IsValid (omega arith) (omega arith)
      (omega arith) (omega arith) (omega arith)
