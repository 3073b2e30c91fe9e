-- ===== src/Hid/Replies.antt =====
-- What each command of hid_configuration.c answers, and what it leaves alone.
use ch583_kbd_rtt.Base.{
  [], ◌∷◌, ℕ, ◌≡◌, ◌≢◌, Bool, true, false, List, [], Option, none, some, arith, ◌==◌, ◌!=◌,
  if◌then◌else◌, get_or, ltb,
}
use ch583_kbd_rtt.Storage.{
  Access, ok, fault, ◌>>=◌, Storage, StorageType, storage_read_data, uint16_read, action_for_key,
}
use ch583_kbd_rtt.Hid.{
  Command, get_information, get_single_key, get_single_fn, get_all_keys, get_all_fns,
  get_single_config, get_all_config, get_all_macro, get_all_encoder, set_single_key, set_single_fn,
  set_all_keys, set_all_fns, set_single_config, set_all_config, set_all_macro, set_all_encoder,
  enter_dfu, read_config, write_config, reset_config, Effect, Outcome, Response, parameter_error,
  hid_response_generic, hid_response_success, hid_send_data, flash_write, response_code, success,
  response_storage, get_single_key_reply, with_length, dispatch,
}

-- The length of the data that a command wants, for those that check it.
unfoldable pub data_length : Command → Option ℕ
data_length get_information = some 0
data_length get_single_key = some 3
data_length get_single_fn = some 1
data_length get_all_keys = some 2
data_length get_all_fns = some 1
data_length get_single_config = some 1
data_length get_all_macro = some 2
data_length get_all_encoder = some 2
data_length set_single_key = some 5
data_length set_single_fn = some 3
data_length read_config = some 1
data_length write_config = some 1
data_length reset_config = some 1
data_length _ = none

-- The commands that write a block.
unfoldable pub writes : Command → Bool
writes set_single_key = true
writes set_all_keys = true
writes set_all_macro = true
writes _ = false

not_wanted : {len k n : ℕ} → some k ≡ some n → len ≢ n → len ≢ k
not_wanted e h same = h (cc)

with_length_wrong :
    (len n : ℕ) (s : Storage) (body : Outcome)
    → len ≢ n
    → with_length len n s body ≡ hid_response_generic s parameter_error
with_length_wrong len n s body h = let e : (len != n) ≡ true = ground arith in rw e

-- A command with data of another length than it wants answers PARAMETER_ERROR and does nothing.
pub dispatch_wrong_length :
    (c : Command) (maps : List (List (List ℕ))) (info : List ℕ) (len n : ℕ) (d : List ℕ)
    (s : Storage)
    → data_length c ≡ some n
    → len ≢ n
    → dispatch c maps info len d s ≡ hid_response_generic s parameter_error
unfolding data_length dispatch
dispatch_wrong_length get_information maps info len n d s wants wrong =
    with_length_wrong len 0 s _ (not_wanted wants wrong)
dispatch_wrong_length get_single_key maps info len n d s wants wrong =
    with_length_wrong len 3 s _ (not_wanted wants wrong)
dispatch_wrong_length get_single_fn maps info len n d s wants wrong =
    with_length_wrong len 1 s _ (not_wanted wants wrong)
dispatch_wrong_length get_all_keys maps info len n d s wants wrong =
    with_length_wrong len 2 s _ (not_wanted wants wrong)
dispatch_wrong_length get_all_fns maps info len n d s wants wrong =
    with_length_wrong len 1 s _ (not_wanted wants wrong)
dispatch_wrong_length get_single_config maps info len n d s wants wrong =
    with_length_wrong len 1 s _ (not_wanted wants wrong)
dispatch_wrong_length get_all_macro maps info len n d s wants wrong =
    with_length_wrong len 2 s _ (not_wanted wants wrong)
dispatch_wrong_length get_all_encoder maps info len n d s wants wrong =
    with_length_wrong len 2 s _ (not_wanted wants wrong)
dispatch_wrong_length set_single_key maps info len n d s wants wrong =
    with_length_wrong len 5 s _ (not_wanted wants wrong)
dispatch_wrong_length set_single_fn maps info len n d s wants wrong =
    with_length_wrong len 3 s _ (not_wanted wants wrong)
dispatch_wrong_length read_config maps info len n d s wants wrong =
    with_length_wrong len 1 s _ (not_wanted wants wrong)
dispatch_wrong_length write_config maps info len n d s wants wrong =
    with_length_wrong len 1 s _ (not_wanted wants wrong)
dispatch_wrong_length reset_config maps info len n d s wants wrong =
    with_length_wrong len 1 s _ (not_wanted wants wrong)
dispatch_wrong_length get_all_config maps info len n d s wants wrong = cc
dispatch_wrong_length set_all_keys maps info len n d s wants wrong = cc
dispatch_wrong_length set_all_fns maps info len n d s wants wrong = cc
dispatch_wrong_length set_single_config maps info len n d s wants wrong = cc
dispatch_wrong_length set_all_config maps info len n d s wants wrong = cc
dispatch_wrong_length set_all_macro maps info len n d s wants wrong = cc
dispatch_wrong_length set_all_encoder maps info len n d s wants wrong = cc
dispatch_wrong_length enter_dfu maps info len n d s wants wrong = cc

-- A reply, if there is one, comes with the store as it was.
abbrev Keeps : Storage → Outcome → Type 0
Keeps s m = (r : Storage × List Effect) → m ≡ ok r → r.0 ≡ s

Keeps-ok : (s : Storage) (es : List Effect) → Keeps s (ok (s, es))
Keeps-ok s es r h = cc

Keeps-bind :
    {A : Type 0} (s : Storage) (m : Access A) (f : A → Outcome)
    → ((a : A) → Keeps s (f a))
    → Keeps s (m >>= f)
Keeps-bind s (ok a) f h = h a
Keeps-bind s fault f h = λ r e. cc

Keeps-generic : (s : Storage) (r : Response) → Keeps s (hid_response_generic s r)
unfolding hid_response_generic
Keeps-generic s r = Keeps-bind s (hid_send_data (response_code r ∷ [])) _ (λ e. Keeps-ok s (e ∷ []))

Keeps-success : (s : Storage) (bytes : List ℕ) → Keeps s (hid_response_success s bytes)
unfolding hid_response_success
Keeps-success s bytes = Keeps-bind s (hid_send_data bytes) _ (λ e. Keeps-ok s (e ∷ []))

Keeps-if :
    (s : Storage) (b : Bool) {m k : Outcome} → Keeps s m → Keeps s k → Keeps s (if b then m else k)
Keeps-if s true hm hk = hm
Keeps-if s false hm hk = hk

Keeps-with_length :
    (len n : ℕ) (s : Storage) {body : Outcome} → Keeps s body → Keeps s (with_length len n s body)
Keeps-with_length len n s h = Keeps-if s (len != n) (Keeps-generic s parameter_error) h

Keeps-response_storage :
    (t : StorageType) (offset len : ℕ) (s : Storage) → Keeps s (response_storage t offset len s)
unfolding response_storage
Keeps-response_storage t offset len s =
    Keeps-if s (ltb 60 len) (Keeps-generic s parameter_error)
      (Keeps-bind s (storage_read_data t offset len s) _ (Keeps-success s))

-- A command that writes no block, if it comes back, leaves the store as it was.
pub dispatch_keeps :
    (c : Command) (maps : List (List (List ℕ))) (info : List ℕ) (len : ℕ) (d : List ℕ) (s : Storage)
    (r : Storage × List Effect)
    → writes c ≡ false
    → dispatch c maps info len d s ≡ ok r
    → r.0 ≡ s
unfolding writes dispatch get_single_key_reply
dispatch_keeps get_information maps info len d s r quiet h =
    Keeps-with_length len 0 s (Keeps-success s info) r h
dispatch_keeps get_single_key maps info len d s r quiet h =
    Keeps-with_length len 3 s
      (Keeps-bind s (action_for_key maps (get_or d 0 0) (get_or d 1 0) (get_or d 2 0) s) _
        (λ code. Keeps-success s _))
      r h
dispatch_keeps get_single_config maps info len d s r quiet h =
    Keeps-with_length len 1 s (Keeps-ok s []) r h
dispatch_keeps read_config maps info len d s r quiet h =
    Keeps-with_length len 1 s (Keeps-ok s []) r h
dispatch_keeps reset_config maps info len d s r quiet h =
    Keeps-with_length len 1 s (Keeps-ok s []) r h
dispatch_keeps write_config maps info len d s r quiet h =
    Keeps-with_length len 1 s
      (Keeps-bind s (hid_send_data (response_code success ∷ [])) _
        (λ e. Keeps-ok s (flash_write (get_or d 0 0) ∷ e ∷ [])))
      r h
dispatch_keeps set_single_config maps info len d s r quiet h = Keeps-ok s [] r h
dispatch_keeps enter_dfu maps info len d s r quiet h =
    Keeps-if s (len == 1) (Keeps-ok s _) (Keeps-ok s []) r h
dispatch_keeps get_single_fn maps info len d s r quiet h =
    Keeps-with_length len 1 s (Keeps-generic s _) r h
dispatch_keeps get_all_fns maps info len d s r quiet h =
    Keeps-with_length len 1 s (Keeps-generic s _) r h
dispatch_keeps set_single_fn maps info len d s r quiet h =
    Keeps-with_length len 3 s (Keeps-bind s (uint16_read d 1) _ (λ keycode. Keeps-generic s _)) r h
dispatch_keeps get_all_config maps info len d s r quiet h = Keeps-generic s _ r h
dispatch_keeps set_all_config maps info len d s r quiet h = Keeps-generic s _ r h
dispatch_keeps set_all_fns maps info len d s r quiet h = Keeps-generic s _ r h
dispatch_keeps set_all_encoder maps info len d s r quiet h = Keeps-generic s _ r h
dispatch_keeps get_all_keys maps info len d s r quiet h =
    Keeps-with_length len 2 s
      (Keeps-bind s (uint16_read d 0) _ (λ offset. Keeps-response_storage _ offset 60 s)) r h
dispatch_keeps get_all_macro maps info len d s r quiet h =
    Keeps-with_length len 2 s
      (Keeps-bind s (uint16_read d 0) _ (λ offset. Keeps-response_storage _ offset 60 s)) r h
dispatch_keeps get_all_encoder maps info len d s r quiet h =
    Keeps-with_length len 2 s
      (Keeps-bind s (uint16_read d 0) _ (λ offset. Keeps-response_storage _ offset 60 s)) r h
dispatch_keeps set_single_key maps info len d s r quiet h = cc
dispatch_keeps set_all_keys maps info len d s r quiet h = cc
dispatch_keeps set_all_macro maps info len d s r quiet h = cc
