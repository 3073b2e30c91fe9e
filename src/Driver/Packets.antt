-- ===== src/Driver/Packets.antt =====
-- DRIVERS/keyboard_host_driver.c: what the host reads in a run of reports and IN tokens.
use mathlib.Core.List.{map}
use ch583_kbd_rtt.Base.{ℕ, ◌≡◌, refl, sym, ap, ◌∙◌, Bool, Option, none, some, List, [], ◌∷◌, ◌++◌}
use ch583_kbd_rtt.Host.{Sent}
use ch583_kbd_rtt.Driver.{
  Packet, Usb, Ports, Step, given, token1, token2, in_token1, in_token2, run,
}
use ch583_kbd_rtt.Driver.Slots.{
  host_view, IsSendable, IsUsb, IsDeal, Slots, put, to_list, reads, Pending, Holds,
}
use ch583_kbd_rtt.Driver.Handing.{drive-Gives}

-- What a token reads, and what it leaves.
abbrev Asked : Option Sent → Slots → Usb × List Packet → Type 0
Asked o rest r = IsUsb r.0 × Holds rest r.0 × (map host_view r.1 ≡ map some (to_list o))

abbrev with_ports : Option ℕ → Option ℕ → Usb → Usb
with_ports a b u = record u { ports = record { armed1 = a; armed2 = b } }

with_ports-IsUsb : (a b : Option ℕ) (u : Usb) → IsUsb u → IsUsb (with_ports a b u)
with_ports-IsUsb a b u v = record {
  mouse_size = v.mouse_size;
  mouse_id = v.mouse_id;
  extra_size = v.extra_size;
  nrko_size = v.nrko_size;
  ep1_size = v.ep1_size;
  ep2_size = v.ep2_size;
}

ask1 :
    (o p : Option Sent) (a b : Option ℕ) (u : Usb)
    → IsUsb u
    → Pending 1 o a u.ep1_in
    → Pending 2 p b u.ep2_in
    → Asked o (record { slot1 = none; slot2 = p }) (in_token1 (with_ports a b u))
unfolding in_token1
ask1 none p none b u v h k = (with_ports-IsUsb none b u v, record { first = _; second = k }, refl)
ask1 (some e) p (some len) b u v h k = (
  with_ports-IsUsb none b u v,
  record { first = _; second = k },
  ap (λ (x : Option Sent). x ∷ []) h,
)
ask1 none p (some len) b u v h k = absurd h
ask1 (some e) p none b u v h k = absurd h

ask2 :
    (o p : Option Sent) (a b : Option ℕ) (u : Usb)
    → IsUsb u
    → Pending 1 o a u.ep1_in
    → Pending 2 p b u.ep2_in
    → Asked p (record { slot1 = o; slot2 = none }) (in_token2 (with_ports a b u))
unfolding in_token2
ask2 o none a none u v h k = (with_ports-IsUsb a none u v, record { first = h; second = _ }, refl)
ask2 o (some e) a (some len) u v h k = (
  with_ports-IsUsb a none u v,
  record { first = h; second = _ },
  ap (λ (x : Option Sent). x ∷ []) k,
)
ask2 o none a (some len) u v h k = absurd k
ask2 o (some e) a none u v h k = absurd k

map-append {ℓ κ} :
    {A : Type ℓ} {B : Type κ} (f : A → B) (xs ys : List A) → map f (xs ++ ys) ≡ map f xs ++ map f ys
map-append f [] ys = refl
map-append f (x ∷ xs) ys = ap (λ zs. f x ∷ zs) (map-append f xs ys)

-- The reports that the run gives to the driver have their sizes.
abbrev pub AreSendable : List Step → Type 0
AreSendable [] = Unit
AreSendable (given e ∷ rest) = IsSendable e × AreSendable rest
AreSendable (token1 ∷ rest) = AreSendable rest
AreSendable (token2 ∷ rest) = AreSendable rest

-- A run that comes back, and what the host reads in it.
abbrev pub Reads : List Sent → Option (Usb × List Packet) → Type 0
Reads es m =
    (u' : Usb) × (ps : List Packet) × (m ≡ some (u', ps))
    × IsUsb u'
    × (map host_view ps ≡ map some es)

Reads-append :
    (xs es : List Sent) (out : List Packet) (m : Option (Usb × List Packet))
    → map host_view out ≡ map some xs
    → Reads es m
    → Reads (xs ++ es) (elim m [ none ↦ none | some r ↦ some (r.0, out ++ r.1) ])
Reads-append xs es out m h (u', ps, returns, valid, views) = (
  u',
  out ++ ps,
  ap (λ (o : Option (Usb × List Packet)). elim o [ none ↦ none | some r ↦ some (r.0, out ++ r.1) ])
      returns,
  valid,
  map-append host_view out ps
      ∙ ap (λ (ys : List (Option Sent)). ys ++ map host_view ps) h
      ∙ ap (λ (ys : List (Option Sent)). map some xs ++ ys) views
      ∙ sym (map-append some xs es),
)

module _ (deal : ℕ → ℕ → Ports → Ports) (law : IsDeal deal) (nkro : Bool) where
  -- For reports of their sizes and words of 16 bits, statics and buffers of their sizes, a
  -- DevEPn_IN_Deal that arms endpoint n with the length and no other, and slots that hold what is
  -- ready at the two endpoints: in any run of calls of the driver and IN tokens of endpoints 1 and
  -- 2, no copy leaves its buffer, and the host reads what the slots give, one for each endpoint. A
  -- call puts its report into the slot of its endpoint, in place of one that the host has not read,
  -- and a token takes the report out. Without one bit for each key, a keyboard report goes to
  -- endpoint 1 with its first eight bytes, and all others go to endpoint 2.
  pub run-Reads :
      (steps : List Step) (u : Usb) (s : Slots)
      → AreSendable steps
      → IsUsb u
      → Holds s u
      → Reads (reads nkro steps s) (run deal nkro steps u)
  unfolding run
  run-Reads [] u s ok v h = (u, [], refl, v, refl)
  run-Reads (given e ∷ rest) u s (ok, oks) v h =
      let g = drive-Gives deal law nkro e u s ok v h in
      let (u', ps, returns, valid, views) =
        run-Reads rest g.after (put nkro e s) oks g.valid g.holds in
      (
        u',
        ps,
        ap (λ (o : Option Usb). elim o [ none ↦ none | some x ↦ run deal nkro rest x ]) g.returns
            ∙ returns,
        valid,
        views,
      )
  run-Reads (token1 ∷ rest) u s ok v h =
      let (v', h', views) =
        ask1 s.slot1 s.slot2 u.ports.armed1 u.ports.armed2 u v h.first h.second in
      Reads-append (to_list s.slot1) _ (in_token1 u).1 _ views
        (run-Reads rest (in_token1 u).0 (record { slot1 = none; slot2 = s.slot2 }) ok v' h')
  run-Reads (token2 ∷ rest) u s ok v h =
      let (v', h', views) =
        ask2 s.slot1 s.slot2 u.ports.armed1 u.ports.armed2 u v h.first h.second in
      Reads-append (to_list s.slot2) _ (in_token2 u).1 _ views
        (run-Reads rest (in_token2 u).0 (record { slot1 = s.slot1; slot2 = none }) ok v' h')
