-- ===== src/Driver/Handing.antt =====
-- DRIVERS/keyboard_host_driver.c: a call of the driver puts its report into the slot of its endpoint.
use ch583_kbd_rtt.Base.{
  ℕ, zero, suc, ◌+◌, ◌*◌, ◌/◌, ◌<◌, ◌≤◌, ◌≡◌, refl, ap, ◌∙◌, Bool, true, arith, Option, none, some,
  inl, inr, Bool-cases, List, [], ◌∷◌, ◌++◌, leb, length, length-drop, length-take, length-append,
  get_or, take, drop, u8,
}
use ch583_kbd_rtt.Host.{Sent, keyboard, mouse, system, consumer}
use ch583_kbd_rtt.Driver.{Usb, Ports, word_bytes, copy_at, hand_over1, hand_over2, drive}
use ch583_kbd_rtt.Driver.Slots.{host_view, IsSendable, IsUsb, IsDeal, Slots, put, Holds, Gives}

take_again : (n : ℕ) (xs ys : List ℕ) → n ≤ length xs → take n (take n xs ++ ys) ≡ take n xs
take_again zero xs ys h = refl
take_again (suc n) [] ys h = absurd (omega (arith, h))
take_again (suc n) (x ∷ xs) ys h =
    ap (λ (zs : List ℕ). x ∷ zs) (take_again n xs ys (omega (arith, h)))

take_whole : (n : ℕ) (xs : List ℕ) → length xs ≡ n → take n xs ≡ xs
take_whole zero [] h = refl
take_whole zero (x ∷ xs) h = absurd (omega (arith, h))
take_whole (suc n) [] h = refl
take_whole (suc n) (x ∷ xs) h = ap (λ (ys : List ℕ). x ∷ ys) (take_whole n xs (omega (arith, h)))

drop_whole : (n : ℕ) (xs : List ℕ) → length xs ≡ n → drop n xs ≡ []
drop_whole zero [] h = refl
drop_whole zero (x ∷ xs) h = absurd (omega (arith, h))
drop_whole (suc n) [] h = refl
drop_whole (suc n) (x ∷ xs) h = drop_whole n xs (omega (arith, h))

append_nil {ℓ} : {A : Type ℓ} → (xs : List A) → xs ++ [] ≡ xs
append_nil [] = refl
append_nil (x ∷ xs) = ap (λ ys. x ∷ ys) (append_nil xs)

-- A report is copied behind the first byte of a buffer that is one byte longer.
copy_behind :
    (n : ℕ) (source buffer : List ℕ)
    → length source ≡ n
    → length buffer ≡ suc n
    → copy_at 1 n source buffer ≡ some (get_or buffer 0 0 ∷ source)
unfolding copy_at
copy_behind n source [] hs hb = absurd (omega (arith, hb))
copy_behind n source (x ∷ buffer) hs hb =
    let fits : leb n (length source) ≡ true = ground (arith, hs) in
    let room : leb (1 + n) (length (x ∷ buffer)) ≡ true = ground (arith, hb) in
    rw
      (
        fits,
        room,
        take_whole n source hs,
        drop_whole (1 + n) (x ∷ buffer) (omega (arith, hb)),
        append_nil source,
      )
      refl

word_again : (d : ℕ) → d < 65536 → u8 d + u8 (d / 256) * 256 ≡ d
word_again d h = omega arith

-- A report is copied to the start of an endpoint's buffer.
copy_front :
    (n : ℕ) (source buffer : List ℕ)
    → n ≤ length source
    → n ≤ 64
    → length buffer ≡ 64
    → (copy_at 0 n source buffer ≡ some (take n source ++ drop n buffer))
      × (length (take n source ++ drop n buffer) ≡ 64)
unfolding copy_at
copy_front n source buffer hs hn hb =
    let fits : leb n (length source) ≡ true = ground (arith, hs) in
    let room : leb (0 + n) (length buffer) ≡ true = ground (arith, hb, hn) in
    let start : 0 + n ≡ n = omega arith in
    (
      rw (fits, room, start) refl,
      omega (
        arith,
        length-append (take n source) (drop n buffer),
        length-take n source,
        length-drop n buffer,
        hs,
        hn,
        hb,
      ),
    )

module _ (deal : ℕ → ℕ → Ports → Ports) (law : IsDeal deal) where
  hand_over1-Gives :
      (n : ℕ) (bytes : List ℕ) (u : Usb) (s : Slots) (e : Sent)
      → n ≤ length bytes
      → n ≤ 64
      → IsUsb u
      → Holds s u
      → host_view (record { endpoint = 1; bytes = take n bytes }) ≡ some e
      → Gives (record { slot1 = some e; slot2 = s.slot2 }) (hand_over1 deal n bytes u)
  unfolding hand_over1
  hand_over1-Gives n bytes u s e hs hn v h view =
      let (copied, size) = copy_front n bytes u.ep1_in hs hn v.ep1_size in
      record {
        after = record u {
          ep1_in = take n bytes ++ drop n u.ep1_in;
          ports = record { armed1 = some n; armed2 = u.ports.armed2 };
        };
        returns =
            ap
              (λ (o : Option (List ℕ)). elim o [
                | none ↦ none
                | some buffer ↦ some (record u { ep1_in = buffer; ports = deal 1 n u.ports })
              ])
              copied
            ∙ ap
                (λ (p : Ports).
                  some (record u { ep1_in = take n bytes ++ drop n u.ep1_in; ports = p }))
                (law.port1 n u.ports);
        valid = record {
          mouse_size = v.mouse_size;
          mouse_id = v.mouse_id;
          extra_size = v.extra_size;
          nrko_size = v.nrko_size;
          ep1_size = size;
          ep2_size = v.ep2_size;
        };
        holds = record {
          first = rw (take_again n bytes (drop n u.ep1_in) hs) view;
          second = h.second;
        };
      }

  hand_over2-Gives :
      (n : ℕ) (bytes : List ℕ) (u : Usb) (s : Slots) (e : Sent)
      → n ≤ length bytes
      → n ≤ 64
      → IsUsb u
      → Holds s u
      → host_view (record { endpoint = 2; bytes = take n bytes }) ≡ some e
      → Gives (record { slot1 = s.slot1; slot2 = some e }) (hand_over2 deal n bytes u)
  unfolding hand_over2
  hand_over2-Gives n bytes u s e hs hn v h view =
      let (copied, size) = copy_front n bytes u.ep2_in hs hn v.ep2_size in
      record {
        after = record u {
          ep2_in = take n bytes ++ drop n u.ep2_in;
          ports = record { armed1 = u.ports.armed1; armed2 = some n };
        };
        returns =
            ap
              (λ (o : Option (List ℕ)). elim o [
                | none ↦ none
                | some buffer ↦ some (record u { ep2_in = buffer; ports = deal 2 n u.ports })
              ])
              copied
            ∙ ap
                (λ (p : Ports).
                  some (record u { ep2_in = take n bytes ++ drop n u.ep2_in; ports = p }))
                (law.port2 n u.ports);
        valid = record {
          mouse_size = v.mouse_size;
          mouse_id = v.mouse_id;
          extra_size = v.extra_size;
          nrko_size = v.nrko_size;
          ep1_size = v.ep1_size;
          ep2_size = size;
        };
        holds = record {
          first = h.first;
          second = rw (take_again n bytes (drop n u.ep2_in) hs) view;
        };
      }

  -- A report that is first copied into one of the statics.
  copied-Gives :
      (s : Slots) (f : List ℕ → Option Usb) {o : Option (List ℕ)} (bytes : List ℕ)
      → o ≡ some bytes
      → Gives s (f bytes)
      → Gives s (elim o [ none ↦ none | some r ↦ f r ])
  copied-Gives s f bytes e g = record {
    after = g.after;
    returns = ap (λ (o' : Option (List ℕ)). elim o' [ none ↦ none | some r ↦ f r ]) e ∙ g.returns;
    valid = g.valid;
    holds = g.holds;
  }

  module _ (nkro : Bool) where
    pub drive-Gives :
        (e : Sent) (u : Usb) (s : Slots)
        → IsSendable e
        → IsUsb u
        → Holds s u
        → Gives (put nkro e s) (drive deal nkro e u)
    unfolding drive host_view
    drive-Gives (system d) u s h v holds =
        hand_over2-Gives 3 (2 ∷ word_bytes d) (record u { extra_report = 2 ∷ word_bytes d }) s
          (system d) (omega arith) (omega arith)
          (record {
            mouse_size = v.mouse_size;
            mouse_id = v.mouse_id;
            extra_size = refl;
            nrko_size = v.nrko_size;
            ep1_size = v.ep1_size;
            ep2_size = v.ep2_size;
          })
          (record { first = holds.first; second = holds.second })
          (ap (λ (n : ℕ). some (system n)) (word_again d h))
    drive-Gives (consumer d) u s h v holds =
        hand_over2-Gives 3 (3 ∷ word_bytes d) (record u { extra_report = 3 ∷ word_bytes d }) s
          (consumer d) (omega arith) (omega arith)
          (record {
            mouse_size = v.mouse_size;
            mouse_id = v.mouse_id;
            extra_size = refl;
            nrko_size = v.nrko_size;
            ep1_size = v.ep1_size;
            ep2_size = v.ep2_size;
          })
          (record { first = holds.first; second = holds.second })
          (ap (λ (n : ℕ). some (consumer n)) (word_again d h))
    drive-Gives (mouse bytes) u s h v holds =
        let full : List ℕ = 1 ∷ bytes in
        copied-Gives _ (λ r. hand_over2 deal 6 r (record u { mouse_report = r })) full
          (copy_behind 5 bytes u.mouse_report h v.mouse_size
            ∙ ap (λ (x : ℕ). some (x ∷ bytes)) v.mouse_id)
          (hand_over2-Gives 6 full (record u { mouse_report = full }) s (mouse bytes)
            (omega (arith, h)) (omega arith)
            (record {
              mouse_size = omega (arith, h);
              mouse_id = refl;
              extra_size = v.extra_size;
              nrko_size = v.nrko_size;
              ep1_size = v.ep1_size;
              ep2_size = v.ep2_size;
            })
            (record { first = holds.first; second = holds.second })
            (ap (λ (x : List ℕ). some (mouse x)) (take_whole 5 bytes h)))
    drive-Gives (keyboard raw) u s h v holds = elim (Bool-cases nkro) [
      | inl bits ↦
          let full : List ℕ = 0x80 ∷ raw in
          let size : length (0x80 ∷ drop 1 u.nrko_report) ≡ 29 =
            omega (arith, length-drop 1 u.nrko_report, v.nrko_size) in
          rw bits (
            copied-Gives _ (λ r. hand_over2 deal 29 r (record u { nrko_report = r })) full
              (copy_behind 28 raw (0x80 ∷ drop 1 u.nrko_report) h size)
              (hand_over2-Gives 29 full (record u { nrko_report = full }) s (keyboard raw)
                (omega (arith, h)) (omega arith)
                (record {
                  mouse_size = v.mouse_size;
                  mouse_id = v.mouse_id;
                  extra_size = v.extra_size;
                  nrko_size = omega (arith, h);
                  ep1_size = v.ep1_size;
                  ep2_size = v.ep2_size;
                })
                (record { first = holds.first; second = holds.second })
                (ap (λ (x : List ℕ). some (keyboard x)) (take_whole 28 raw h))))
      | inr boot ↦ rw boot (
          hand_over1-Gives 8 raw u s (keyboard (take 8 raw)) (omega (arith, h)) (omega arith) v
            holds refl)
    ]
