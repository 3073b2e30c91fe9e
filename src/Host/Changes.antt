-- ===== src/Host/Changes.antt =====
-- TMK/host.c: the driver gets the changes of the system and of the consumer report.
use mathlib.Core.List.{map, append_assoc, append-nil}
use ch583_kbd_rtt.Base.{
  ℕ, ◌≡◌, refl, sym, ap, ◌∙◌, true, false, List, [], ◌∷◌, ◌++◌, ◌==◌, if◌then◌else◌, inl, inr,
  Bool-cases,
}
use ch583_kbd_rtt.Host.{Host, system, consumer, give, host_system_send, host_consumer_send}

-- The reports that differ from the one before, after `last`.
unfoldable pub changed : ℕ → List ℕ → List ℕ
changed last [] = []
changed last (r ∷ rs) =
    let repeated = changed last rs in
    let fresh = r ∷ changed r rs in if r == last then repeated else fresh

unfoldable pub send_systems : List ℕ → Host → Host
unfolding host_system_send
send_systems [] h = h
send_systems (r ∷ rs) h = send_systems rs (host_system_send r h)

unfoldable pub send_consumers : List ℕ → Host → Host
unfolding host_consumer_send
send_consumers [] h = h
send_consumers (r ∷ rs) h = send_consumers rs (host_consumer_send r h)

changed-repeated :
    (last r : ℕ) (rs : List ℕ) → (r == last) ≡ true → changed last (r ∷ rs) ≡ changed last rs
unfolding changed
changed-repeated last r rs e = rw e refl

changed-fresh :
    (last r : ℕ) (rs : List ℕ) → (r == last) ≡ false → changed last (r ∷ rs) ≡ r ∷ changed r rs
unfolding changed
changed-fresh last r rs e = rw e refl

system_repeated : (r : ℕ) (h : Host) → (r == h.last_system_report) ≡ true → host_system_send r h ≡ h
unfolding host_system_send
system_repeated r h e = rw e refl

system_fresh :
    (r : ℕ) (h : Host)
    → h.driver ≡ true
    → (r == h.last_system_report) ≡ false
    → host_system_send r h ≡ record h { last_system_report = r; sent = h.sent ++ (system r ∷ []) }
unfolding host_system_send give
system_fresh r h ready e = rw (e, ready) refl

consumer_repeated :
    (r : ℕ) (h : Host) → (r == h.last_consumer_report) ≡ true → host_consumer_send r h ≡ h
unfolding host_consumer_send
consumer_repeated r h e = rw e refl

consumer_fresh :
    (r : ℕ) (h : Host)
    → h.driver ≡ true
    → (r == h.last_consumer_report) ≡ false
    → host_consumer_send r h
      ≡ record h { last_consumer_report = r; sent = h.sent ++ (consumer r ∷ []) }
unfolding host_consumer_send give
consumer_fresh r h ready e = rw (e, ready) refl

systems_sent :
    (rs : List ℕ) (h : Host)
    → h.driver ≡ true
    → (send_systems rs h).sent ≡ h.sent ++ map system (changed h.last_system_report rs)
unfolding send_systems
systems_sent [] h ready = unfold changed in sym (append-nil h.sent)
systems_sent (r ∷ rs) h ready = elim (Bool-cases (r == h.last_system_report)) [
  | inl same ↦
      ap (λ x. (send_systems rs x).sent) (system_repeated r h same)
      ∙ systems_sent rs h ready
      ∙ ap (λ xs. h.sent ++ map system xs) (sym (changed-repeated h.last_system_report r rs same))
  | inr fresh ↦
      let h' : Host = record h { last_system_report = r; sent = h.sent ++ (system r ∷ []) } in
      ap (λ x. (send_systems rs x).sent) (system_fresh r h ready fresh)
      ∙ systems_sent rs h' ready
      ∙ append_assoc h.sent (system r ∷ []) _
      ∙ ap (λ xs. h.sent ++ map system xs) (sym (changed-fresh h.last_system_report r rs fresh))
]

consumers_sent :
    (rs : List ℕ) (h : Host)
    → h.driver ≡ true
    → (send_consumers rs h).sent ≡ h.sent ++ map consumer (changed h.last_consumer_report rs)
unfolding send_consumers
consumers_sent [] h ready = unfold changed in sym (append-nil h.sent)
consumers_sent (r ∷ rs) h ready = elim (Bool-cases (r == h.last_consumer_report)) [
  | inl same ↦
      ap (λ x. (send_consumers rs x).sent) (consumer_repeated r h same)
      ∙ consumers_sent rs h ready
      ∙ ap (λ xs. h.sent ++ map consumer xs)
          (sym (changed-repeated h.last_consumer_report r rs same))
  | inr fresh ↦
      let h' : Host = record h { last_consumer_report = r; sent = h.sent ++ (consumer r ∷ []) } in
      ap (λ x. (send_consumers rs x).sent) (consumer_fresh r h ready fresh)
      ∙ consumers_sent rs h' ready
      ∙ append_assoc h.sent (consumer r ∷ []) _
      ∙ ap (λ xs. h.sent ++ map consumer xs) (sym (changed-fresh h.last_consumer_report r rs fresh))
]

-- With a driver set, of any sequence of system reports the driver gets those that differ from the
-- one before, in order, and so of consumer reports.
pub changes_sent :
    (rs : List ℕ) (h : Host)
    → h.driver ≡ true
    → ((send_systems rs h).sent ≡ h.sent ++ map system (changed h.last_system_report rs))
      × ((send_consumers rs h).sent ≡ h.sent ++ map consumer (changed h.last_consumer_report rs))
changes_sent rs h ready = (systems_sent rs h ready, consumers_sent rs h ready)
