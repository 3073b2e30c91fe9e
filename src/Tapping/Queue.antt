-- ===== src/Tapping/Queue.antt =====
-- The waiting buffer of TMK/action_tapping.c as a queue of at most seven records.
use ch583_kbd_rtt.Base.{
  ℕ, zero, suc, ◌+◌, ◌%◌, ◌<◌, ◌≡◌, refl, ap, ◌∙◌, ◌≢◌, true, false, List, [], ◌∷◌, ◌++◌, arith,
  ◌==◌, ==_iff, ne→==, length, set, length-set, get_or-set_self, get_or-set_ne,
}
use ch583_kbd_rtt.Event.{KeyRecord, is_noevent, no_record}
use ch583_kbd_rtt.Tapping.{
  Tapping, slot, next_slot, rounds, waiting_buffer_size, waiting_buffer_enq,
}

-- The records of `n` slots from slot `i` on.
unfoldable pub slots : ℕ → ℕ → List KeyRecord → List KeyRecord
slots zero i buffer = []
slots (suc n) i buffer = slot buffer i ∷ slots n (next_slot i) buffer

module _ {S : Type 0} where
  -- The records that wait, oldest first.
  abbrev pub waiting : Tapping S → List KeyRecord
  waiting s =
      slots (rounds s.waiting_buffer_head s.waiting_buffer_tail) s.waiting_buffer_tail
        s.waiting_buffer

  pub record IsValid (s : Tapping S) : Type 0 where
    pub size : length s.waiting_buffer ≡ waiting_buffer_size
    pub head_in : s.waiting_buffer_head < waiting_buffer_size
    pub tail_in : s.waiting_buffer_tail < waiting_buffer_size

pub length-slots : (n i : ℕ) (buffer : List KeyRecord) → length (slots n i buffer) ≡ n
unfolding slots
length-slots zero i buffer = refl
length-slots (suc n) i buffer = ap suc (length-slots n (next_slot i) buffer)

-- A write behind the last of the slots adds the record at the end.
slots-set :
    (n i h : ℕ) (buffer : List KeyRecord) (r : KeyRecord)
    → length buffer ≡ 8
    → i < 8
    → n < 8
    → h ≡ (i + n) % 8
    → slots (suc n) i (set buffer h r) ≡ slots n i buffer ++ (r ∷ [])
unfolding slots
slots-set zero i h buffer r size hi hn e =
    let at_end : i ≡ h = omega arith in
    rw at_end (ap (λ x. x ∷ []) (get_or-set_self buffer h r no_record (omega arith)))
slots-set (suc n) i h buffer r size hi hn e =
    let apart : h ≢ i = omega arith in
    rw (get_or-set_ne buffer h i r no_record apart) (
      ap (λ xs. slot buffer i ∷ xs)
        (slots-set n (next_slot i) h buffer r size (omega arith) (omega arith) (omega arith)))

module _ {S : Type 0} (s : Tapping S) (v : IsValid s) (r : KeyRecord)
    (real : is_noevent r.event ≡ false) where
  -- In a valid state with seven records waiting, a real event is refused and nothing changes.
  enq_full : length (waiting s) ≡ 7 → waiting_buffer_enq r s ≡ (s, false)
  unfolding waiting_buffer_enq
  enq_full full =
      let count : rounds s.waiting_buffer_head s.waiting_buffer_tail ≡ 7 = omega (
        arith,
        length-slots (rounds s.waiting_buffer_head s.waiting_buffer_tail) s.waiting_buffer_tail
            s.waiting_buffer,
      ) in
      let test : (next_slot s.waiting_buffer_head == s.waiting_buffer_tail) ≡ true =
        (==_iff _ _).1 (omega (arith, v.head_in, v.tail_in)) in
      rw (real, test)

  -- In a valid state with fewer than seven records waiting, a real event is stored behind them, and
  -- the state stays valid.
  enq_room :
      length (waiting s) < 7
      → let (s', stored) = waiting_buffer_enq r s in
        (stored ≡ true)
        × (waiting s' ≡ waiting s ++ (r ∷ []))
        × IsValid s'
        × (s'.keyboard ≡ s.keyboard)
  unfolding waiting_buffer_enq
  enq_room room =
      let h = s.waiting_buffer_head in
      let t = s.waiting_buffer_tail in
      let n = rounds h t in
      let count : n < 7 = omega (arith, room, length-slots n t s.waiting_buffer) in
      let test : (next_slot h == t) ≡ false = ne→== _ _ (omega (arith, v.head_in, v.tail_in)) in
      let longer : rounds (next_slot h) t ≡ suc n = omega (arith, v.head_in, v.tail_in) in
      let last : h ≡ (t + n) % 8 = omega (arith, v.head_in, v.tail_in) in
      let stored =
        slots-set n t h s.waiting_buffer r v.size v.tail_in (omega (arith, count)) last in
      rw (real, test)
        (
          refl,
          ap (λ k. slots k t (set s.waiting_buffer h r)) longer ∙ stored,
          record {
            size = length-set s.waiting_buffer h r ∙ v.size;
            head_in = omega arith;
            tail_in = v.tail_in;
          },
          refl,
        )
