-- ===== src/Report/SixKey.antt =====
-- The ring of six keys of TMK/action_util.c: six rounds are enough for every loop, and an entered
-- key is reported.
use ch583_kbd_rtt.Base.{
  ℕ, zero, suc, ◌+◌, ◌-◌, ◌%◌, ◌<◌, ◌≡◌, refl, ap, ◌∙◌, ◌≢◌, false, ◌⊎◌, inl, inr, Bool-cases,
  Option, none, some, List, arith, ◌==◌, ==_iff, ◌!=◌, length, length-set, get_or-set_self, u8,
}
use ch583_kbd_rtt.Report.{Report, six_keys, keyboard_report_size}
use ch583_kbd_rtt.Report.Ring.{
  key_at, put_key, ro_inc, ro_sub, ro_dec, present, absent, first_empty, scan_ring, Shift,
  shift_step, shift_ring, append_key, make_room, after_scan, add_key_byte, retreat, take_out,
  close_gap, del_from, del_key_byte,
}

-- The ring's indices are places of the ring, and the report has its size.
pub record IsRing (r : Report) : Type 0 where
  pub head_in : r.cb_head < six_keys
  pub tail_in : r.cb_tail < six_keys
  pub size : length r.raw ≡ keyboard_report_size

-- The key stands in one of the six places.
abbrev pub Reported : List ℕ → ℕ → Type 0
Reported raw code = (i : ℕ) × (i < six_keys) × (key_at raw i ≡ code)

==-ne : (a b : ℕ) → (a == b) ≡ false → a ≢ b
==-ne a b h = ground arith

-- A round that does not reach the tail is nearer to it.
closer :
    (fuel tail i : ℕ)
    → tail < 6
    → i < 6
    → (tail + 5 - i) % 6 < suc fuel
    → (ro_inc i == tail) ≡ false
    → (tail + 5 - ro_inc i) % 6 < fuel
closer fuel tail i ht hi d more =
    let apart : (i + 1) % 6 ≢ tail = ==-ne (ro_inc i) tail more in omega arith

-- The scan ends within the distance to the tail; it says that the key is present only of a key
-- that is reported.
scan_ring-ends :
    (fuel : ℕ) (raw : List ℕ) (code tail i : ℕ) (empty : Option ℕ)
    → tail < 6
    → i < 6
    → (tail + 5 - i) % 6 < fuel
    → ((scan_ring fuel raw code tail i empty ≡ some present) × Reported raw code)
      ⊎ ((e : Option ℕ) × scan_ring fuel raw code tail i empty ≡ some (absent e))
unfolding scan_ring
scan_ring-ends zero raw code tail i empty ht hi d = absurd (omega arith)
scan_ring-ends (suc fuel) raw code tail i empty ht hi d = elim (Bool-cases (key_at raw i == code)) [
  | inl here ↦ rw here (inl (refl, (i, hi, (==_iff _ _).0 here)))
  | inr other ↦ elim (Bool-cases (ro_inc i == tail)) [
    | inl last ↦ rw (other, last) (inr (first_empty empty i (key_at raw i), refl))
    | inr more ↦
        let rest =
          scan_ring-ends fuel raw code tail (ro_inc i) (first_empty empty i (key_at raw i)) ht
            (omega arith) (closer fuel tail i ht hi d more) in
        rw (other, more) rest
  ]
]

shift_step-length : (i : ℕ) (s : Shift) → length (shift_step i s).raw ≡ length s.raw
shift_step-length i s = elim (Bool-cases (key_at s.raw i != 0)) [
  | inl used ↦ rw used (
      length-set (put_key s.raw s.empty (key_at s.raw i)) (2 + i) 0
      ∙ length-set s.raw (2 + s.empty) (key_at s.raw i))
  | inr unused ↦ rw unused refl
]

shift_ring-ends :
    (fuel tail i : ℕ) (s : Shift)
    → tail < 6
    → i < 6
    → (tail + 5 - i) % 6 < fuel
    → (s' : Shift) × (shift_ring fuel tail i s ≡ some s') × (length s'.raw ≡ length s.raw)
unfolding shift_ring
shift_ring-ends zero tail i s ht hi d = absurd (omega arith)
shift_ring-ends (suc fuel) tail i s ht hi d = elim (Bool-cases (ro_inc i == tail)) [
  | inl last ↦ rw last (shift_step i s, refl, shift_step-length i s)
  | inr more ↦
      let (s', ends, len) =
        shift_ring-ends fuel tail (ro_inc i) (shift_step i s) ht (omega arith)
          (closer fuel tail i ht hi d more) in
      rw more (s', ends, len ∙ shift_step-length i s)
]

-- The tail goes back at most to the head.
retreat-ends :
    (fuel : ℕ) (raw : List ℕ) (head tail : ℕ)
    → head < 6
    → tail < 6
    → (tail + 5 - head) % 6 < fuel
    → (tail' : ℕ) × (retreat fuel raw head tail ≡ some tail') × (tail' < 6)
unfolding retreat
retreat-ends zero raw head tail hh ht d = absurd (omega arith)
retreat-ends (suc fuel) raw head tail hh ht d =
    elim (Bool-cases (key_at raw (ro_dec (ro_dec tail)) != 0)) [
      | inl key ↦ rw key (ro_dec tail, refl, omega arith)
      | inr empty ↦ elim (Bool-cases (ro_dec tail == head)) [
        | inl last ↦ rw (empty, last) (ro_dec tail, refl, omega arith)
        | inr more ↦
            let apart : (tail + 6 - 1) % 6 ≢ head = ==-ne (ro_dec tail) head more in
            rw (empty, more)
              (retreat-ends fuel raw head (ro_dec tail) hh (omega arith) (omega arith))
      ]
    ]

make_room-IsRing :
    (empty : Option ℕ) (r : Report)
    → IsRing r
    → (r' : Report) × (make_room empty r ≡ some r') × IsRing r'
unfolding make_room
make_room-IsRing none r v = elim (Bool-cases (r.cb_tail == r.cb_head)) [
  | inl full ↦ rw full (
    record r { cb_head = ro_inc r.cb_head; cb_count = u8 (r.cb_count + 255) },
    refl,
    record { head_in = omega arith; tail_in = v.tail_in; size = v.size },
  )
  | inr room ↦ rw room (r, refl, v)
]
make_room-IsRing (some e) r v = elim (Bool-cases (r.cb_tail == r.cb_head)) [
  | inl full ↦
      let (s, ends, len) =
        shift_ring-ends six_keys r.cb_tail (ro_inc e)
          (record { raw = r.raw; empty = e; offset = 1 }) v.tail_in (omega arith) (omega arith) in
      rw (full, ends)
        (
          record r { raw = s.raw; cb_tail = ro_sub r.cb_tail s.offset },
          refl,
          record { head_in = v.head_in; tail_in = omega arith; size = len ∙ v.size },
        )
  | inr room ↦ rw room (r, refl, v)
]

append_key-Reported :
    (code : ℕ) (r : Report)
    → IsRing r
    → Reported (append_key code r).raw code × IsRing (append_key code r)
unfolding append_key
append_key-Reported code r v = (
  (
    r.cb_tail,
    v.tail_in,
    get_or-set_self r.raw (2 + r.cb_tail) code 0 (omega (arith, v.size, v.tail_in)),
  ),
  record {
    head_in = v.head_in;
    tail_in = omega arith;
    size = length-set r.raw (2 + r.cb_tail) code ∙ v.size;
  },
)

after_scan-room :
    (code : ℕ) (empty : Option ℕ) (r r' : Report)
    → make_room empty r ≡ some r'
    → after_scan code r (some (absent empty)) ≡ some (append_key code r')
unfolding after_scan
after_scan-room code empty r r' room =
    ap (elim [ none ↦ none | some x ↦ some (append_key code x) ]) room

-- Entering a key into a ring whose indices are in range ends, with six rounds for each loop, and
-- leaves a ring in range in which the key is reported.
pub add_key_byte-reports :
    (code : ℕ) (r : Report)
    → IsRing r
    → (r' : Report) × (add_key_byte code r ≡ some r') × IsRing r' × Reported r'.raw code
unfolding add_key_byte after_scan
add_key_byte-reports code r v = elim (Bool-cases (r.cb_count != 0)) [
  | inr fresh ↦
      let (there, v') = append_key-Reported code r v in
      rw fresh (append_key code r, refl, v', there)
  | inl used ↦
      elim (scan_ring-ends six_keys r.raw code r.cb_tail r.cb_head none v.tail_in v.head_in
        (omega arith)) [
          | inl (found, there) ↦ rw (used, found) (r, refl, v, there)
          | inr (e, missing) ↦
              let (r', room, v') = make_room-IsRing e r v in
              let (there, v'') = append_key-Reported code r' v' in
              rw (used, missing) (append_key code r', after_scan-room code e r r' room, v'', there)
        ]
]

close_gap-IsRing :
    (i : ℕ) (r : Report) → IsRing r → (r' : Report) × (close_gap i r ≡ some r') × IsRing r'
unfolding close_gap
close_gap-IsRing i r v = elim (Bool-cases (i == ro_dec r.cb_tail)) [
  | inl next ↦
      let (tail, ends, tail_in) =
        retreat-ends six_keys r.raw r.cb_head r.cb_tail v.head_in v.tail_in (omega arith) in
      rw (next, ends)
        (
          record r { cb_tail = tail },
          refl,
          record { head_in = v.head_in; tail_in = tail_in; size = v.size },
        )
  | inr apart ↦ rw apart (r, refl, v)
]

take_out-IsRing : (i : ℕ) (r : Report) → IsRing r → IsRing (take_out i r)
unfolding take_out
take_out-IsRing i r v = elim (Bool-cases (u8 (r.cb_count + 255) == 0)) [
  | inl last ↦ rw last (record {
    head_in = omega arith;
    tail_in = omega arith;
    size = length-set r.raw (2 + i) 0 ∙ v.size;
  })
  | inr more ↦ rw more (record {
    head_in = v.head_in;
    tail_in = v.tail_in;
    size = length-set r.raw (2 + i) 0 ∙ v.size;
  })
]

del_from-IsRing :
    (fuel code i : ℕ) (r : Report)
    → IsRing r
    → i < 6
    → (r.cb_tail + 5 - i) % 6 < fuel
    → (r' : Report) × (del_from fuel code i r ≡ some r') × IsRing r'
unfolding del_from
del_from-IsRing zero code i r v hi d = absurd (omega arith)
del_from-IsRing (suc fuel) code i r v hi d = elim (Bool-cases (key_at r.raw i == code)) [
  | inl here ↦ rw here (close_gap-IsRing i (take_out i r) (take_out-IsRing i r v))
  | inr other ↦ elim (Bool-cases (ro_inc i == r.cb_tail)) [
    | inl last ↦ rw (other, last) (r, refl, v)
    | inr more ↦
        rw (other, more)
          (del_from-IsRing fuel code (ro_inc i) r v (omega arith)
            (closer fuel r.cb_tail i v.tail_in hi d more))
  ]
]

-- Taking a key out of a ring whose indices are in range ends, with six rounds for each loop, and
-- leaves a ring in range.
pub del_key_byte-IsRing :
    (code : ℕ) (r : Report) → IsRing r → (r' : Report) × (del_key_byte code r ≡ some r') × IsRing r'
unfolding del_key_byte
del_key_byte-IsRing code r v = elim (Bool-cases (r.cb_count != 0)) [
  | inl used ↦ rw used (del_from-IsRing six_keys code r.cb_head r v v.head_in (omega arith))
  | inr idle ↦ rw idle (r, refl, v)
]
