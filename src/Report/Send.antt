-- ===== src/Report/Send.antt =====
-- `send_keyboard_report` and `has_anykey` of TMK/action_util.c: how long a one-shot modifier lasts.
use ch583_kbd_rtt.Base.{
  ℕ, zero, suc, ◌+◌, ◌<◌, ◌≤◌, ◌≡◌, refl, sym, ◌∙◌, ◌≢◌, true, inl, inr, Bool-cases, List, arith,
  ◌==◌, ==_iff, ◌!=◌, length, length-set, get_or, set, get_or-set_self, get_or-set_ne, bit_or, u8,
}
use ch583_kbd_rtt.Report.{
  Report, keyboard_report_size, count_from, has_anykey, clear_oneshot_mods, send_keyboard_report,
}

count_from-ge : (left i cnt : ℕ) (raw : List ℕ) → cnt + left < 256 → cnt ≤ count_from left i cnt raw
unfolding count_from
count_from-ge zero i cnt raw h = omega arith
count_from-ge (suc left) i cnt raw h = elim (Bool-cases (get_or raw i 0 != 0)) [
  | inl set ↦
      let same : u8 (cnt + 1) ≡ cnt + 1 = omega arith in
      let more : cnt + 1 ≤ count_from left (i + 1) (cnt + 1) raw =
        count_from-ge left (i + 1) (cnt + 1) raw (omega arith) in
      rw (set, same) (omega (arith, more))
  | inr unset ↦ rw unset (count_from-ge left (i + 1) cnt raw (omega arith))
]

-- A byte that is set is counted.
count_from-set :
    (left i cnt j : ℕ) (raw : List ℕ)
    → cnt + left < 256
    → i ≤ j
    → j < i + left
    → get_or raw j 0 ≢ 0
    → cnt < count_from left i cnt raw
unfolding count_from
count_from-set zero i cnt j raw h from to byte = absurd (omega arith)
count_from-set (suc left) i cnt j raw h from to byte = elim (Bool-cases (i == j)) [
  | inl here ↦
      let e : i ≡ j = (==_iff i j).0 here in
      let nonzero : (get_or raw i 0 != 0) ≡ true = rw e (ground arith) in
      let same : u8 (cnt + 1) ≡ cnt + 1 = omega arith in
      let more = count_from-ge left (i + 1) (cnt + 1) raw (omega arith) in
      rw (nonzero, same) (omega (arith, more))
  | inr later ↦
      let apart : i ≢ j = ground arith in
      elim (Bool-cases (get_or raw i 0 != 0)) [
        | inl counted ↦
            let same : u8 (cnt + 1) ≡ cnt + 1 = omega arith in
            let more =
              count_from-set left (i + 1) (cnt + 1) j raw (omega arith) (omega (arith, apart))
                (omega arith) byte in
            rw (counted, same) (omega (arith, more))
        | inr unset ↦ rw unset (
            count_from-set left (i + 1) cnt j raw (omega arith) (omega (arith, apart)) (omega arith)
              byte)
      ]
]

count_from-none :
    (left i cnt : ℕ) (raw : List ℕ)
    → ((j : ℕ) → i ≤ j → j < i + left → get_or raw j 0 ≡ 0)
    → count_from left i cnt raw ≡ cnt
unfolding count_from
count_from-none zero i cnt raw none_set = refl
count_from-none (suc left) i cnt raw none_set =
    rw (none_set i (omega arith) (omega arith))
      (count_from-none left (i + 1) cnt raw (λ j from to. none_set j (omega arith) (omega arith)))

module _ (r : Report) (armed : r.oneshot_mods ≢ 0) where
  abbrev shot : Report
  shot = record r { raw = set r.raw 0 (bit_or (bit_or r.real_mods r.weak_mods) r.oneshot_mods) }

  is_armed : (r.oneshot_mods != 0) ≡ true
  is_armed = ground arith

  send_first : (send_keyboard_report r).1 ≡ shot.raw
  unfolding send_keyboard_report
  send_first = rw is_armed refl

  -- In a report of 28 bytes with an armed one-shot modifier and some key down, the next report has
  -- the modifiers together with the one-shot, the report after it only the others, and all other
  -- bytes are those of the keys.
  pub oneshot_once :
      (j : ℕ)
      → 1 ≤ j
      → j < keyboard_report_size
      → get_or r.raw j 0 ≢ 0
      → length r.raw ≡ keyboard_report_size
      → let (r', first) = send_keyboard_report r in
        let (r'', second) = send_keyboard_report r' in
        (get_or first 0 0 ≡ bit_or (bit_or r.real_mods r.weak_mods) r.oneshot_mods)
        × (get_or second 0 0 ≡ bit_or r.real_mods r.weak_mods)
        × ((i : ℕ)
            → 1 ≤ i
            → (get_or first i 0 ≡ get_or r.raw i 0) × (get_or second i 0 ≡ get_or r.raw i 0))
  unfolding send_keyboard_report has_anykey clear_oneshot_mods
  oneshot_once j from to byte size =
      let kept : get_or shot.raw j 0 ≡ get_or r.raw j 0 =
        get_or-set_ne r.raw 0 j _ 0 (omega arith) in
      let counted : 0 < count_from 27 1 0 shot.raw =
        count_from-set 27 1 0 j shot.raw (omega arith) from (omega arith)
          (λ e. byte (sym kept ∙ e)) in
      let any : (count_from 27 1 0 shot.raw != 0) ≡ true = ground (arith, counted) in
      let mods = bit_or r.real_mods r.weak_mods in
      let first : (i : ℕ) → 1 ≤ i → get_or shot.raw i 0 ≡ get_or r.raw i 0 =
        λ i h. get_or-set_ne r.raw 0 i _ 0 (omega arith) in
      rw (is_armed, any)
        (
          get_or-set_self r.raw 0 _ 0 (omega (arith, size)),
          get_or-set_self shot.raw 0 mods 0
              (omega (arith, size, length-set r.raw 0 (bit_or mods r.oneshot_mods))),
          λ i h. (first i h, get_or-set_ne shot.raw 0 i mods 0 (omega arith) ∙ first i h),
        )

  -- With no key of the report down an armed one-shot modifier stays armed.
  oneshot_waits :
      ((j : ℕ) → 1 ≤ j → j < keyboard_report_size → get_or r.raw j 0 ≡ 0)
      → (send_keyboard_report r).0.oneshot_mods ≡ r.oneshot_mods
  unfolding send_keyboard_report has_anykey clear_oneshot_mods
  oneshot_waits none_down =
      let zero_found : count_from 27 1 0 shot.raw ≡ 0 =
        count_from-none 27 1 0 shot.raw (λ j from to.
          get_or-set_ne r.raw 0 j _ 0 (omega arith) ∙ none_down j from (omega arith)) in
      rw (is_armed, zero_found) refl
