-- ===== src/Task/Changes.antt =====
-- `keyboard_task` of TMK/keyboard.c: the loops over the matrix turn what changed into events.
use ch583_kbd_rtt.Base.{
  ℕ, zero, suc, ◌+◌, ◌*◌, ◌^◌, ◌<◌, ◌≤◌, ◌≡◌, ◌≢◌, refl, sym, ap, ◌∙◌, Bool, true, false, ◌&&◌,
  Bool-cases, inl, inr, arith, List, [], ◌∷◌, ◌++◌, ltb, leb, ◌==◌, ==_iff, ltb→lt, if◌then◌else◌,
  get_or, length, length-set, get_or-set_self, get_or-set_ne, bit_xor, u16,
}
use mathlib.Core.Bool.{xor}
use ch583_kbd_rtt.Base.Bits.{bit, bit_test, bit-bit_xor, bit-pow, bit_xor-lt}
use ch583_kbd_rtt.Base.Bits.Table.{check_below, check_below_sound}
use ch583_kbd_rtt.Storage.{matrix_cols}
use ch583_kbd_rtt.Keyboard.{Keyboard, Board}
use ch583_kbd_rtt.Tapping.{Tapping}
use ch583_kbd_rtt.Task.{Task, exec_now, key_changed, scan_cols}

-- A key that changed: where it is, and whether it is down.
pub record Change : Type 0 where
  pub row : ℕ
  pub col : ℕ
  pub down : Bool

-- The keys of a row from column `c` whose bits differ.
unfoldable pub row_changes : ℕ → ℕ → ℕ → ℕ → ℕ → List Change
row_changes zero r c now before = []
row_changes (suc left) r c now before =
    let rest = row_changes left r (c + 1) now before in
    if xor (bit now c) (bit before c)
    then record { row = r; col = c; down = bit now c } ∷ rest
    else rest

-- The keys from row `r` whose bits differ, row by row.
unfoldable pub changes : ℕ → ℕ → List ℕ → List ℕ → List Change
unfolding row_changes
changes zero r now before = []
changes (suc left) r now before =
    row_changes matrix_cols r 0 (get_or now r 0) (get_or before r 0)
    ++ changes left (r + 1) now before

module _ (b : Board) where
  -- The events of the changes, one after the other.
  unfoldable pub run_changes : List Change → Tapping Keyboard → Tapping Keyboard
  run_changes [] s = s
  run_changes (x ∷ rest) s = run_changes rest (exec_now b x.row x.col x.down s)

  pub run_changes-append :
      (xs ys : List Change) (s : Tapping Keyboard)
      → run_changes (xs ++ ys) s ≡ run_changes ys (run_changes xs s)
  unfolding run_changes
  run_changes-append [] ys s = refl
  run_changes-append (x ∷ xs) ys s = run_changes-append xs ys (exec_now b x.row x.col x.down s)

masks : check_below 14 (λ (n : ℕ). u16 (2 ^ n * 2) == 2 ^ (n + 1)) ≡ true
unfolding check_below
masks = refl

next_mask : (c : ℕ) → c < 14 → u16 (2 ^ c * 2) ≡ 2 ^ (c + 1)
next_mask c h =
    (==_iff _ _).0 (check_below_sound 14 (λ (n : ℕ). u16 (2 ^ n * 2) == 2 ^ (n + 1)) c masks h)

small_masks : check_below 14 (λ (n : ℕ). ltb (2 ^ n) (2 ^ 14)) ≡ true
unfolding check_below
small_masks = refl

mask_small : (c : ℕ) → c < 14 → 2 ^ c < 2 ^ 14
mask_small c h = ltb→lt _ _ (check_below_sound 14 (λ (n : ℕ). ltb (2 ^ n) (2 ^ 14)) c small_masks h)

-- What the loop over `left` columns of row `r` from column `c` does to the matrix and to `matrix_prev`.
pub record Scanned (left r c change : ℕ) (t t' : Task) : Type 0 where
  pub same_matrix : t'.matrix ≡ t.matrix
  pub rows : length t'.matrix_prev ≡ length t.matrix_prev
  pub others : (j : ℕ) → r ≢ j → get_or t'.matrix_prev j 0 ≡ get_or t.matrix_prev j 0
  pub small : get_or t.matrix_prev r 0 < 2 ^ 14 → get_or t'.matrix_prev r 0 < 2 ^ 14
  pub flipped :
      (k : ℕ)
      → bit (get_or t'.matrix_prev r 0) k
        ≡ xor (bit (get_or t.matrix_prev r 0) k) ((leb c k && ltb k (c + left)) && bit change k)

xor-false : (a : Bool) → xor a false ≡ a
unfolding xor
xor-false true = refl
xor-false false = refl

no_columns : (c k : ℕ) → (leb c k && ltb k (c + 0)) ≡ false
no_columns c k = ground arith

flip_next :
    (left c k : ℕ) (a d : Bool)
    → xor (xor a ((c == k) && d)) ((leb (c + 1) k && ltb k (c + 1 + left)) && d)
      ≡ xor a ((leb c k && ltb k (c + suc left)) && d)
unfolding xor
flip_next left c k a d = ground arith

-- One column, and then the others.
then_others :
    (left r c change : ℕ) (t t1 t' : Task)
    → Scanned 1 r c change t t1
    → Scanned left r (c + 1) change t1 t'
    → Scanned (suc left) r c change t t'
then_others left r c change t t1 t' one others = record {
  same_matrix = others.same_matrix ∙ one.same_matrix;
  rows = others.rows ∙ one.rows;
  others = λ j ne. others.others j ne ∙ one.others j ne;
  small = λ h. others.small (one.small h);
  flipped = λ k.
      let first : (leb c k && ltb k (c + 1)) ≡ (c == k) = ground arith in
      others.flipped k
      ∙ ap (λ (x : Bool). xor x ((leb (c + 1) k && ltb k (c + 1 + left)) && bit change k))
          (rw (sym first) (one.flipped k))
      ∙ flip_next left c k (bit (get_or t.matrix_prev r 0) k) (bit change k);
}

module _ (b : Board) where
  no_change : (r c change : ℕ) (t : Task) → bit change c ≡ false → Scanned 1 r c change t t
  no_change r c change t off = record {
    same_matrix = refl;
    rows = refl;
    others = λ j ne. refl;
    small = λ h. h;
    flipped = λ k.
        let none_here : ((leb c k && ltb k (c + 1)) && bit change k) ≡ false =
          elim (Bool-cases (c == k)) [
            | inl same ↦ let e : c ≡ k = (==_iff _ _).0 same in rw (sym e) (rw off (ground arith))
            | inr other ↦ ground arith
          ] in
        rw none_here (sym (xor-false _));
  }

  one_change :
      (r c row change : ℕ) (t : Task)
      → c < 14
      → r < length t.matrix_prev
      → bit change c ≡ true
      → Scanned 1 r c change t (key_changed b r c (2 ^ c) row t)
  unfolding key_changed
  one_change r c row change t h inside on = record {
    same_matrix = refl;
    rows = length-set t.matrix_prev r _;
    others = λ j ne. get_or-set_ne t.matrix_prev r j _ 0 ne;
    small = λ below.
        rw (get_or-set_self t.matrix_prev r (bit_xor (get_or t.matrix_prev r 0) (2 ^ c)) 0 inside)
          (bit_xor-lt 14 _ (2 ^ c) below (mask_small c h));
    flipped = λ k.
        let before = get_or t.matrix_prev r 0 in
        let here : (c == k) ≡ ((leb c k && ltb k (c + 1)) && bit change k) =
          elim (Bool-cases (c == k)) [
            | inl same ↦ let e : c ≡ k = (==_iff _ _).0 same in rw (sym e) (rw on (ground arith))
            | inr other ↦ ground arith
          ] in
        ap (λ (x : ℕ). bit x k) (get_or-set_self t.matrix_prev r _ 0 inside)
        ∙ bit-bit_xor k before (2 ^ c)
        ∙ rw (bit-pow c k, here) refl;
  }

  changed_run :
      (r c now : ℕ) (t : Task)
      → (key_changed b r c (2 ^ c) now t).tapping ≡ exec_now b r c (bit now c) t.tapping
  unfolding key_changed
  changed_run r c now t = ap (λ (x : Bool). exec_now b r c x t.tapping) (bit_test c now)

  scan_cols_next :
      (left r c now change : ℕ) (t : Task)
      → c < 14
      → scan_cols b (suc left) r c (2 ^ c) now change t
        ≡ scan_cols b left r
            (c + 1)
            (2 ^ (c + 1))
            now
            change
            (if bit change c then key_changed b r c (2 ^ c) now t else t)
  unfolding scan_cols
  scan_cols_next left r c now change t h = rw (next_mask c h, bit_test c change) refl

  -- The loop over the columns is the run of the row's changes.
  pub scan_cols-Scanned :
      (left r c now before : ℕ) (t : Task)
      → c + left ≤ 14
      → r < length t.matrix_prev
      → let change = bit_xor now before in
        let t' = scan_cols b left r c (2 ^ c) now change t in
        Scanned left r c change t t'
        × (t'.tapping ≡ run_changes b (row_changes left r c now before) t.tapping)
  unfolding scan_cols row_changes run_changes
  scan_cols-Scanned zero r c now before t h inside = (
    record {
      same_matrix = refl;
      rows = refl;
      others = λ j ne. refl;
      small = λ h. h;
      flipped = λ k. rw (no_columns c k) (sym (xor-false _));
    },
    refl,
  )
  scan_cols-Scanned (suc left) r c now before t h inside =
      let change = bit_xor now before in
      let differs : bit change c ≡ xor (bit now c) (bit before c) = bit-bit_xor c now before in
      let next = scan_cols_next left r c now change t (omega arith) in
      rw (next, sym differs)
        (elim (Bool-cases (bit change c)) [
          | inl on ↦
              let t1 = key_changed b r c (2 ^ c) now t in
              let one = one_change r c now change t (omega arith) inside on in
              let (others, run) =
                scan_cols-Scanned left r (c + 1) now before t1 (omega arith)
                  (omega (arith, one.rows, inside)) in
              rw on (
                then_others left r c change t t1 _ one others,
                run
                    ∙ ap (run_changes b (row_changes left r (c + 1) now before))
                        (changed_run r c now t),
              )
          | inr off ↦
              let (others, run) =
                scan_cols-Scanned left r (c + 1) now before t (omega arith) inside in
              rw off (then_others left r c change t t _ (no_change r c change t off) others, run)
        ])
