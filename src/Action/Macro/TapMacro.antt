-- ===== src/Action/Macro/TapMacro.antt =====
-- `action_tapmacro_play` of TMK/action_macro.c: two commands of a macro for each tap. The time is read
-- once for a call; `none` means that the macro is read past its end.
use ch583_kbd_rtt.Base.{
  ℕ, zero, suc, ◌+◌, ◌<◌, ◌≡◌, refl, ap, ◌∙◌, true, ◌||◌, arith, Option, none, some, List, [], ◌∷◌,
  ltb, ◌==◌, if◌then◌else◌, drop, u8,
}
use ch583_kbd_rtt.Timer.{timer_elapsed32}
use ch583_kbd_rtt.Keyboard.{Keyboard, Board}
use ch583_kbd_rtt.Action.Macro.{macro_down, macro_up}

abbrev pub timer_interval : ℕ
timer_interval = 2000

-- `*(macro_p + i)`
unfoldable pub byte_at : List ℕ → ℕ → Option ℕ
byte_at [] i = none
byte_at (x ∷ xs) zero = some x
byte_at (x ∷ xs) (suc i) = byte_at xs i

-- Where the call starts: a tap that comes too late starts anew.
unfoldable pub tap_position : ℕ → ℕ → ℕ → ℕ
unfolding timer_elapsed32
tap_position tick timers_count number =
    if number == 0
    then number
    else if ltb (timer_elapsed32 tick timers_count) timer_interval
    then number
    else 0

module _ (b : Board) where
  -- One command, KEY_DOWN (1) or KEY_UP (2).
  unfoldable pub tap_command : ℕ → ℕ → Keyboard → Keyboard
  unfolding macro_down macro_up
  tap_command c code k = if c == 1 then macro_down b code k else macro_up b code k

  -- The switch, on the byte at `number` and the one after it, which is read for a known command only.
  unfoldable pub tap_case :
      Option ℕ
      → Option ℕ
      → (ℕ → ℕ → Option (Keyboard × Option ℕ))
      → Keyboard
      → Option (Keyboard × Option ℕ)
  tap_case none second go k = none
  tap_case (some c) none go k = if c == 1 || c == 2 then none else some (k, none)
  tap_case (some c) (some code) go k = if c == 1 || c == 2 then go c code else some (k, none)

  -- The loop: the keyboard, and `number` if the loop was not left by a return.
  unfoldable pub tap_loop : ℕ → List ℕ → ℕ → Keyboard → Option (Keyboard × Option ℕ)
  unfolding byte_at tap_command tap_case
  tap_loop zero bytes number k = some (k, some number)
  tap_loop (suc count_number) bytes number k =
      tap_case (byte_at bytes number) (byte_at bytes (u8 (number + 1)))
        (λ c code. tap_loop count_number bytes (u8 (u8 (number + 1) + 1)) (tap_command c code k)) k

  -- The last test, on what the loop leaves, with the value that is returned.
  unfoldable pub tap_result : List ℕ → Keyboard × Option ℕ → Option (Keyboard × ℕ)
  unfolding byte_at
  tap_result bytes r = elim r.1 [
    | none ↦ some (r.0, 0)
    | some n ↦ elim (byte_at bytes n) [
      | none ↦ none
      | some c ↦ some (r.0, if c == 0 then 0 else u8 (u8 (n + 1) + 255))
    ]
  ]

  -- The new `timers_count`, with the keyboard and the value that is returned.
  unfoldable pub action_tapmacro_play :
      ℕ → Option (List ℕ) → ℕ → ℕ → Keyboard → ℕ × Option (Keyboard × ℕ)
  unfolding tap_position tap_loop tap_result
  action_tapmacro_play tick none number timers_count k = (tick, some (k, 0))
  action_tapmacro_play tick (some bytes) number timers_count k = (
    tick,
    elim (tap_loop 2 bytes (tap_position tick timers_count number) k) [
      | none ↦ none
      | some r ↦ tap_result bytes r
    ],
  )

-- A byte behind `n` others.
byte_at-drop : (n i : ℕ) (bytes : List ℕ) → byte_at bytes (n + i) ≡ byte_at (drop n bytes) i
unfolding byte_at
byte_at-drop zero i bytes = ap (byte_at bytes) (omega arith)
byte_at-drop (suc n) i [] = refl
byte_at-drop (suc n) i (x ∷ bytes) =
    let next : suc n + i ≡ suc (n + i) = omega arith in
    ap (byte_at (x ∷ bytes)) next ∙ byte_at-drop n i bytes

module _ (b : Board) where
  taken_case :
      (c code : ℕ) (go : ℕ → ℕ → Option (Keyboard × Option ℕ)) (k : Keyboard)
      → (c == 1 || c == 2) ≡ true
      → tap_case b (some c) (some code) go k ≡ go c code
  unfolding tap_case
  taken_case c code go k known = rw known refl

  abbrev finished : ℕ → List ℕ → Option (Keyboard × Option ℕ) → ℕ × Option (Keyboard × ℕ)
  finished tick bytes o = (tick, elim o [ none ↦ none | some r ↦ tap_result b bytes r ])

  last_test :
      (bytes : List ℕ) (k : Keyboard) (n next : ℕ)
      → n < 256
      → byte_at bytes n ≡ some next
      → tap_result b bytes (k, some n) ≡ some (k, if next == 0 then 0 else n)
  unfolding tap_result
  last_test bytes k n next h read =
      let test : Option ℕ → Option (Keyboard × ℕ) = λ o. elim o [
        | none ↦ none
        | some c ↦ some (k, if c == 0 then 0 else u8 (u8 (n + 1) + 255))
      ] in
      let same : u8 (u8 (n + 1) + 255) ≡ n = omega arith in
      ap test read ∙ ap (λ (x : ℕ). some (k, if next == 0 then 0 else x)) same

  one_command :
      (left n c code : ℕ) (bytes rest : List ℕ) (k : Keyboard)
      → (c == 1 || c == 2) ≡ true
      → n + 2 < 256
      → drop n bytes ≡ c ∷ code ∷ rest
      → tap_loop b (suc left) bytes n k ≡ tap_loop b left bytes (n + 2) (tap_command b c code k)
  unfolding tap_loop byte_at
  one_command left n c code bytes rest k known h behind =
      let first : byte_at bytes n ≡ some c =
        ap (byte_at bytes) (omega arith)
        ∙ byte_at-drop n 0 bytes
        ∙ ap (λ (x : List ℕ). byte_at x 0) behind in
      let second : byte_at bytes (u8 (n + 1)) ≡ some code =
        ap (byte_at bytes) (omega arith)
        ∙ byte_at-drop n 1 bytes
        ∙ ap (λ (x : List ℕ). byte_at x 1) behind in
      let next : u8 (u8 (n + 1) + 1) ≡ n + 2 = omega arith in
      let go : ℕ → ℕ → Option (Keyboard × Option ℕ) =
        λ x y. tap_loop b left bytes (u8 (u8 (n + 1) + 1)) (tap_command b x y k) in
      ap (λ (o : Option ℕ). tap_case b o (byte_at bytes (u8 (n + 1))) go k) first
      ∙ ap (λ (o : Option ℕ). tap_case b (some c) o go k) second
      ∙ taken_case c code go k known
      ∙ ap (λ (x : ℕ). tap_loop b left bytes x (tap_command b c code k)) next

  drop_more :
      (n : ℕ) (x y : ℕ) (bytes rest : List ℕ)
      → drop n bytes ≡ x ∷ y ∷ rest
      → drop (n + 2) bytes ≡ rest
  drop_more zero x y [] rest h = cc
  drop_more zero x y (z ∷ bytes) rest h = ap (drop 2) h
  drop_more (suc n) x y [] rest h = cc
  drop_more (suc n) x y (z ∷ bytes) rest h =
      let later : suc n + 2 ≡ suc (n + 2) = omega arith in
      ap (λ (m : ℕ). drop m (z ∷ bytes)) later ∙ drop_more n x y bytes rest h

  -- A tap that is in time, with two commands and another byte at its place, runs the two, and returns
  -- the place behind them, or 0 if that byte is END.
  two_commands :
      (tick timers_count n c1 code1 c2 code2 next : ℕ) (bytes rest : List ℕ) (k : Keyboard)
      → tap_position tick timers_count n ≡ n
      → (c1 == 1 || c1 == 2) ≡ true
      → (c2 == 1 || c2 == 2) ≡ true
      → n + 5 < 256
      → drop n bytes ≡ c1 ∷ code1 ∷ c2 ∷ code2 ∷ next ∷ rest
      → action_tapmacro_play b tick (some bytes) n timers_count k ≡ (
        tick,
        some (tap_command b c2 code2 (tap_command b c1 code1 k), if next == 0 then 0 else n + 4),
      )
  unfolding action_tapmacro_play
  two_commands tick timers_count n c1 code1 c2 code2 next bytes rest k here known1 known2 h behind =
      let k1 = tap_command b c1 code1 k in
      let k2 = tap_command b c2 code2 k1 in
      let behind2 = drop_more n c1 code1 bytes (c2 ∷ code2 ∷ next ∷ rest) behind in
      let behind4 = drop_more (n + 2) c2 code2 bytes (next ∷ rest) behind2 in
      let loop : tap_loop b 2 bytes n k ≡ some (k2, some (n + 2 + 2)) =
        one_command 1 n c1 code1 bytes (c2 ∷ code2 ∷ next ∷ rest) k known1 (omega arith) behind
        ∙ one_command 0 (n + 2) c2 code2 bytes (next ∷ rest) k1 known2 (omega arith) behind2 in
      let last : byte_at bytes (n + 2 + 2) ≡ some next =
        ap (byte_at bytes) (omega arith)
        ∙ byte_at-drop (n + 2 + 2) 0 bytes
        ∙ ap (λ (x : List ℕ). byte_at x 0) behind4 in
      ap (λ (p : ℕ). finished tick bytes (tap_loop b 2 bytes p k)) here
      ∙ ap (finished tick bytes) loop
      ∙ ap (λ (o : Option (Keyboard × ℕ)). (tick, o))
          (last_test bytes k2 (n + 2 + 2) next (omega arith) last)
      ∙ ap (λ (x : ℕ). (tick, some (k2, if next == 0 then 0 else x))) (omega arith)
