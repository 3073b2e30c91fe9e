-- ===== src/Action/Macro/Steps.antt =====
-- TMK/action_macro.c and action_macro.h: a macro that is written in steps, as the header's MACRO() does,
-- is played step by step.
use ch583_kbd_rtt.Base.{
  ℕ, ◌+◌, ◌≤◌, ◌≡◌, refl, ap, ◌∙◌, Bool, false, ◌&&◌, arith, Option, some, List, [], ◌∷◌, ◌++◌, All,
  leb, ◌==◌, if◌then◌else◌, bit_and,
}
use ch583_kbd_rtt.Base.Bits.{bit_and-mask}
use ch583_kbd_rtt.Report.{set_mods, clear_mods}
use ch583_kbd_rtt.Keyboard.{Keyboard, Board, send, on_report, register_code, unregister_code}
use ch583_kbd_rtt.Action.Macro.{
  Expected, command, expected_after, ends, stored_after, macro_down, macro_up, run_byte, play,
}

-- The steps of a macro, by the names of action_macro.h.
pub data Step : Type 0 where
  down up press release wait interval : ℕ → Step
  store restore clear : Step

-- The bytes of a step.
unfoldable pub encode : Step → List ℕ
encode (down code) = 1 ∷ code ∷ []
encode (up code) = 2 ∷ code ∷ []
encode (press code) = code ∷ []
encode (release code) = (code + 128) ∷ []
encode (wait ms) = 0x74 ∷ ms ∷ []
encode (interval ms) = 0x75 ∷ ms ∷ []
encode store = 0x76 ∷ []
encode restore = 0x77 ∷ []
encode clear = 0x78 ∷ []

-- END, and whatever follows it.
unfoldable pub encode_all : List Step → List ℕ → List ℕ
unfolding encode
encode_all [] rest = 0 ∷ rest
encode_all (s ∷ steps) rest = encode s ++ encode_all steps rest

-- A key code that fits into one byte of a macro with its direction.
abbrev pub IsEncodable : Step → Type 0
IsEncodable (press code) = (4 ≤ code) × (code ≤ 0x73)
IsEncodable (release code) = (4 ≤ code) × (code ≤ 0x73)
IsEncodable _ = Unit

-- The case of the switch that a byte takes.
press_chosen :
    (c : ℕ) (x1 x2 x3 x4 k : Keyboard)
    → 4 ≤ c
    → c ≤ 0x73
    → (if c == 0x77
        then x1
        else if c == 0x78
        then x2
        else if leb 0x04 c && leb c 0x73
        then x3
        else if leb 0x84 c && leb c 0xF3
        then x4
        else k)
      ≡ x3
press_chosen c x1 x2 x3 x4 k low high = ground arith

release_chosen :
    (c : ℕ) (x1 x2 x3 x4 k : Keyboard)
    → 4 ≤ c
    → c ≤ 0x73
    → (if c + 128 == 0x77
        then x1
        else if c + 128 == 0x78
        then x2
        else if leb 0x04 (c + 128) && leb (c + 128) 0x73
        then x3
        else if leb 0x84 (c + 128) && leb (c + 128) 0xF3
        then x4
        else k)
      ≡ x4
release_chosen c x1 x2 x3 x4 k low high = ground arith

go_on :
    (stop : Bool) (k : Keyboard) (more : Option Keyboard)
    → stop ≡ false
    → (if stop then some k else more) ≡ more
go_on stop k more h = rw h refl

module _ (b : Board) where
  -- What a step does to the stored modifiers and the keyboard.
  unfoldable pub run_step : Step → ℕ → Keyboard → ℕ × Keyboard
  run_step (down code) stored k = (stored, macro_down b code k)
  run_step (up code) stored k = (stored, macro_up b code k)
  run_step (press code) stored k = (stored, register_code b code k)
  run_step (release code) stored k = (stored, unregister_code b code k)
  run_step (wait ms) stored k = (stored, k)
  run_step (interval ms) stored k = (stored, k)
  run_step store stored k = (k.report.real_mods, k)
  run_step restore stored k = (stored, send (on_report (set_mods stored) k))
  run_step clear stored k = (stored, send (on_report clear_mods k))

  unfoldable pub run_steps : List Step → ℕ → Keyboard → Keyboard
  unfolding run_step
  run_steps [] stored k = k
  run_steps (s ∷ steps) stored k =
      let (stored', k') = run_step s stored k in run_steps steps stored' k'

  press_byte :
      (c stored : ℕ) (k : Keyboard)
      → 4 ≤ c
      → c ≤ 0x73
      → (ends c ≡ false) × (expected_after c ≡ command) × (stored_after c stored k ≡ stored)
  unfolding ends expected_after stored_after
  press_byte c stored k low high = (ground arith, ground arith, ground arith)

  run_byte-press :
      (c stored : ℕ) (k : Keyboard) → 4 ≤ c → c ≤ 0x73 → run_byte b c stored k ≡ register_code b c k
  unfolding run_byte
  run_byte-press c stored k low high =
      press_chosen c (send (on_report (set_mods stored) k)) (send (on_report clear_mods k))
        (register_code b c k) (unregister_code b (bit_and c 0x7F) k) k low high

  release_byte :
      (c stored : ℕ) (k : Keyboard)
      → 4 ≤ c
      → c ≤ 0x73
      → (ends (c + 128) ≡ false)
        × (expected_after (c + 128) ≡ command)
        × (stored_after (c + 128) stored k ≡ stored)
  unfolding ends expected_after stored_after
  release_byte c stored k low high = (ground arith, ground arith, ground arith)

  run_byte-release :
      (c stored : ℕ) (k : Keyboard)
      → 4 ≤ c
      → c ≤ 0x73
      → run_byte b (c + 128) stored k ≡ unregister_code b c k
  unfolding run_byte
  run_byte-release c stored k low high =
      let code : bit_and (c + 128) 0x7F ≡ c = bit_and-mask 7 (c + 128) ∙ omega arith in
      release_chosen c (send (on_report (set_mods stored) k)) (send (on_report clear_mods k))
        (register_code b (c + 128) k) (unregister_code b (bit_and (c + 128) 0x7F) k) k low high
      ∙ ap (λ (x : ℕ). unregister_code b x k) code

  -- A command of one byte, read and run.
  play_one :
      (c : ℕ) (rest : List ℕ) (stored : ℕ) (k k' : Keyboard)
      → ends c ≡ false
      → expected_after c ≡ command
      → stored_after c stored k ≡ stored
      → run_byte b c stored k ≡ k'
      → play b (c ∷ rest) command stored k ≡ play b rest command stored k'
  unfolding play
  play_one c rest stored k k' more next kept ran =
      let k1 = run_byte b c stored k in
      go_on (ends c) k (play b rest (expected_after c) (stored_after c stored k) k1) more
      ∙ ap (λ (e : Expected). play b rest e (stored_after c stored k) k1) next
      ∙ ap (λ (n : ℕ). play b rest command n k1) kept
      ∙ ap (play b rest command stored) ran

  play_step :
      (s : Step) (rest : List ℕ) (stored : ℕ) (k : Keyboard)
      → IsEncodable s
      → play b (encode s ++ rest) command stored k
        ≡ play b rest command (run_step s stored k).0 (run_step s stored k).1
  unfolding play encode run_step ends expected_after stored_after run_byte
  play_step (press code) rest stored k h =
      let (more, next, kept) = press_byte code stored k h.0 h.1 in
      play_one code rest stored k (register_code b code k) more next kept
        (run_byte-press code stored k h.0 h.1)
  play_step (release code) rest stored k h =
      let (more, next, kept) = release_byte code stored k h.0 h.1 in
      play_one (code + 128) rest stored k (unregister_code b code k) more next kept
        (run_byte-release code stored k h.0 h.1)
  play_step (down code) rest stored k h = refl
  play_step (up code) rest stored k h = refl
  play_step (wait ms) rest stored k h = refl
  play_step (interval ms) rest stored k h = refl
  play_step store rest stored k h = refl
  play_step restore rest stored k h = refl
  play_step clear rest stored k h = refl

  -- A macro that is the bytes of a list of steps, with one-byte keys in their range, and an END, is
  -- played to its end, whatever bytes follow, and does to the keyboard what the steps do one after
  -- the other.
  pub play-encode_all :
      (steps : List Step) (rest : List ℕ) (stored : ℕ) (k : Keyboard)
      → All IsEncodable steps
      → play b (encode_all steps rest) command stored k ≡ some (run_steps steps stored k)
  unfolding play encode_all run_steps ends
  play-encode_all [] rest stored k h = refl
  play-encode_all (s ∷ steps) rest stored k h =
      let (stored', k') = run_step s stored k in
      play_step s (encode_all steps rest) stored k h.0 ∙ play-encode_all steps rest stored' k' h.1
