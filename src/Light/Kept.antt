-- ===== src/Light/Kept.antt =====
-- DRIVERS/RGB/RGB_bottom/rgblight.c: where the settings of the lights are read, and where they are
-- saved.
use ch583_kbd_rtt.Base.{
  ℕ, ◌≡◌, ◌<◌, true, false, if◌then◌else◌, refl, ◌∙◌, ap, List, ◌==◌, ◌!=◌, if_both, u8, ◌>>>◌, set,
  get_or, get_or-set_ne, arith,
}
use ch583_kbd_rtt.Light.{
  Light, put_word, of_raw, raw, with_config, eeconfig_read_rgblight, eeconfig_update_rgblight,
  eeconfig_update_rgblight_default,
}
use ch583_kbd_rtt.Light.Commands.{Command, performs, rgblight_init}
use ch583_kbd_rtt.Light.Operations.{IsClosed, lists-Allowed, performs-keeps, mode-keeps}

put_word_beside :
    (w : ℕ) (bytes : List ℕ) (i : ℕ) → 3 < i → get_or (put_word w bytes) i 0 ≡ get_or bytes i 0
unfolding put_word
put_word_beside w bytes i far =
    let b3 = set bytes 3 (u8 w) in
    let b2 = set b3 2 (u8 (w >>> 8)) in
    let b1 = set b2 1 (u8 (w >>> 16)) in
    get_or-set_ne b1 0 i (u8 (w >>> 24)) 0 (omega arith)
    ∙ get_or-set_ne b2 1 i (u8 (w >>> 16)) 0 (omega arith)
    ∙ get_or-set_ne b3 2 i (u8 (w >>> 8)) 0 (omega arith)
    ∙ get_or-set_ne bytes 3 i (u8 w) 0 (omega arith)

-- The settings that the next start would read.
abbrev pub stored : Light → ℕ
stored s = eeconfig_read_rgblight s.store

update_lem : (w : ℕ) (s : Light) → stored (eeconfig_update_rgblight w s) ≡ stored s
unfolding eeconfig_update_rgblight eeconfig_read_rgblight
update_lem w s =
    let bytes = s.store.config_block in
    if_both (λ s'. stored s' ≡ stored s) (eeconfig_read_rgblight s.store != w)
      (rw
        (
          put_word_beside w bytes 5 (omega arith),
          put_word_beside w bytes 6 (omega arith),
          put_word_beside w bytes 7 (omega arith),
          put_word_beside w bytes 8 (omega arith),
        )
        refl)
      refl

stored-IsClosed : (w : ℕ) → IsClosed (λ hue. Unit {0}) (λ c. Unit {0}) (λ s. stored s ≡ w)
stored-IsClosed w = record {
  turned = λ hue h. _;
  held = λ s e. _;
  lights = λ s s' (c, st, n) e. ap eeconfig_read_rgblight st ∙ e;
  saved = λ v s e. update_lem v s ∙ e;
  settles = λ hue sat val s h e. e;
  loaded = λ c s h e. e;
  moded = λ m s e. e;
  enabled = λ b s e. e;
}

init_lem : (s : Light) → stored (rgblight_init s) ≡ stored s
unfolding rgblight_init eeconfig_update_rgblight_default
init_lem s =
    let P : Light → Type 0 = λ s'. stored s' ≡ stored s in
    let s1 = with_config (of_raw (eeconfig_read_rgblight s.store)) s in
    let defaults =
      with_config (record { enable = true; mode = 1; hue = 0; sat = 255; val = 255 }) s1 in
    let s2 = eeconfig_update_rgblight_default s1 in
    let s3 =
      if s1.rgblight_config.mode == 0
      then with_config (of_raw (eeconfig_read_rgblight s2.store)) s2
      else s1 in
    let kept : P s3 =
      if_both P (s1.rgblight_config.mode == 0) (update_lem (raw defaults.rgblight_config) defaults)
        refl in
    if_both P s3.rgblight_config.enable
      (mode-keeps (stored-IsClosed (stored s)) s3.rgblight_config.mode false s3 kept) kept

-- Whatever is done with the lights after rgblight_init, and whatever rgblight_init itself saves,
-- the word that eeconfig_read_rgblight reads from the blocks stays as it was before: no setting of
-- the lights is there at the next start.
pub performs_not_stored :
    (cs : List Command) (s : Light)
    → eeconfig_read_rgblight (performs cs (rgblight_init s)).store ≡ eeconfig_read_rgblight s.store
performs_not_stored cs s =
    performs-keeps (stored-IsClosed (stored s)) cs (rgblight_init s)
      (lists-Allowed (λ hue. Unit {0}) (λ c. Unit {0}) (λ hue. _) (λ c. _) cs) (init_lem s)
