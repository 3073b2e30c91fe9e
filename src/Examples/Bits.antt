-- ===== src/Examples/Bits.antt =====
-- TMK/util.c at concrete numbers.
use ch583_kbd_rtt.Base.{◌≡◌, refl, some, arith}
use ch583_kbd_rtt.Util.{bitpop_loop, bitpop, bitpop16, bitpop32, biton32, bitrev}
use ch583_kbd_rtt.Util.Pop.{ones, bitpop_counts}

bitpop_counts_example :
    (bitpop 0xA5 ≡ some (ones 8 0xA5))
    × (bitpop16 0xFFFF ≡ some (ones 16 0xFFFF))
    × (bitpop32 0x80000001 ≡ some (ones 32 0x80000001))
bitpop_counts_example =
    bitpop_counts 0xA5 0xFFFF 0x80000001 (omega arith) (omega arith) (omega arith)

bitpop_run : bitpop 0xA5 ≡ some 4
unfolding bitpop bitpop_loop
bitpop_run = refl

biton32_run : biton32 0x12345 ≡ 16
unfolding biton32
biton32_run = refl

bitrev_run : bitrev 0x13 ≡ 0xC8
unfolding bitrev
bitrev_run = refl
