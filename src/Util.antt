-- ===== src/Util.antt =====
-- TMK/util.c: population count, highest bit and bit reversal of 8, 16 and 32 bit words.
pub mod Pop
pub mod High
pub mod Reverse
use ch583_kbd_rtt.Base.{
  ℕ, zero, suc, ◌+◌, ◌-◌, ◌/◌, ◌^◌, bit_and, bit_or, Option, none, some, ◌==◌, ◌!=◌, if◌then◌else◌,
  u8, u16, u32, ◌<<<◌, ◌>>>◌,
}

-- `for (c = 0; bits; c++) bits &= bits - 1;` with fuel; `none` means that the fuel ran out.
unfoldable pub bitpop_loop : ℕ → ℕ → ℕ → Option ℕ
bitpop_loop zero bits c = none
bitpop_loop (suc fuel) bits c =
    let rest = bitpop_loop fuel (bit_and bits (bits - 1)) (u8 (c + 1)) in
    if bits == 0 then some c else rest

-- One round for each bit and one for the test that ends the loop.
unfoldable pub bitpop : ℕ → Option ℕ
bitpop bits = bitpop_loop 9 bits 0

unfoldable pub bitpop16 : ℕ → Option ℕ
bitpop16 bits = bitpop_loop 17 bits 0

unfoldable pub bitpop32 : ℕ → Option ℕ
bitpop32 bits = bitpop_loop 33 bits 0

-- The two variables of the `biton` functions.
pub record Search : Type 0 where
  pub bits : ℕ
  pub n : ℕ

-- `if (bits >> k) { bits >>= k; n += k; }`
unfoldable pub halve : ℕ → Search → Search
halve k s = if s.bits >>> k != 0 then record { bits = s.bits >>> k; n = u8 (s.n + k) } else s

abbrev start : ℕ → Search
start bits = record { bits = bits; n = 0 }

unfoldable pub biton : ℕ → ℕ
unfolding halve
biton bits = (halve 1 (halve 2 (halve 4 (start bits)))).n

unfoldable pub biton16 : ℕ → ℕ
unfolding halve
biton16 bits = (halve 1 (halve 2 (halve 4 (halve 8 (start bits))))).n

unfoldable pub biton32 : ℕ → ℕ
unfolding halve
biton32 bits = (halve 1 (halve 2 (halve 4 (halve 8 (halve 16 (start bits)))))).n

unfoldable pub bitrev : ℕ → ℕ
bitrev bits =
    let nibbles = u8 (bit_or (bit_and bits 0x0f <<< 4) (bit_and bits 0xf0 >>> 4)) in
    let pairs = u8 (bit_or (bit_and nibbles 0b00110011 <<< 2) (bit_and nibbles 0b11001100 >>> 2)) in
    u8 (bit_or (bit_and pairs 0b01010101 <<< 1) (bit_and pairs 0b10101010 >>> 1))

unfoldable pub bitrev16 : ℕ → ℕ
bitrev16 bits =
    u16 (bit_or (bitrev (bit_and bits 0x00ff) <<< 8) (bitrev (bit_and bits 0xff00 >>> 8)))

unfoldable pub bitrev32 : ℕ → ℕ
bitrev32 bits =
    u32 (
      bit_or (bitrev16 (bit_and bits 0x0000ffff) <<< 16)
        (bitrev16 (bit_and bits 0xffff0000 >>> 16)))
