-- ===== src/Bits.antt =====
-- include/bitops.h and the value operators of include/mm.h, on 32-bit words.
-- A `uint32_t`, and an `int` by its bit pattern, is a number below 2 ^ 32.
pub mod Digits
pub mod Fields
pub mod Nbits
use operating_systems_simula.Prelude.{
  ℕ, ◌+◌, ◌-◌, ◌*◌, ◌/◌, ◌%◌, ◌^◌, bit_and, bit_or, ◌==◌, if◌then◌else◌,
}

-- `~x`, `x << k` and `x >> k`
abbrev pub bit_not : ℕ → ℕ
bit_not x = 2 ^ 32 - 1 - x

abbrev pub shl : ℕ → ℕ → ℕ
shl x k = x * 2 ^ k % 2 ^ 32

abbrev pub shr : ℕ → ℕ → ℕ
shr x k = x / 2 ^ k

-- CONFIG_64BIT is not set.
abbrev pub bits_per_long : ℕ
bits_per_long = 32

abbrev pub bit : ℕ → ℕ
bit nr = shl 1 nr

abbrev pub genmask : ℕ → ℕ → ℕ
genmask h l = bit_and (shl (bit_not 0) l) (shr (bit_not 0) (bits_per_long - h - 1))

abbrev pub div_round_up : ℕ → ℕ → ℕ
div_round_up n d = (n + d - 1) / d

unfoldable pub nbits2 : ℕ → ℕ
nbits2 n = if bit_and n 2 == 0 then 0 else 1

unfoldable pub nbits4 : ℕ → ℕ
unfolding nbits2
nbits4 n = if bit_and n 0xC == 0 then nbits2 n else 2 + nbits2 (shr n 2)

unfoldable pub nbits8 : ℕ → ℕ
unfolding nbits4
nbits8 n = if bit_and n 0xF0 == 0 then nbits4 n else 4 + nbits4 (shr n 4)

unfoldable pub nbits16 : ℕ → ℕ
unfolding nbits8
nbits16 n = if bit_and n 0xFF00 == 0 then nbits8 n else 8 + nbits8 (shr n 8)

unfoldable pub nbits32 : ℕ → ℕ
unfolding nbits16
nbits32 n = if bit_and n 0xFFFF0000 == 0 then nbits16 n else 16 + nbits16 (shr n 16)

unfoldable pub nbits : ℕ → ℕ
unfolding nbits32
nbits n = if n == 0 then 0 else nbits32 n

unfoldable pub set_bit : ℕ → ℕ → ℕ
set_bit v mask = bit_or v mask

unfoldable pub clr_bit : ℕ → ℕ → ℕ
clr_bit v mask = bit_and v (bit_not mask)

unfoldable pub set_val : ℕ → ℕ → ℕ → ℕ → ℕ
set_val v value mask offst = bit_or (bit_and v (bit_not mask)) (bit_and (shl value offst) mask)

unfoldable pub get_val : ℕ → ℕ → ℕ → ℕ
get_val v mask offst = shr (bit_and v mask) offst
