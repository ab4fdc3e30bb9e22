-- ===== src/Stdlib.antt =====
-- src/lib/stdlib.c: BCD conversion of a byte and rounded-up division of 32-bit words.
-- `value & 0xf` and `value >> 4` are the remainder and the quotient by 16.
pub mod Laws
mod Tests
use txos.Base.{
  ℕ, ◌+◌, ◌-◌, ◌*◌, ◌/◌, ◌%◌, ◌^◌, ltb, Outcome, assert, ◌>>=◌, ◌>>◌, ok, halt, ◌==◌, if◌then◌else◌,
}

-- the word size of `u32`, `size_t` and addresses
abbrev pub word : ℕ
word = 2 ^ 32

unfoldable pub bcd_to_bin : ℕ → ℕ
bcd_to_bin value = (value % 16 + value / 16 * 10) % 256

unfoldable pub bin_to_bcd : ℕ → Outcome ℕ
bin_to_bcd value = do assert (ltb value 100); ok ((value % 10 + value / 10 * 16) % 256)

-- A division by zero is a processor exception, which the kernel does not survive.
unfoldable pub div_round_up : ℕ → ℕ → Outcome ℕ
div_round_up a b = if b == 0 then halt else ok ((a + b + word - 1) % word / b)
