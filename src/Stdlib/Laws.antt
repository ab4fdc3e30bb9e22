-- ===== src/Stdlib/Laws.antt =====
-- What lib/stdlib.c computes.
use txos.Base.{ℕ, ◌+◌, ◌-◌, ◌*◌, ◌/◌, ◌%◌, ◌≤◌, ◌<◌, ◌≡◌, arith, ok}
use native.Mathlib.Nat.{div-add-mod, mod-lt}
use txos.Stdlib.{word, bcd_to_bin, bin_to_bcd, div_round_up}

-- A number below 100 is accepted by `bin_to_bcd`, which gives a byte that `bcd_to_bin` turns back.
pub bin_to_bcd-bcd_to_bin :
    (value : ℕ)
    → value < 100
    → (bcd : ℕ) × (bin_to_bcd value ≡ ok bcd) × (bcd < 256) × (bcd_to_bin bcd ≡ value)
unfolding bcd_to_bin bin_to_bcd
bin_to_bcd-bcd_to_bin value h =
    ((value % 10 + value / 10 * 16) % 256, ground arith, omega arith, omega arith)

-- On a byte whose two nibbles are decimal digits `bcd_to_bin` reads them as tens and units, and
-- `bin_to_bcd` restores the byte.
pub bcd_to_bin_digits :
    (tens units : ℕ)
    → tens < 10
    → units < 10
    → (bcd_to_bin (tens * 16 + units) ≡ tens * 10 + units)
      × (bin_to_bcd (bcd_to_bin (tens * 16 + units)) ≡ ok (tens * 16 + units))
unfolding bcd_to_bin bin_to_bcd
bcd_to_bin_digits tens units ht hu = (omega arith, ground arith)

-- Where `a + b` does not leave the word and `b` is not zero, `div_round_up` gives the least number
-- of pieces of size `b` that hold `a`.
pub div_round_up_lem :
    (a b : ℕ)
    → 0 < b
    → a + b ≤ word
    → (q : ℕ) × (div_round_up a b ≡ ok q) × (a ≤ q * b) × (q * b < a + b)
unfolding div_round_up
div_round_up_lem a b hb fit = (
  (a + b - 1) / b,
  ground (arith, no_wrap),
  grind (arith, div-add-mod, mod-lt),
  grind (arith, div-add-mod, mod-lt),
)
  where
    no_wrap : (a + b + word - 1) % word ≡ a + b - 1
    no_wrap = omega arith
