-- ===== src/Stdlib/Tests.antt =====
-- The conversions at concrete values.
use txos.Base.{ℕ, ◌+◌, ◌*◌, ◌≤◌, ◌<◌, ◌≡◌, refl, arith, ok, halt}
use txos.Stdlib.{bcd_to_bin, bin_to_bcd, div_round_up}
use txos.Stdlib.Laws.{bin_to_bcd-bcd_to_bin, bcd_to_bin_digits, div_round_up_lem}

bin_to_bcd_limit : bin_to_bcd 100 ≡ halt
unfolding bin_to_bcd
bin_to_bcd_limit = refl

div_round_up_zero : div_round_up 7 0 ≡ halt
unfolding div_round_up
div_round_up_zero = refl

bin_to_bcd-bcd_to_bin_example :
    (bcd : ℕ) × (bin_to_bcd 59 ≡ ok bcd) × (bcd < 256) × (bcd_to_bin bcd ≡ 59)
bin_to_bcd-bcd_to_bin_example = bin_to_bcd-bcd_to_bin 59 (omega arith)

bcd_to_bin_digits_example :
    (bcd_to_bin (5 * 16 + 9) ≡ 5 * 10 + 9)
    × (bin_to_bcd (bcd_to_bin (5 * 16 + 9)) ≡ ok (5 * 16 + 9))
bcd_to_bin_digits_example = bcd_to_bin_digits 5 9 (omega arith) (omega arith)

div_round_up_lem_example :
    (q : ℕ) × (div_round_up 4097 4096 ≡ ok q) × (4097 ≤ q * 4096) × (q * 4096 < 4097 + 4096)
div_round_up_lem_example = div_round_up_lem 4097 4096 (omega arith) (omega arith)
