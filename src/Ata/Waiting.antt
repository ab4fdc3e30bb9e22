-- ===== src/Ata/Waiting.antt =====
-- Where the wait for a drive ends.
use txos.Base.{
  ℕ, ◌≡◌, arith, Bool, true, false, ◌&&◌, ◌||◌, not, List, [], ◌∷◌, ◌++◌, bit_and, ◌==◌,
  if◌then◌else◌, ok,
}
use txos.Ata.{sr_err, sr_bsy, ata_busy_wait}

-- a state that tells of no error, and that is busy or misses an event of the mask
abbrev is_pending : (mask state : ℕ) → Bool
is_pending mask state =
    (bit_and state sr_err == 0)
    && (not (bit_and state sr_bsy == 0) || not (bit_and state mask == mask))

abbrev all_pending : (mask : ℕ) → List ℕ → Bool
all_pending mask [] = true
all_pending mask (state ∷ states) = is_pending mask state && all_pending mask states

-- Of states that all are pending, then one that is not, ata_busy_wait reads these and no more; the
-- result is 0, or the error bit when the last state has it.
ata_busy_wait_lem :
    (mask : ℕ) (pending : List ℕ) (state : ℕ) (rest : List ℕ)
    → all_pending mask pending ≡ true
    → is_pending mask state ≡ false
    → ata_busy_wait mask (pending ++ state ∷ rest)
      ≡ ok (if bit_and state sr_err == 0 then 0 else sr_err, rest)
unfolding ata_busy_wait
ata_busy_wait_lem mask [] state rest all settled = ground arith
ata_busy_wait_lem mask (first ∷ pending) state rest all settled =
    ground (arith, ata_busy_wait_lem mask pending state rest)
