-- ===== src/Base/Bits.antt =====
-- One bit of a byte, and checks of all values of a small range.
use Prim.Native.Nat.{ℕ, zero, suc, ◌-◌, ◌^◌, ◌<◌, bit_and, bit_or}
use mathlib.Core.Path.{◌≡◌, refl}
use mathlib.Core.Bool.{Bool, true, false, not, ◌&&◌, ◌||◌}
use native.Mathlib.Omega.{arith}
use txos.Base.Tests.{◌==◌, ltb}

-- a table of the first `bound` cases, checked from the last to the first
unfoldable pub tabulated : (case : ℕ → Bool) → ℕ → Bool
tabulated case zero = true
tabulated case (suc bound) = case bound && tabulated case bound

pub tabulated_case :
    {bound x : ℕ} (case : ℕ → Bool) → x < bound → tabulated case bound ≡ true → case x ≡ true
unfolding tabulated
tabulated_case {bound = zero} case lt checked = absurd (omega arith)
tabulated_case {bound = suc bound} {x = x} case lt checked =
    ground (arith, tabulated_case {bound = bound} {x = x} case)

-- `byte & (1 << k)`, as a truth value
unfoldable pub test_bit : ℕ → ℕ → Bool
test_bit byte k = not (bit_and byte (2 ^ k) == 0)

-- `byte | (1 << k)`
unfoldable pub set_bit : ℕ → ℕ → ℕ
set_bit byte k = bit_or byte (2 ^ k)

-- `byte & ~(1 << k)`; of the complement a byte sees the low 8 bits
unfoldable pub clear_bit : ℕ → ℕ → ℕ
clear_bit byte k = bit_and byte (255 - 2 ^ k)

-- equality of truth values, as a test
abbrev same : Bool → Bool → Bool
same true b = b
same false b = not b

same_sound : (a b : Bool) → same a b ≡ true → a ≡ b
same_sound true b h = ground arith
same_sound false b h = ground arith

abbrev byte_laws : ℕ → ℕ → ℕ → Bool
byte_laws x k j =
    same (test_bit (set_bit x k) j) ((k == j) || test_bit x j)
    && same (test_bit (clear_bit x k) j) (not (k == j) && test_bit x j)
    && (ltb (set_bit x k) 256 && ltb (clear_bit x k) 256)

byte_table : tabulated (λ x. tabulated (λ k. tabulated (λ j. byte_laws x k j) 8) 8) 256 ≡ true
unfolding tabulated test_bit set_bit clear_bit
byte_table = refl

byte_laws_hold : (x k j : ℕ) → x < 256 → k < 8 → j < 8 → byte_laws x k j ≡ true
byte_laws_hold x k j hx hk hj = tabulated_case (byte_laws x k) hj (
    tabulated_case (λ k. tabulated (byte_laws x k) 8) hk
      (tabulated_case (λ x. tabulated (λ k. tabulated (byte_laws x k) 8) 8) hx byte_table))

pub test_bit-set_bit :
    (x k j : ℕ) → x < 256 → k < 8 → j < 8 → test_bit (set_bit x k) j ≡ ((k == j) || test_bit x j)
test_bit-set_bit x k j hx hk hj = same_sound _ _ (ground (arith, byte_laws_hold x k j hx hk hj))

pub test_bit-clear_bit :
    (x k j : ℕ)
    → x < 256
    → k < 8
    → j < 8
    → test_bit (clear_bit x k) j ≡ (not (k == j) && test_bit x j)
test_bit-clear_bit x k j hx hk hj = same_sound _ _ (ground (arith, byte_laws_hold x k j hx hk hj))

pub set_bit-lt : (x k : ℕ) → x < 256 → k < 8 → set_bit x k < 256
set_bit-lt x k hx hk = ground (arith, byte_laws_hold x k 0 hx hk (omega arith))

pub clear_bit-lt : (x k : ℕ) → x < 256 → k < 8 → clear_bit x k < 256
clear_bit-lt x k hx hk = ground (arith, byte_laws_hold x k 0 hx hk (omega arith))

pub test_bit-zero : (j : ℕ) → j < 8 → test_bit 0 j ≡ false
test_bit-zero j h = same_sound (test_bit 0 j) false (tabulated_case _ h table)
  where
    table : tabulated (λ j. same (test_bit 0 j) false) 8 ≡ true
    table = unfold tabulated test_bit in refl
