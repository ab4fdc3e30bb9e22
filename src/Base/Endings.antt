-- ===== src/Base/Endings.antt =====
-- How a kernel routine ends. `halt` is a failed `assert`, a `panic` or an access outside the memory
-- that the routine owns: the kernel spins and nothing runs after it. `out_of_fuel` says that a loop
-- was given too few rounds.
use mathlib.Core.Bool.{Bool, true, false}
use mathlib.Core.Option.{Option, none, some}

pub data Outcome {ℓ} (A : Type ℓ) : Type ℓ where
  ok : A → Outcome A
  halt : Outcome A
  out_of_fuel : Outcome A

infixl 5 ◌>>=◌ ◌>>◌
abbrev pub ◌>>=◌ {ℓ κ} : {A : Type ℓ} {B : Type κ} → Outcome A → (A → Outcome B) → Outcome B
ok a >>= f = f a
halt >>= f = halt
out_of_fuel >>= f = out_of_fuel

abbrev pub ◌>>◌ {ℓ} : {B : Type ℓ} → Outcome (Unit {0}) → Outcome B → Outcome B
m >> k = m >>= λ _. k

-- `assert(test)` of include/xos/assert.h: kernel/assert.c never returns from a failed one.
abbrev pub assert : Bool → Outcome (Unit {0})
assert true = ok tt
assert false = halt

-- The access of an array cell, which must exist.
abbrev pub from_option {ℓ} : {A : Type ℓ} → Option A → Outcome A
from_option none = halt
from_option (some a) = ok a

-- The result of a routine that is known to end.
abbrev pub value_or {ℓ} : {A : Type ℓ} → A → Outcome A → A
value_or d (ok a) = a
value_or d halt = d
value_or d out_of_fuel = d
