-- ===== src/Base/Memory.antt =====
-- A memory of words as a function of the address.
use Prim.Native.Nat.{ℕ}
use mathlib.Core.Path.{◌≡◌, refl, ap, ◌∙◌}
use mathlib.Core.Logic.{◌≢◌, inl, inr}
use txos.Base.Tests.{◌==◌, if◌then◌else◌, ==_iff, ==_refl, ==_ne, Bool-cases}

-- the address that no object has
abbrev pub null : ℕ
null = 0

-- the memory after one write
abbrev pub update {ℓ} : {V : Type ℓ} (memory : ℕ → V) (address : ℕ) (value : V) → ℕ → V
update memory address value = λ at. if address == at then value else memory at

module _ {ℓ} {V : Type ℓ} (memory : ℕ → V) where
  pub update-same : (address : ℕ) (value : V) → update memory address value address ≡ value
  update-same address value = rw (==_refl address) refl

  pub update-other :
      (address : ℕ) (value : V) (at : ℕ) → address ≢ at → update memory address value at ≡ memory at
  update-other address value at apart = rw (==_ne address at apart) refl

-- What a write keeps of the value at its address, it keeps everywhere.
pub update-field {ℓ κ} :
    {V : Type ℓ} {W : Type κ} (field : V → W) (memory : ℕ → V) (address : ℕ) (value : V) (at : ℕ)
    → field value ≡ field (memory address)
    → field (update memory address value at) ≡ field (memory at)
update-field field memory address value at same = elim (Bool-cases (address == at)) [
  | inl here ↦ rw here (same ∙ ap (λ a. field (memory a)) ((==_iff address at).0 here))
  | inr there ↦ rw there refl
]

pub update-rest {ℓ} :
    {V : Type ℓ} (memory : ℕ → V) (address : ℕ) (value : V) (at : ℕ)
    → update memory address value at
      ≡ (if address == at then update memory address value at else memory at)
update-rest memory address value at = elim (Bool-cases (address == at)) [
  | inl here ↦ rw here refl
  | inr there ↦ rw there refl
]
