-- ===== src/Interrupt/Masks.antt =====
-- A line of the interrupt controllers is masked or not, whatever happens to the others.
use txos.Base.{
  ℕ, ◌-◌, ◌<◌, ◌≡◌, Bool, true, false, not, ok, arith, ltb, ◌==◌, if◌then◌else◌, test_bit,
  test_bit-set_bit, test_bit-clear_bit, set_bit-lt, clear_bit-lt, inl, inr, Bool-cases, set_bit,
  clear_bit,
}
use txos.Interrupt.{Pic, set_interrupt_mask}

pub record IsValid (pic : Pic) : Type 0 where
  pub master_byte : pic.master < 256
  pub slave_byte : pic.slave < 256

abbrev pub is_masked : Pic → ℕ → Bool
is_masked pic line = if ltb line 8 then test_bit pic.master line else test_bit pic.slave (line - 8)

masked_bit :
    (byte line j : ℕ) (enable : Bool)
    → byte < 256
    → line < 8
    → j < 8
    → test_bit (if enable then clear_bit byte line else set_bit byte line) j
      ≡ (if line == j then not enable else test_bit byte j)
masked_bit byte line j true hb hl hj = ground (arith, test_bit-clear_bit byte line j hb hl hj)
masked_bit byte line j false hb hl hj = ground (arith, test_bit-set_bit byte line j hb hl hj)

masked_byte :
    (byte line : ℕ) (enable : Bool)
    → byte < 256
    → line < 8
    → (if enable then clear_bit byte line else set_bit byte line) < 256
masked_byte byte line true hb hl = clear_bit-lt byte line hb hl
masked_byte byte line false hb hl = set_bit-lt byte line hb hl

-- For each of the 16 lines `set_interrupt_mask` succeeds, keeps the masks bytes, and unmasks or masks
-- just that line: every other line is masked exactly when it was.
pub set_interrupt_mask_lem :
    (pic : Pic) (irq : ℕ) (enable : Bool)
    → IsValid pic
    → irq < 16
    → (pic' : Pic) × (set_interrupt_mask pic irq enable ≡ ok pic')
      × IsValid pic'
      × ((line : ℕ)
          → line < 16
          → is_masked pic' line ≡ (if irq == line then not enable else is_masked pic line))
unfolding set_interrupt_mask
set_interrupt_mask_lem pic irq enable v bound = elim (Bool-cases (ltb irq 8)) [
  | inl low ↦ (
    record pic { master = if enable then clear_bit pic.master irq else set_bit pic.master irq },
    ground arith,
    record {
      master_byte = masked_byte pic.master irq enable v.master_byte (ground arith);
      slave_byte = v.slave_byte;
    },
    λ line hl. ground (arith, masked_bit pic.master irq line enable v.master_byte),
  )
  | inr high ↦ (
    record pic {
      slave = if enable then clear_bit pic.slave (irq - 8) else set_bit pic.slave (irq - 8);
    },
    ground arith,
    record {
      master_byte = v.master_byte;
      slave_byte = masked_byte pic.slave (irq - 8) enable v.slave_byte (ground arith);
    },
    λ line hl. ground (arith, masked_bit pic.slave (irq - 8) (line - 8) enable v.slave_byte),
  )
]
