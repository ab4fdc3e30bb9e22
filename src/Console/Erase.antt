-- ===== src/Console/Erase.antt =====
-- The erasing loop: the cells that it gives a blank, and those that it keeps.
use txos.Base.{ℕ, zero, suc, ◌+◌, ◌-◌, ◌*◌, ◌≡◌, ◌∙◌, arith, if◌then◌else◌, ◌==◌}
use txos.Strings.{Memory}
use txos.Strings.Buffers.{in_buffer}
use txos.Console.{erase, store_erase}
use txos.Console.Terminal.{blank}

pub store_erase_lem :
    (memory : Memory) (ptr at : ℕ)
    → store_erase memory ptr at
      ≡ (if at == ptr then 0x20 else if at == ptr + 1 then 0x07 else memory at)
store_erase_lem memory ptr at = ground arith

pub erase_lem :
    (count : ℕ) (memory : Memory) (ptr at : ℕ)
    → erase count memory ptr at
      ≡ (if in_buffer ptr (count * 2) at then blank (at - ptr) else memory at)
unfolding erase
erase_lem zero memory ptr at = ground arith
erase_lem (suc count) memory ptr at =
    erase_lem count (store_erase memory ptr) (ptr + 2) at
    ∙ ground (arith, store_erase_lem memory ptr at)
