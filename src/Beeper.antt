-- ===== src/Beeper.antt =====
-- src/kernel/clock.c: the PC speaker, its port 0x61 as the register that is read and written.
mod Tests
use txos.Base.{
  ℕ, ◌+◌, ◌%◌, ◌<◌, ◌≤◌, ◌≡◌, refl, arith, bit_and, bit_or, ◌==◌, ltb, if◌then◌else◌, Bool, false,
}
use txos.Stdlib.{word}

-- the port's byte and the counter `beeping`
pub record Beeper : Type 0 where
  pub register : ℕ
  pub beeping : ℕ

unfoldable pub start_beep : (jiffies : ℕ) → Beeper → Beeper
start_beep jiffies b =
    if b.beeping == 0
    then record { register = bit_or b.register 3; beeping = (jiffies + 5) % word }
    else b

-- Of the complement of 3 the byte port sees the low 8 bits.
unfoldable pub stop_beep : (jiffies : ℕ) → Beeper → Beeper
stop_beep jiffies b =
    if ltb b.beeping jiffies then record { register = bit_and b.register 252; beeping = 0 } else b

-- A beep started at a silent speaker, before the counter of ticks is near its wrap, sounds on at each
-- of the next five ticks and is ended by the sixth.
pub stop_beep-start_beep :
    (jiffies ticks : ℕ) (b : Beeper)
    → b.beeping ≡ 0
    → jiffies + 6 < word
    → ticks ≤ 6
    → stop_beep (jiffies + ticks) (start_beep jiffies b) ≡ (
        if ltb ticks 6
        then record { register = bit_or b.register 3; beeping = jiffies + 5 }
        else record { register = bit_and (bit_or b.register 3) 252; beeping = 0 })
unfolding start_beep stop_beep
stop_beep-start_beep jiffies ticks b silent small few = ground arith
