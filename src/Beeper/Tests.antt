-- ===== src/Beeper/Tests.antt =====
-- A beep begun and ended.
use txos.Base.{◌≡◌, refl, arith}
use txos.Beeper.{Beeper, start_beep, stop_beep, stop_beep-start_beep}

abbrev quiet : Beeper
quiet = record { register = 16; beeping = 0 }

started : start_beep 7 quiet ≡ record { register = 19; beeping = 12 }
unfolding start_beep
started = refl

stop_beep-start_beep_example :
    stop_beep 13 (start_beep 7 quiet) ≡ record { register = 16; beeping = 0 }
stop_beep-start_beep_example = stop_beep-start_beep 7 6 quiet refl (omega arith) (omega arith)
