-- ===== src/Keyboard/Handler.antt =====
-- The keyboard interrupt as a whole.
use txos.Base.{ℕ, ◌%◌, false, ltb, ◌==◌, if◌then◌else◌}
use txos.Keyboard.{Keyboard, key_char}
use txos.Keyboard.Pressing.{pressed}

-- The character that a byte from the keyboard means: none for the prefix, for a byte that is no key's
-- and for a key let go.
abbrev pub meant : Keyboard → (byte : ℕ) → ℕ
meant k byte =
    let make_code = byte % 128 in
    if byte == 0xe0
    then 0
    else if ltb 0x5d make_code
    then 0
    else if ltb byte 128
    then key_char (pressed (record k { extcode = false }) make_code k.extcode) make_code k.extcode
    else 0
