-- ===== src/Keyboard/Codes.antt =====
-- Scan codes as numbers: the prefix is lost in 16 bits, and the masks are a remainder and a comparison.
use txos.Base.{
  ℕ, ◌+◌, ◌%◌, ◌<◌, ◌^◌, ◌≡◌, refl, arith, Bool, true, not, ◌&&◌, ◌||◌, ltb, ◌==◌, bit_and, bit_or,
  tabulated, tabulated_case, if◌then◌else◌,
}
use txos.Keyboard.{is_alpha}
use txos.Keyboard.Keymap.{keycap}

abbrev byte_case : ℕ → Bool
byte_case byte =
    (bit_or byte 0xe0000 % 2 ^ 16 == byte)
    && ((bit_and byte 0x7f == byte % 128)
        && (if ltb byte 128 then bit_and byte 0x80 == 0 else not (bit_and byte 0x80 == 0)))

byte_table : tabulated byte_case 256 ≡ true
unfolding tabulated
byte_table = refl

-- what the handler reads off a byte
pub byte_code :
    (byte : ℕ)
    → byte < 256
    → (bit_or byte 0xe0000 % 2 ^ 16 ≡ byte)
      × (bit_and byte 0x7f ≡ byte % 128)
      × ((bit_and byte 0x80 == 0) ≡ ltb byte 128)
byte_code byte small =
    let case : byte_case byte ≡ true = tabulated_case byte_case small byte_table in
    (ground arith, ground arith, ground arith)

-- A letter key has a small letter and its capital; no key has an 'o' or a byte above 127.
abbrev pub key_case_of : (low high : ℕ) → Bool
key_case_of low high =
    (not (is_alpha low) || (high + 32 == low))
    && (ltb low 128 && ltb high 128)
    && (not (low == 111) && not (high == 111) && (not (low == 79) && not (high == 79)))

abbrev pub key_case : ℕ → Bool
key_case make_code = key_case_of (keycap make_code).0 (keycap make_code).1

key_table : tabulated key_case 128 ≡ true
unfolding tabulated
key_table = refl

pub key_case_holds : (make_code : ℕ) → make_code < 128 → key_case make_code ≡ true
key_case_holds make_code small = tabulated_case key_case small key_table
