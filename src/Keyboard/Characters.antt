-- ===== src/Keyboard/Characters.antt =====
-- Which character a key types.
use txos.Base.{
  ℕ, ◌<◌, ◌≡◌, ◌≢◌, refl, arith, Bool, true, false, not, ◌==◌, if◌then◌else◌, inl, inr, ◌⊎◌,
}
use txos.Keyboard.{Keyboard, key_char, key_slash, shifted}
use txos.Keyboard.Keymap.{keycap}
use txos.Keyboard.Codes.{key_case_of, key_case_holds}

abbrev pub xor : Bool → Bool → Bool
xor true b = not b
xor false b = b

either :
    (b : Bool) (low high : ℕ)
    → ((if b then high else low) ≡ low) ⊎ ((if b then high else low) ≡ high)
either true low high = inr refl
either false low high = inl refl

of_low : (low high : ℕ) → key_case_of low high ≡ true → (low < 128) × (low ≢ 111) × (low ≢ 79)
of_low low high case = ground arith

of_high : (low high : ℕ) → key_case_of low high ≡ true → (high < 128) × (high ≢ 111) × (high ≢ 79)
of_high low high case = ground arith

swapped : {a low high : ℕ} → (a ≡ high) ⊎ (a ≡ low) → (a ≡ low) ⊎ (a ≡ high)
swapped (inl e) = inr e
swapped (inr e) = inl e

key_char_cases :
    (k : Keyboard) (make_code : ℕ) (ext : Bool)
    → let caps = keycap make_code in
      (key_char k make_code ext ≡ caps.0) ⊎ (key_char k make_code ext ≡ caps.1)
unfolding key_char
key_char_cases k make_code true =
    swapped (either (make_code == key_slash) (keycap make_code).1 (keycap make_code).0)
key_char_cases k make_code false =
    either (shifted k make_code) (keycap make_code).0 (keycap make_code).1

-- Whatever keys are held and locked, what a key types is a byte below 128, and it never is an 'o' or
-- an 'O': no entry of the table has that letter.
pub key_char_lem :
    (k : Keyboard) (make_code : ℕ) (ext : Bool)
    → make_code < 128
    → (key_char k make_code ext < 128)
      × (key_char k make_code ext ≢ 111)
      × (key_char k make_code ext ≢ 79)
key_char_lem k make_code ext small = elim (key_char_cases k make_code ext) [
  | inl low ↦
      rw low (of_low (keycap make_code).0 (keycap make_code).1 (key_case_holds make_code small))
  | inr high ↦
      rw high (of_high (keycap make_code).0 (keycap make_code).1 (key_case_holds make_code small))
]
