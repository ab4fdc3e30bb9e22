-- ===== src/Strings/Compare.antt =====
-- `strcmp` and the searches for a character.
use txos.Base.{
  ℕ, zero, suc, ◌+◌, ◌<◌, ◌≡◌, refl, List, [], ◌∷◌, inl, inr, arith, length, ok, ◌==◌,
  if◌then◌else◌, Bool-cases, ==_ne, null,
}
use txos.Strings.{Memory, eos, sign_of, char_order, char_value, strchr, strrchr, last_char}
use txos.Strings.Zero.{IsString}

-- The lexicographic order of strings by their signed characters, the end as a zero.
abbrev pub string_order : List ℕ → List ℕ → ℕ
string_order [] [] = 0
string_order [] (d ∷ ds) = sign_of (char_order eos) (char_order d)
string_order (c ∷ cs) [] = sign_of (char_order c) (char_order eos)
string_order (c ∷ cs) (d ∷ ds) =
    if c == d then string_order cs ds else sign_of (char_order c) (char_order d)

-- the place in a string of the first character of a value, the end among them
abbrev pub first_place : ℕ → List ℕ → ℕ → ℕ
first_place p [] ch = if char_value eos == ch then p else null
first_place p (c ∷ cs) ch = if char_value c == ch then p else first_place (p + 1) cs ch

-- and of the last; `last` if there is none
abbrev pub last_place : ℕ → List ℕ → ℕ → ℕ → ℕ
last_place p [] ch last = if char_value eos == ch then p else last
last_place p (c ∷ cs) ch last = last_place (p + 1) cs ch (if char_value c == ch then p else last)

-- `strchr` ends within one round more than the characters, with the first place of the character
-- (the closing zero is one of them), or NULL.
pub strchr-first_place :
    (fuel : ℕ) (m : Memory) (str ch : ℕ) (cs : List ℕ)
    → IsString m str cs
    → length cs < fuel
    → strchr fuel m str ch ≡ ok (first_place str cs ch)
unfolding strchr
strchr-first_place zero m str ch cs is enough = absurd (omega arith)
strchr-first_place (suc fuel) m str ch [] is enough = elim (Bool-cases (char_value eos == ch)) [
  | inl found ↦ rw (is, found) refl
  | inr on ↦ rw (is, on) refl
]
strchr-first_place (suc fuel) m str ch (c ∷ cs) is enough = elim (Bool-cases (char_value c == ch)) [
  | inl found ↦ rw (is.0, found) refl
  | inr on ↦
      rw (is.0, on, ==_ne c eos is.1) (strchr-first_place fuel m (str + 1) ch cs is.2 (omega arith))
]

last_char-last_place :
    (fuel : ℕ) (m : Memory) (p ch last : ℕ) (cs : List ℕ)
    → IsString m p cs
    → length cs < fuel
    → last_char fuel m p ch last ≡ ok (last_place p cs ch last)
unfolding last_char
last_char-last_place zero m p ch last cs is enough = absurd (omega arith)
last_char-last_place (suc fuel) m p ch last [] is enough = rw is refl
last_char-last_place (suc fuel) m p ch last (c ∷ cs) is enough =
    rw (is.0, ==_ne c eos is.1)
      (last_char-last_place fuel m (p + 1) ch (if char_value c == ch then p else last) cs is.2
        (omega arith))

-- `strrchr` ends likewise, with the last place of the character, or NULL.
pub strrchr-last_place :
    (fuel : ℕ) (m : Memory) (str ch : ℕ) (cs : List ℕ)
    → IsString m str cs
    → length cs < fuel
    → strrchr fuel m str ch ≡ ok (last_place str cs ch null)
unfolding strrchr
strrchr-last_place fuel m str ch cs is enough = last_char-last_place fuel m str ch null cs is enough
