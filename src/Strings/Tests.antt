-- ===== src/Strings/Tests.antt =====
-- Two short strings, and the theorems at them.
use txos.Base.{
  ℕ, ◌+◌, ◌≤◌, ◌<◌, ◌≡◌, ◌≢◌, refl, false, [], ◌∷◌, ◌⊎◌, inl, arith, ok, null, if◌then◌else◌, ◌==◌,
}
use txos.Strings.{
  Memory, strlen, strcpy, strcat, strchr, strrchr, memset, memcpy, memchr, memcmp, sign_of,
}
use txos.Strings.Buffers.{in_buffer, memset_lem, memcpy_lem, memchr_lem, memcmp_lem}
use txos.Strings.Zero.{IsString, strlen-length, strcpy_lem, strcat_lem}
use txos.Strings.Compare.{first_place, last_place, strchr-first_place, strrchr-last_place}

-- "aba" at 100 and "ac" at 200
abbrev m : Memory
m = λ p.
    if p == 100
    then 97
    else if p == 101
    then 98
    else if p == 102
    then 97
    else if p == 200
    then 97
    else if p == 201
    then 99
    else 0

aba : IsString m 100 (97 ∷ 98 ∷ 97 ∷ [])
aba = (refl, omega arith, (refl, omega arith, (refl, omega arith, refl)))

ac : IsString m 200 (97 ∷ 99 ∷ [])
ac = (refl, omega arith, (refl, omega arith, refl))

strlen-length_example : strlen 4 m 100 ≡ ok 3
strlen-length_example = strlen-length 4 m 100 (97 ∷ 98 ∷ 97 ∷ []) aba (omega arith)

strcpy_lem_example :
    (m' : Memory) × (strcpy 3 m 100 200 ≡ ok m')
    × IsString m' 100 (97 ∷ 99 ∷ [])
    × ((at : ℕ) → in_buffer 100 3 at ≡ false → m' at ≡ m at)
strcpy_lem_example = strcpy_lem 3 m 100 200 (97 ∷ 99 ∷ []) ac (inl (omega arith)) (omega arith)

strcat_lem_example :
    (m' : Memory) × (strcat 4 m 100 200 ≡ ok m')
    × IsString m' 100 (97 ∷ 98 ∷ 97 ∷ 97 ∷ 99 ∷ [])
    × ((at : ℕ) → in_buffer 103 3 at ≡ false → m' at ≡ m at)
strcat_lem_example =
    strcat_lem 4 m 100 200 (97 ∷ 98 ∷ 97 ∷ []) (97 ∷ 99 ∷ []) aba ac (inl (omega arith))
      (omega arith) (omega arith)

strchr-first_place_example : strchr 4 m 100 97 ≡ ok (first_place 100 (97 ∷ 98 ∷ 97 ∷ []) 97)
strchr-first_place_example = strchr-first_place 4 m 100 97 (97 ∷ 98 ∷ 97 ∷ []) aba (omega arith)

strrchr-last_place_example : strrchr 4 m 100 97 ≡ ok (last_place 100 (97 ∷ 98 ∷ 97 ∷ []) 97 null)
strrchr-last_place_example = strrchr-last_place 4 m 100 97 (97 ∷ 98 ∷ 97 ∷ []) aba (omega arith)

-- The places are those of the letters.
first_and_last :
    (first_place 100 (97 ∷ 98 ∷ 97 ∷ []) 97 ≡ 100)
    × (last_place 100 (97 ∷ 98 ∷ 97 ∷ []) 97 null ≡ 102)
first_and_last = (refl, refl)

memset_lem_example : memset 2 m 100 300 101 ≡ 44
memset_lem_example = memset_lem 2 m 100 300 101

memcpy_lem_example : memcpy 2 m 100 200 101 ≡ 99
memcpy_lem_example = memcpy_lem 2 m 100 200 101 (inl (omega arith))

memchr_lem_example :
    (100 ≤ memchr 3 m 100 98)
    × (memchr 3 m 100 98 ≤ 103)
    × ((at : ℕ) → 100 ≤ at → at < memchr 3 m 100 98 → m at ≢ 98)
    × ((memchr 3 m 100 98 ≡ 103) ⊎ (m (memchr 3 m 100 98) ≡ 98))
memchr_lem_example = memchr_lem 3 m 100 98

memcmp_lem_example :
    (i : ℕ) × (i < 3)
    × ((j : ℕ) → j < i → m (100 + j) ≡ m (200 + j))
    × (memcmp 3 m 100 200 3 ≡ ok (sign_of (m (100 + i)) (m (200 + i))))
    × ((i + 1 ≡ 3) ⊎ (m (100 + i) ≢ m (200 + i)))
memcmp_lem_example = memcmp_lem 3 3 m 100 200 (omega arith) (omega arith) (omega arith)
