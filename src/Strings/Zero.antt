-- ===== src/Strings/Zero.antt =====
-- Strings that end with a zero byte: `strlen`, `strcpy`, `strcat`.
use txos.Base.{
  ℕ, zero, suc, ◌+◌, ◌-◌, ◌<◌, ◌≤◌, ◌≡◌, ◌≢◌, refl, ◌∙◌, true, false, List, [], ◌∷◌, ◌++◌, ◌⊎◌, inl,
  inr, arith, length, ok, ◌==◌, update, update-other, Bool-cases, ==_ne,
}
use txos.Strings.{Memory, eos, find_end, strlen, copy_string, strcpy, strcat, memcpy}
use txos.Strings.Buffers.{in_buffer, memcpy_lem}

-- At `p` are the characters `cs`, none of them zero, and a zero byte.
abbrev pub IsString : Memory → ℕ → List ℕ → Type 0
IsString m p [] = m p ≡ eos
IsString m p (c ∷ cs) = (m p ≡ c) × (c ≢ eos) × IsString m (p + 1) cs

find_end-IsString :
    (fuel : ℕ) (m : Memory) (p : ℕ) (cs : List ℕ)
    → IsString m p cs
    → length cs < fuel
    → find_end fuel m p ≡ ok (p + length cs)
unfolding find_end
find_end-IsString zero m p cs is enough = absurd (omega arith)
find_end-IsString (suc fuel) m p [] is enough =
    let stay : p + 0 ≡ p = omega arith in rw (is, stay) refl
find_end-IsString (suc fuel) m p (c ∷ cs) is enough =
    let step : p + suc (length cs) ≡ p + 1 + length cs = omega arith in
    rw (is.0, ==_ne c eos is.1, step) (find_end-IsString fuel m (p + 1) cs is.2 (omega arith))

-- `strlen` of a string ends within one round more than its characters, and counts them.
pub strlen-length :
    (fuel : ℕ) (m : Memory) (str : ℕ) (cs : List ℕ)
    → IsString m str cs
    → length cs < fuel
    → strlen fuel m str ≡ ok (length cs)
unfolding strlen
strlen-length fuel m str cs is enough =
    let count : str + length cs - str ≡ length cs = omega arith in
    rw (find_end-IsString fuel m str cs is enough, count) refl

-- A write before a string or behind it leaves the string.
IsString-update :
    (m : Memory) (p at v : ℕ) (cs : List ℕ)
    → (at < p) ⊎ (p + length cs < at)
    → IsString m p cs
    → IsString (update m at v) p cs
IsString-update m p at v [] apart is = update-other m at v p (ground arith) ∙ is
IsString-update m p at v (c ∷ cs) apart is = (
  update-other m at v p (ground arith) ∙ is.0,
  is.1,
  IsString-update m (p + 1) at v cs (ground arith) is.2,
)

read_back : (m : Memory) (dest src : ℕ) → update m dest (m src) src ≡ m src
read_back m dest src = elim (Bool-cases (dest == src)) [
  | inl same ↦ rw same refl
  | inr other ↦ rw other refl
]

-- The loop copies the string with its zero byte.
copy_string-memcpy :
    (fuel : ℕ) (m : Memory) (dest src : ℕ) (cs : List ℕ)
    → IsString m src cs
    → (dest ≤ src) ⊎ (src + length cs < dest)
    → length cs < fuel
    → copy_string fuel m dest src ≡ ok (memcpy (suc (length cs)) m dest src)
unfolding copy_string memcpy
copy_string-memcpy zero m dest src cs is apart enough = absurd (omega arith)
copy_string-memcpy (suc fuel) m dest src [] is apart enough = rw (read_back m dest src, is) refl
copy_string-memcpy (suc fuel) m dest src (c ∷ cs) is apart enough =
    let more : (update m dest (m src) src == eos) ≡ false =
      rw (read_back m dest src) (==_ne (m src) eos (rw is.0 is.1)) in
    rw more (
      copy_string-memcpy fuel (update m dest (m src)) (dest + 1) (src + 1) cs
        (IsString-update m (src + 1) dest (m src) cs (ground arith) is.2) (ground arith)
        (omega arith))

shifted :
    (m m' : Memory) (dest src count : ℕ)
    → ((i : ℕ) → i ≤ suc count → m' (dest + i) ≡ m (src + i))
    → (i : ℕ) → i ≤ count
    → m' (dest + 1 + i) ≡ m (src + 1 + i)
shifted m m' dest src count same i low =
    let d : dest + suc i ≡ dest + 1 + i = omega arith in
    let s : src + suc i ≡ src + 1 + i = omega arith in rw (d, s) at (same (suc i) (omega arith))

outside :
    (m : Memory) (dest src at count : ℕ)
    → (dest ≤ src) ⊎ (src + count < dest)
    → in_buffer dest (count + 1) at ≡ false
    → memcpy (suc count) m dest src at ≡ m at
outside m dest src at count apart out =
    let out' : in_buffer dest (suc count) at ≡ false = ground arith in
    memcpy_lem (suc count) m dest src at (elim apart [ inl h ↦ inl h | inr h ↦ inr (omega arith) ])
    ∙ rw out' refl

IsString-copy :
    (m m' : Memory) (dest src : ℕ) (cs : List ℕ)
    → ((i : ℕ) → i ≤ length cs → m' (dest + i) ≡ m (src + i))
    → IsString m src cs
    → IsString m' dest cs
IsString-copy m m' dest src [] same is =
    let d : dest + 0 ≡ dest = omega arith in
    let s : src + 0 ≡ src = omega arith in rw (d, s) at (same 0 (omega arith)) ∙ is
IsString-copy m m' dest src (c ∷ cs) same is =
    let d : dest + 0 ≡ dest = omega arith in
    let s : src + 0 ≡ src = omega arith in
    (
      rw (d, s) at (same 0 (omega arith)) ∙ is.0,
      is.1,
      IsString-copy m m' (dest + 1) (src + 1) cs (shifted m m' dest src (length cs) same) is.2,
    )

-- A copy of a string is the string, where the target leaves the source alone.
copied-IsString :
    (m : Memory) (dest src : ℕ) (cs : List ℕ)
    → IsString m src cs
    → (dest ≤ src) ⊎ (src + length cs < dest)
    → IsString (memcpy (suc (length cs)) m dest src) dest cs
copied-IsString m dest src cs is apart =
    IsString-copy m (memcpy (suc (length cs)) m dest src) dest src cs
      (λ i low.
        let inside : in_buffer dest (suc (length cs)) (dest + i) ≡ true = ground arith in
        let back : dest + i - dest ≡ i = omega arith in
        memcpy_lem (suc (length cs)) m dest src (dest + i)
          (elim apart [ inl h ↦ inl h | inr h ↦ inr (omega arith) ])
        ∙ rw (inside, back) refl)
      is

-- Where the target does not begin inside the string, `strcpy` ends, with the string at `dest` and all
-- bytes outside its place as before.
pub strcpy_lem :
    (fuel : ℕ) (m : Memory) (dest src : ℕ) (cs : List ℕ)
    → IsString m src cs
    → (dest ≤ src) ⊎ (src + length cs < dest)
    → length cs < fuel
    → (m' : Memory) × (strcpy fuel m dest src ≡ ok m')
      × IsString m' dest cs
      × ((at : ℕ) → in_buffer dest (length cs + 1) at ≡ false → m' at ≡ m at)
unfolding strcpy
strcpy_lem fuel m dest src cs is apart enough = (
  memcpy (suc (length cs)) m dest src,
  copy_string-memcpy fuel m dest src cs is apart enough,
  copied-IsString m dest src cs is apart,
  λ at out. outside m dest src at (length cs) apart out,
)

IsString-append :
    (m m' : Memory) (p : ℕ) (ds cs : List ℕ)
    → IsString m p ds
    → ((at : ℕ) → p ≤ at → at < p + length ds → m' at ≡ m at)
    → IsString m' (p + length ds) cs
    → IsString m' p (ds ++ cs)
IsString-append m m' p [] cs is same end = let stay : p + 0 ≡ p = omega arith in rw stay at end
IsString-append m m' p (d ∷ ds) cs is same end =
    let step : p + suc (length ds) ≡ p + 1 + length ds = omega arith in
    (
      same p (omega arith) (omega arith) ∙ is.0,
      is.1,
      IsString-append m m' (p + 1) ds cs is.2 (λ at low high. same at (omega arith) (omega arith))
          (rw step at end),
    )

-- Where the end of the string at `dest` is not inside the one at `src`, `strcat` ends, with the one
-- string after the other at `dest` and all bytes outside their place as before.
pub strcat_lem :
    (fuel : ℕ) (m : Memory) (dest src : ℕ) (ds cs : List ℕ)
    → IsString m dest ds
    → IsString m src cs
    → (dest + length ds ≤ src) ⊎ (src + length cs < dest + length ds)
    → length ds < fuel
    → length cs < fuel
    → (m' : Memory) × (strcat fuel m dest src ≡ ok m')
      × IsString m' dest (ds ++ cs)
      × ((at : ℕ) → in_buffer (dest + length ds) (length cs + 1) at ≡ false → m' at ≡ m at)
unfolding strcat
strcat_lem fuel m dest src ds cs first second apart enough enough' =
    let end = dest + length ds in
    (
      memcpy (suc (length cs)) m end src,
      rw (find_end-IsString fuel m dest ds first enough)
          (copy_string-memcpy fuel m end src cs second apart enough'),
      IsString-append m (memcpy (suc (length cs)) m end src) dest ds cs first
          (λ at low high. outside m end src at (length cs) apart (ground arith))
          (copied-IsString m end src cs second apart),
      λ at out. outside m end src at (length cs) apart out,
    )
