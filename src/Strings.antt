-- ===== src/Strings.antt =====
-- src/lib/string.c: C strings and buffers in a memory of bytes. Pointers are addresses; no object
-- reaches the end of the address space. `fuel` is for the loops that stop at the end of a string.
pub mod Buffers
pub mod Zero
pub mod Compare
mod Tests
use txos.Base.{
  ℕ, zero, suc, ◌+◌, ◌-◌, ◌%◌, Bool, not, ◌&&◌, ◌||◌, Outcome, ok, out_of_fuel, ◌>>=◌, ◌==◌, ltb,
  if◌then◌else◌, null, update,
}
use txos.Stdlib.{word}

abbrev pub Memory : Type 0
Memory = ℕ → ℕ

-- `EOS`
abbrev pub eos : ℕ
eos = 0

-- The copy loop of `strcpy` and `strcat`.
unfoldable pub copy_string : ℕ → Memory → (ptr src : ℕ) → Outcome Memory
copy_string zero m ptr src = out_of_fuel
copy_string (suc fuel) m ptr src =
    let m' = update m ptr (m src) in
    let more = copy_string fuel m' (ptr + 1) (src + 1) in if m' src == eos then ok m' else more

unfoldable pub strcpy : ℕ → Memory → (dest src : ℕ) → Outcome Memory
unfolding copy_string
strcpy fuel m dest src = copy_string fuel m dest src

-- The walk of `strlen` and `strcat` to the end of a string.
unfoldable pub find_end : ℕ → Memory → ℕ → Outcome ℕ
find_end zero m ptr = out_of_fuel
find_end (suc fuel) m ptr =
    let more = find_end fuel m (ptr + 1) in if m ptr == eos then ok ptr else more

unfoldable pub strcat : ℕ → Memory → (dest src : ℕ) → Outcome Memory
unfolding find_end copy_string
strcat fuel m dest src = do ptr ← find_end fuel m dest; copy_string fuel m ptr src

unfoldable pub strlen : ℕ → Memory → ℕ → Outcome ℕ
unfolding find_end
strlen fuel m str = do ptr ← find_end fuel m str; ok (ptr - str)

-- The loop of `strncpy`, with `left` bytes to go.
unfoldable pub copy_bounded : (left : ℕ) → Memory → (ptr src : ℕ) → Memory
copy_bounded zero m ptr src = m
copy_bounded (suc left) m ptr src =
    let m' = update m ptr (m src) in
    let more = copy_bounded left m' (ptr + 1) (src + 1) in if m' src == eos then m' else more

-- For a `count` of 0 the last store goes to the byte before `dest`.
unfoldable pub strncpy : Memory → (dest src count : ℕ) → Memory
unfolding copy_bounded
strncpy m dest src count = update (copy_bounded count m dest src) (dest + count - 1) eos

-- `*lhs < *rhs ? -1 : *lhs > *rhs` as an `int`; a `char` is signed
abbrev pub sign_of : (lhs rhs : ℕ) → ℕ
sign_of lhs rhs = if ltb lhs rhs then word - 1 else if ltb rhs lhs then 1 else 0

abbrev pub char_order : ℕ → ℕ
char_order byte = (byte + 128) % 256

unfoldable pub strcmp : ℕ → Memory → (lhs rhs : ℕ) → Outcome ℕ
strcmp zero m lhs rhs = out_of_fuel
strcmp (suc fuel) m lhs rhs =
    let more = strcmp fuel m (lhs + 1) (rhs + 1) in
    if (m lhs == m rhs) && (not (m lhs == eos) && not (m rhs == eos))
    then more
    else ok (sign_of (char_order (m lhs)) (char_order (m rhs)))

-- `ch` is an `int`: it is compared with the value of a signed `char`, as a word
abbrev pub char_value : ℕ → ℕ
char_value byte = if ltb byte 128 then byte else byte + word - 256

unfoldable pub strchr : ℕ → Memory → (str ch : ℕ) → Outcome ℕ
strchr zero m str ch = out_of_fuel
strchr (suc fuel) m str ch =
    let more = strchr fuel m (str + 1) ch in
    if char_value (m str) == ch then ok str else if m str == eos then ok null else more

unfoldable pub last_char : ℕ → Memory → (ptr ch last : ℕ) → Outcome ℕ
last_char zero m ptr ch last = out_of_fuel
last_char (suc fuel) m ptr ch last =
    let last' = if char_value (m ptr) == ch then ptr else last in
    let more = last_char fuel m (ptr + 1) ch last' in if m ptr == eos then ok last' else more

unfoldable pub strrchr : ℕ → Memory → (str ch : ℕ) → Outcome ℕ
unfolding last_char
strrchr fuel m str ch = last_char fuel m str ch null

-- `--count > 0`: a count of 0 wraps to 2^32 - 1.
unfoldable pub memcmp_loop : ℕ → Memory → (lptr rptr count : ℕ) → Outcome ℕ
memcmp_loop zero m lptr rptr count = out_of_fuel
memcmp_loop (suc fuel) m lptr rptr count =
    let count' = (count + word - 1) % word in
    let more = memcmp_loop fuel m (lptr + 1) (rptr + 1) count' in
    if (m lptr == m rptr) && ltb 0 count' then more else ok (sign_of (m lptr) (m rptr))

unfoldable pub memcmp : ℕ → Memory → (lhs rhs count : ℕ) → Outcome ℕ
unfolding memcmp_loop
memcmp fuel m lhs rhs count = memcmp_loop fuel m lhs rhs count

unfoldable pub memset : (count : ℕ) → Memory → (dest ch : ℕ) → Memory
memset zero m dest ch = m
memset (suc count) m dest ch = memset count (update m dest (ch % 256)) (dest + 1) ch

unfoldable pub memcpy : (count : ℕ) → Memory → (dest src : ℕ) → Memory
memcpy zero m dest src = m
memcpy (suc count) m dest src = memcpy count (update m dest (m src)) (dest + 1) (src + 1)

-- Where the byte is not there, the result is the end of the buffer, not NULL.
unfoldable pub memchr : (count : ℕ) → Memory → (ptr ch : ℕ) → ℕ
memchr zero m ptr ch = ptr
memchr (suc count) m ptr ch =
    let more = memchr count m (ptr + 1) ch in if m ptr == ch then ptr else more
