-- ===== src/Strings/Buffers.antt =====
-- Buffers of a given length: `memset`, `memcpy`, `memchr`, `memcmp`.
use txos.Base.{
  ℕ, zero, suc, ◌+◌, ◌-◌, ◌%◌, ◌<◌, ◌≤◌, ◌≡◌, ◌≢◌, refl, ap, ◌∙◌, Bool, true, false, ◌&&◌, ◌⊎◌, inl,
  inr, arith, ok, ◌==◌, ltb, leb, if◌then◌else◌, update, update-other, Bool-cases, ==_iff,
}
use txos.Stdlib.{word}
use txos.Strings.{Memory, memset, memcpy, memchr, memcmp, memcmp_loop, sign_of}

-- `at` is one of the `count` bytes from `from` on
abbrev pub in_buffer : (from count at : ℕ) → Bool
in_buffer from count at = leb from at && ltb at (from + count)

-- `memset` gives the low byte of `ch` to each of the `count` bytes and keeps all others.
pub memset_lem :
    (count : ℕ) (m : Memory) (dest ch at : ℕ)
    → memset count m dest ch at ≡ (if in_buffer dest count at then ch % 256 else m at)
unfolding memset
memset_lem zero m dest ch at = ground arith
memset_lem (suc count) m dest ch at =
    memset_lem count (update m dest (ch % 256)) (dest + 1) ch at ∙ ground arith

-- Of a source that no byte of the target overlaps from behind (`dest` is not inside it, or is its
-- start) `memcpy` copies each of the `count` bytes, and it keeps every byte outside the target.
pub memcpy_lem :
    (count : ℕ) (m : Memory) (dest src at : ℕ)
    → (dest ≤ src) ⊎ (src + count ≤ dest)
    → memcpy count m dest src at ≡ (if in_buffer dest count at then m (src + (at - dest)) else m at)
unfolding memcpy
memcpy_lem zero m dest src at apart = ground arith
memcpy_lem (suc count) m dest src at apart = elim (Bool-cases (in_buffer (dest + 1) count at)) [
  | inl here ↦
      let low : dest + 1 ≤ at = ground arith in
      let high : at < dest + 1 + count = ground arith in
      let place : src + 1 + (at - (dest + 1)) ≡ src + (at - dest) = omega arith in
      let clear : dest ≢ src + (at - dest) = ground arith in
      let inside : in_buffer dest (suc count) at ≡ true = ground arith in
      memcpy_lem count (update m dest (m src)) (dest + 1) (src + 1) at (ground arith)
      ∙ rw (here, inside, place) (update-other m dest (m src) (src + (at - dest)) clear)
  | inr there ↦
      memcpy_lem count (update m dest (m src)) (dest + 1) (src + 1) at (ground arith)
      ∙ rw there (elim (Bool-cases (dest == at)) [
        | inl first ↦
            let inside : in_buffer dest (suc count) at ≡ true = ground arith in
            let place : src + (at - dest) ≡ src = ground arith in rw (first, inside, place) refl
        | inr outside ↦
            let out : in_buffer dest (suc count) at ≡ false = ground arith in rw (outside, out) refl
      ])
]

later :
    (m : Memory) (ptr ch at end : ℕ)
    → (m ptr == ch) ≡ false
    → ((i : ℕ) → ptr + 1 ≤ i → i < end → m i ≢ ch)
    → ptr ≤ at
    → at < end
    → m at ≢ ch
later m ptr ch at end on rest low high = elim (Bool-cases (ptr == at)) [
  | inl same ↦ λ e. absurd (ground arith)
  | inr other ↦ rest at (ground arith) high
]

-- `memchr` gives the address of the first byte equal to `ch`, and for a buffer without it the address
-- one past the end: every byte before the result differs, and a result inside has the byte.
pub memchr_lem :
    (count : ℕ) (m : Memory) (ptr ch : ℕ)
    → (ptr ≤ memchr count m ptr ch)
      × (memchr count m ptr ch ≤ ptr + count)
      × ((at : ℕ) → ptr ≤ at → at < memchr count m ptr ch → m at ≢ ch)
      × ((memchr count m ptr ch ≡ ptr + count) ⊎ (m (memchr count m ptr ch) ≡ ch))
unfolding memchr
memchr_lem zero m ptr ch =
    (omega arith, omega arith, λ at low high. absurd (omega arith), inl (omega arith))
memchr_lem (suc count) m ptr ch = elim (Bool-cases (m ptr == ch)) [
  | inl found ↦
      rw found
        (omega arith, omega arith, λ at low high. absurd (omega arith), inr ((==_iff _ _).0 found))
  | inr on ↦
      let (low, high, before, last) = memchr_lem count m (ptr + 1) ch in
      rw on (
        omega arith,
        omega arith,
        λ at l h. later m ptr ch at (memchr count m (ptr + 1) ch) on before l h,
        elim last [ inl e ↦ inl (omega arith) | inr f ↦ inr f ],
      )
]

same_from :
    (m : Memory) (lhs rhs i : ℕ)
    → m lhs ≡ m rhs
    → ((j : ℕ) → j < i → m (lhs + 1 + j) ≡ m (rhs + 1 + j))
    → (j : ℕ) → j < suc i
    → m (lhs + j) ≡ m (rhs + j)
same_from m lhs rhs i first more zero h =
    let l : lhs + 0 ≡ lhs = omega arith in let r : rhs + 0 ≡ rhs = omega arith in rw (l, r) first
same_from m lhs rhs i first more (suc j) h =
    let l : lhs + suc j ≡ lhs + 1 + j = omega arith in
    let r : rhs + suc j ≡ rhs + 1 + j = omega arith in rw (l, r) (more j (omega arith))

memcmp_loop-more :
    (count fuel : ℕ) (m : Memory) (lhs rhs : ℕ)
    → suc (suc count) < word
    → (m lhs == m rhs) ≡ true
    → memcmp_loop (suc fuel) m lhs rhs (suc (suc count))
      ≡ memcmp_loop fuel m (lhs + 1) (rhs + 1) (suc count)
unfolding memcmp_loop
memcmp_loop-more count fuel m lhs rhs small on =
    let left : (suc (suc count) + word - 1) % word ≡ suc count = omega arith in
    let more : ltb 0 (suc count) ≡ true = ground arith in rw (on, left, more) refl

memcmp_loop-place :
    (count fuel : ℕ) (m : Memory) (lhs rhs : ℕ)
    → suc count < word
    → count < fuel
    → (i : ℕ) × (i ≤ count)
      × ((j : ℕ) → j < i → m (lhs + j) ≡ m (rhs + j))
      × (memcmp_loop fuel m lhs rhs (suc count) ≡ ok (sign_of (m (lhs + i)) (m (rhs + i))))
      × ((i ≡ count) ⊎ (m (lhs + i) ≢ m (rhs + i)))
unfolding memcmp_loop
memcmp_loop-place count zero m lhs rhs small enough = absurd (omega arith)
memcmp_loop-place zero (suc fuel) m lhs rhs small enough =
    let left : (1 + word - 1) % word ≡ 0 = omega arith in
    let l : lhs + 0 ≡ lhs = omega arith in
    let r : rhs + 0 ≡ rhs = omega arith in
    (
      0,
      omega arith,
      λ j h. absurd (omega arith),
      rw (l, r)
          (elim (Bool-cases (m lhs == m rhs)) [
            | inl same ↦ rw same refl
            | inr other ↦ rw other refl
          ]),
      inl refl,
    )
memcmp_loop-place (suc count) (suc fuel) m lhs rhs small enough =
    let left : (suc (suc count) + word - 1) % word ≡ suc count = omega arith in
    elim (Bool-cases (m lhs == m rhs)) [
      | inr stop ↦
          let l : lhs + 0 ≡ lhs = omega arith in
          let r : rhs + 0 ≡ rhs = omega arith in
          (
            0,
            omega arith,
            λ j h. absurd (omega arith),
            rw (l, r, stop) refl,
            inr (rw (l, r) (λ e. absurd (ground arith))),
          )
      | inl on ↦
          let (i, low, same, value, last) =
            memcmp_loop-place count fuel m (lhs + 1) (rhs + 1) (omega arith) (omega arith) in
          let l : lhs + suc i ≡ lhs + 1 + i = omega arith in
          let r : rhs + suc i ≡ rhs + 1 + i = omega arith in
          (
            suc i,
            omega arith,
            same_from m lhs rhs i ((==_iff _ _).0 on) same,
            memcmp_loop-more count fuel m lhs rhs small on ∙ rw (l, r) value,
            elim last [ inl e ↦ inl (ap suc e) | inr ne ↦ inr (rw (l, r) ne) ],
          )
    ]

-- For a `count` of 1 at least `memcmp` ends within `count` rounds. It compares the bytes at some place
-- `i` before which the buffers agree: the first at which they differ, or the last of all.
pub memcmp_lem :
    (count fuel : ℕ) (m : Memory) (lhs rhs : ℕ)
    → 0 < count
    → count < word
    → count ≤ fuel
    → (i : ℕ) × (i < count)
      × ((j : ℕ) → j < i → m (lhs + j) ≡ m (rhs + j))
      × (memcmp fuel m lhs rhs count ≡ ok (sign_of (m (lhs + i)) (m (rhs + i))))
      × ((i + 1 ≡ count) ⊎ (m (lhs + i) ≢ m (rhs + i)))
unfolding memcmp
memcmp_lem zero fuel m lhs rhs some_byte small enough = absurd (omega arith)
memcmp_lem (suc count) fuel m lhs rhs some_byte small enough =
    let (i, low, same, value, last) = memcmp_loop-place count fuel m lhs rhs small (omega arith) in
    (i, omega arith, same, value, elim last [ inl e ↦ inl (omega arith) | inr ne ↦ inr ne ])
