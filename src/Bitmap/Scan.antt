-- ===== src/Bitmap/Scan.antt =====
-- `bitmap_insert_nbits` finds the first run of `n` free bits and sets it.
use txos.Base.{
  ℕ, zero, suc, ◌+◌, ◌-◌, ◌%◌, ◌≤◌, ◌<◌, ◌≡◌, refl, ap, Bool, true, false, not, ◌&&◌, ok, arith,
  ◌==◌, if◌then◌else◌, Bool-cases, inl, inr, Option, some, none,
}
use txos.Stdlib.{word}
use txos.Bitmap.{Bitmap, eof, in_range, bitmap_contains, scan}
use txos.Bitmap.Valid.{IsValid, used, bitmap_contains-used}

-- whether the `n` bits from `a` on are free
abbrev pub free_run : Bitmap → ℕ → ℕ → Bool
free_run map a zero = true
free_run map a (suc n) = not (used map a) && free_run map (a + 1) n

-- The plain search: the first of `starts` places from `a` on where `n` free bits begin.
pub first_fit : (starts : ℕ) → Bitmap → (n a : ℕ) → Option ℕ
first_fit zero map n a = none
first_fit (suc starts) map n a =
    let rest = first_fit starts map n (a + 1) in if free_run map a n then some a else rest

free_run-snoc :
    (map : Bitmap) (a c : ℕ)
    → free_run map a c ≡ true
    → used map (a + c) ≡ false
    → free_run map a (suc c) ≡ true
free_run-snoc map a zero h e =
    let here : a + 0 ≡ a = omega arith in ground (arith, ap (used map) here)
free_run-snoc map a (suc c) h e =
    let here : a + suc c ≡ a + 1 + c = omega arith in
    ground (arith, ap (used map) here, free_run-snoc map (a + 1) c)

pub free_run-used :
    (map : Bitmap) (a n p : ℕ) → used map p ≡ true → a ≤ p → p < a + n → free_run map a n ≡ false
free_run-used map a zero p u h k = absurd (omega arith)
free_run-used map a (suc n) p u h k = elim (Bool-cases (a == p)) [
  | inl e ↦ let here : a ≡ p = ground arith in ground (arith, ap (used map) here)
  | inr ne ↦ ground (arith, free_run-used map (a + 1) n p u)
]

-- No run begins between `a` and a used bit `a + d` that it would reach.
first_fit-skip :
    (starts : ℕ) (map : Bitmap) (n a d : ℕ)
    → used map (a + d) ≡ true
    → d < n
    → first_fit starts map n a ≡ first_fit (starts - (d + 1)) map n (a + d + 1)
unfolding first_fit
first_fit-skip zero map n a d u h = let e : 0 - (d + 1) ≡ 0 = omega arith in rw e
first_fit-skip (suc starts) map n a zero u h =
    let here : a + 0 ≡ a = omega arith in
    let left : suc starts - (0 + 1) ≡ starts = omega arith in
    rw (left, here, free_run-used map a n (a + 0) u (omega arith) (omega arith))
first_fit-skip (suc starts) map n a (suc d) u h =
    let next : a + suc d ≡ a + 1 + d = omega arith in
    let left : suc starts - (suc d + 1) ≡ starts - (d + 1) = omega arith in
    let u' : used map (a + 1 + d) ≡ true = rw (← next) u in
    rw (free_run-used map a n (a + suc d) u (omega arith) (omega arith), left, next)
      (first_fit-skip starts map n (a + 1) d u' (omega arith))

abbrev pub answer : Option ℕ → ℕ
answer none = eof
answer (some a) = a

-- The loop, with the last `c` bits before `p` free and `k` bits still to look at.
pub scan-first_fit :
    (k : ℕ) {map : Bitmap} (n a c p : ℕ)
    → IsValid map
    → a + c ≡ p
    → p + k ≡ map.length
    → map.offset ≤ a
    → free_run map a c ≡ true
    → c < n
    → scan k map n p c ≡ ok (answer (first_fit (c + k + 1 - n) map n a))
unfolding scan first_fit
scan-first_fit zero {map} n a c p v e l o f h =
    let left : c + 0 + 1 - n ≡ 0 = omega arith in rw left
scan-first_fit (suc k) {map} n a c p v e l o f h =
    let next : (p + 1) % word ≡ p + 1 = omega (arith, v.small) in
    let inside : in_range map p ≡ true = ground arith in
    let reads : bitmap_contains map p ≡ ok (used map p) = rw (bitmap_contains-used p v, inside) in
    elim (Bool-cases (used map p)) [
      | inl taken ↦
          let taken' : used map (a + c) ≡ true = rw e taken in
          let positive : (0 == n) ≡ false = ground arith in
          let left : c + suc k + 1 - n - (c + 1) ≡ 0 + k + 1 - n = omega arith in
          let there : a + c + 1 ≡ p + 1 = omega arith in
          rw
            (
              reads,
              taken,
              next,
              positive,
              first_fit-skip (c + suc k + 1 - n) map n a c taken' h,
              left,
              there,
            )
            (scan-first_fit k n (p + 1) 0 (p + 1) v (omega arith) (omega arith) (omega arith) refl
              (omega arith))
      | inr free ↦
          let free' : used map (a + c) ≡ false = rw e free in
          let longer = free_run-snoc map a c f free' in
          elim (Bool-cases (c + 1 == n)) [
            | inl full ↦
                let n-is : n ≡ suc c = ground arith in
                let left : c + suc k + 1 - n ≡ suc k = omega arith in
                let start : p + 1 - (c + 1) ≡ a = omega arith in
                let fits : free_run map a n ≡ true = rw n-is longer in
                rw (reads, free, next, full, left, start, fits)
            | inr more ↦
                let left : c + suc k + 1 - n ≡ c + 1 + k + 1 - n = omega arith in
                let longer' : free_run map a (c + 1) ≡ true =
                  (let s : c + 1 ≡ suc c = omega arith in rw s longer) in
                rw (reads, free, next, more, left)
                  (scan-first_fit k n a (c + 1) (p + 1) v (omega arith) (omega arith) o longer'
                    (ground arith))
          ]
    ]

-- The place that the plain search finds begins a free run, and lies among the places tried.
pub first_fit-some :
    (starts : ℕ) (map : Bitmap) (n a s : ℕ)
    → first_fit starts map n a ≡ some s
    → (free_run map s n ≡ true) × (a ≤ s) × (s < a + starts)
unfolding first_fit
first_fit-some zero map n a s h = cc
first_fit-some (suc starts) map n a s h = elim (Bool-cases (free_run map a n)) [
  | inl free ↦ ground (arith, free, h)
  | inr taken ↦ ground (arith, taken, h, first_fit-some starts map n (a + 1) s)
]

-- The search fails at every place that it passes by.
pub first_fit-none :
    (starts : ℕ) (map : Bitmap) (n a b : ℕ)
    → first_fit starts map n a ≡ none
    → a ≤ b
    → b < a + starts
    → free_run map b n ≡ false
unfolding first_fit
first_fit-none zero map n a b h low high = absurd (omega arith)
first_fit-none (suc starts) map n a b h low high = elim (Bool-cases (free_run map a n)) [
  | inl free ↦ ground (arith, free, h)
  | inr taken ↦ elim (Bool-cases (a == b)) [
    | inl e ↦ let here : a ≡ b = ground arith in rw (← here) taken
    | inr ne ↦ ground (arith, taken, h, first_fit-none starts map n (a + 1) b)
  ]
]
