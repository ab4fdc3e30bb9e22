-- ===== src/Paging/Kernel.antt =====
-- Kernel pages handed out and taken back.
use txos.Base.{
  ℕ, zero, suc, ◌+◌, ◌-◌, ◌*◌, ◌^◌, ◌≤◌, ◌<◌, ◌≡◌, refl, sym, ◌∙◌, arith, true, false, not, ◌&&◌,
  ◌||◌, ok, ◌==◌, ltb, leb, Bool-cases, inl, inr, some,
}
use txos.Bitmap.{Bitmap, eof, in_range, bitmap_remove, bitmap_insert_nbits}
use txos.Bitmap.Valid.{IsValid, used, bitmap_contains-used}
use txos.Bitmap.Update.{updated, updated-IsValid, used-updated, bitmap_set-ok}
use txos.Bitmap.Scan.{free_run, first_fit, first_fit-some, first_fit-none, free_run-used}
use txos.Bitmap.Insert.{Marked, in_run, bitmap_insert_nbits_lem, first_fit-cases}
use txos.PhysMem.{page_idx, page_addr}
use txos.Paging.{kalloc_page, kfree_page, reset_pages}

bitmap_remove-ok :
    {map : Bitmap} (p : ℕ)
    → IsValid map
    → in_range map p ≡ true
    → bitmap_remove map p ≡ ok (updated map p false)
unfolding bitmap_remove
bitmap_remove-ok {map} p v inside = bitmap_set-ok p v inside false

-- `reset_pages` over set bits of the map succeeds and clears just those.
reset_pages_lem :
    (n : ℕ) {map : Bitmap} (p : ℕ)
    → IsValid map
    → map.offset ≤ p
    → p + n ≤ map.length
    → ((j : ℕ) → p ≤ j → j < p + n → used map j ≡ true)
    → (map' : Bitmap) × (reset_pages n map p ≡ ok map')
      × ((j : ℕ) → used map' j ≡ (not (in_run (some p) n j) && used map j))
unfolding reset_pages
reset_pages_lem zero {map} p v low high set = (map, refl, λ j. ground arith)
reset_pages_lem (suc n) {map} p v low high set =
    let inside : in_range map p ≡ true = ground arith in
    let taken : used map p ≡ true = set p (omega arith) (omega arith) in
    let next = updated map p false in
    let others = used-updated p v inside false in
    let (map', done, bits) =
      reset_pages_lem n {map = next} (p + 1) (updated-IsValid p v inside false) (omega arith)
        (omega arith) (λ j a b. others j ∙ ground (arith, set j)) in
    (
      map',
      rw (bitmap_contains-used p v, inside, taken, bitmap_remove-ok p v inside) done,
      λ j. bits j ∙ rw (others j) (ground arith),
    )

free_run-free :
    (map : Bitmap) (s n j : ℕ) → free_run map s n ≡ true → s ≤ j → j < s + n → used map j ≡ false
free_run-free map s n j free low high = elim (Bool-cases (used map j)) [
  | inr unused ↦ unused
  | inl taken ↦ absurd (ground (arith, free, free_run-used map s n j taken low high))
]

kfree_page-reset_pages :
    (map : Bitmap) (s count : ℕ)
    → 0 < count
    → s < 2 ^ 20
    → kfree_page map (page_addr s) count ≡ reset_pages count map s
unfolding kfree_page
kfree_page-reset_pages map s count pos small =
    let positive : ltb 0 count ≡ true = ground arith in
    let back : page_idx (page_addr s) ≡ s = omega arith in rw (positive, back) refl

-- The run of pages that `kalloc_page` hands out.
pub kalloc_page_lem :
    {map : Bitmap} (count a : ℕ)
    → IsValid map
    → map.length ≤ 2 ^ 20
    → 0 < count
    → map.offset ≤ a
    → a + count ≤ map.length
    → free_run map a count ≡ true
    → (s : ℕ) × (map₁ : Bitmap) × (kalloc_page map count ≡ ok (page_addr s, map₁))
      × (free_run map s count ≡ true)
      × (map.offset ≤ s)
      × (s + count ≤ map.length)
      × Marked map (some s) count map₁
unfolding kalloc_page
kalloc_page_lem {map} count a v small pos low high free =
    let starts = map.size * 8 + 1 - count in
    let (map₁, done, m) = bitmap_insert_nbits_lem count v pos in
    let positive : ltb 0 count ≡ true = ground arith in
    elim (first_fit-cases (first_fit starts map count map.offset)) [
      | inl nothing ↦ absurd (
          ground (
            arith,
            free,
            first_fit-none starts map count map.offset a nothing low (omega (arith, v.span)),
          ))
      | inr (s, found) ↦
          let (run, from, reach) = first_fit-some starts map count map.offset s found in
          let marked : Marked map (some s) count map₁ = rw found at m in
          let named : (s == eof) ≡ false = ground (arith, v.span) in
          let done' : bitmap_insert_nbits map count ≡ ok (s, map₁) = rw found at done in
          (s, map₁, rw (positive, done', named) refl, run, from, omega (arith, v.span), marked)
    ]

-- Where the bitmap of the kernel's pages has `count` free ones in a row, `kalloc_page` hands out such a
-- run, and `kfree_page` of it succeeds and leaves the set of pages in use as it was.
pub kfree_page-kalloc_page :
    {map : Bitmap} (count a : ℕ)
    → IsValid map
    → map.length ≤ 2 ^ 20
    → 0 < count
    → map.offset ≤ a
    → a + count ≤ map.length
    → free_run map a count ≡ true
    → (s : ℕ) × (map₁ map₂ : Bitmap) × (kalloc_page map count ≡ ok (page_addr s, map₁))
      × ((j : ℕ) → used map₁ j ≡ ((leb s j && ltb j (s + count)) || used map j))
      × (free_run map s count ≡ true)
      × (kfree_page map₁ (page_addr s) count ≡ ok map₂)
      × ((j : ℕ) → used map₂ j ≡ used map j)
kfree_page-kalloc_page {map} count a v small pos low high free =
    let (s, map₁, given, run, from, reach, marked) =
      kalloc_page_lem count a v small pos low high free in
    let (map₂, freed, bits) =
      reset_pages_lem count s marked.valid (omega (arith, marked.same_offset))
        (omega (arith, marked.same_length)) (λ j x y. marked.bits j ∙ ground arith) in
    (
      s,
      map₁,
      map₂,
      given,
      marked.bits,
      run,
      kfree_page-reset_pages map₁ s count pos (omega (arith, v.span)) ∙ freed,
      λ j.
          bits j
          ∙ rw (marked.bits j) (elim (Bool-cases (in_run (some s) count j)) [
            | inl inside ↦
                rw inside (sym (free_run-free map s count j run (ground arith) (ground arith)))
            | inr outside ↦ rw outside refl
          ]),
    )
