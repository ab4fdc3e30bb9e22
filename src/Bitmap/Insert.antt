-- ===== src/Bitmap/Insert.antt =====
-- What `bitmap_insert_nbits` returns and which bits it sets.
use txos.Base.{
  ℕ, zero, suc, ◌+◌, ◌-◌, ◌*◌, ◌%◌, ◌≤◌, ◌<◌, ◌≡◌, refl, sym, ◌∙◌, ap, Bool, true, false, ◌&&◌,
  ◌||◌, ok, arith, ltb, leb, ◌==◌, inl, inr, Option, some, none, ◌⊎◌,
}
use txos.Stdlib.{word}
use txos.Bitmap.{Bitmap, eof, in_range, bitmap_insert, scan, insert_run, bitmap_insert_nbits}
use txos.Bitmap.Valid.{IsValid, used}
use txos.Bitmap.Update.{updated, updated-IsValid, used-updated, bitmap_set-ok}
use txos.Bitmap.Scan.{free_run, first_fit, answer, scan-first_fit, first_fit-some, first_fit-none}

-- Whether a bit lies in the run of `n` bits that was found.
abbrev pub in_run : Option ℕ → ℕ → ℕ → Bool
in_run none n j = false
in_run (some start) n j = leb start j && ltb j (start + n)

-- `map'` is the map with the bits of a run set, and the same range.
pub record Marked (map : Bitmap) (run : Option ℕ) (n : ℕ) (map' : Bitmap) : Type 0 where
  pub valid : IsValid map'
  pub same_offset : map'.offset ≡ map.offset
  pub same_length : map'.length ≡ map.length
  pub bits : (j : ℕ) → used map' j ≡ (in_run run n j || used map j)

insert_run-step :
    (n : ℕ) {map : Bitmap} (p : ℕ)
    → IsValid map
    → in_range map p ≡ true
    → insert_run (suc n) map p ≡ insert_run n (updated map p true) (p + 1)
unfolding insert_run bitmap_insert
insert_run-step n {map} p v inside =
    let next : (p + 1) % word ≡ p + 1 = ground (arith, v.small) in
    rw (bitmap_set-ok p v inside true, next)

insert_run-Marked :
    (n : ℕ) {map : Bitmap} (p : ℕ)
    → IsValid map
    → map.offset ≤ p
    → p + n ≤ map.length
    → (map' : Bitmap) × (insert_run n map p ≡ ok map') × Marked map (some p) n map'
unfolding insert_run
insert_run-Marked zero {map} p v o l = (
  map,
  refl,
  record { valid = v; same_offset = refl; same_length = refl; bits = λ j. ground arith },
)
insert_run-Marked (suc n) {map} p v o l =
    let inside : in_range map p ≡ true = ground arith in
    let (map', done, m) =
      insert_run-Marked n (p + 1) (updated-IsValid p v inside true) (omega arith) (omega arith) in
    (
      map',
      insert_run-step n p v inside ∙ done,
      record {
        valid = m.valid;
        same_offset = m.same_offset;
        same_length = m.same_length;
        bits = λ j. ground (arith, m.bits j, used-updated p v inside true j);
      },
    )

pub first_fit-cases : (o : Option ℕ) → (o ≡ none) ⊎ ((s : ℕ) × (o ≡ some s))
first_fit-cases none = inl refl
first_fit-cases (some s) = inr (s, refl)

-- For `n` above 0 `bitmap_insert_nbits` gives what the plain search over all the places of `n` bits
-- gives (EOF where it finds none), and sets exactly the bits of that run.
pub bitmap_insert_nbits_lem :
    {map : Bitmap} (n : ℕ)
    → IsValid map
    → 0 < n
    → let found = first_fit (map.size * 8 + 1 - n) map n map.offset in
      (map' : Bitmap) × (bitmap_insert_nbits map n ≡ ok (answer found, map'))
      × Marked map found n map'
unfolding bitmap_insert_nbits
bitmap_insert_nbits_lem {map} n v pos =
    elim (first_fit-cases (first_fit (map.size * 8 + 1 - n) map n map.offset)) [
      | inl e ↦ (
        map,
        rw (scanned, e),
        record { valid = v; same_offset = refl; same_length = refl; bits = λ j. rw e },
      )
      | inr (s, e) ↦
          let (_, low, high) = first_fit-some (map.size * 8 + 1 - n) map n map.offset s e in
          let (map', done, m) = insert_run-Marked n s v low (omega (arith, v.span)) in
          let found : (s == eof) ≡ false = ground (arith, v.span, v.small) in
          (map', rw (scanned, e, found, done), rw e m)
    ]
  where
    total : map.size * 8 % word ≡ map.size * 8
    total = omega (arith, v.span, v.small)

    plain : 0 + map.size * 8 + 1 - n ≡ map.size * 8 + 1 - n
    plain = omega arith

    scanned :
        scan (map.size * 8 % word) map n map.offset 0
        ≡ ok (answer (first_fit (map.size * 8 + 1 - n) map n map.offset))
    scanned = rw total (
        scan-first_fit (map.size * 8) n map.offset 0 map.offset v (omega arith)
          (omega (arith, v.span)) (omega arith) refl pos
        ∙ ap (λ k. ok (answer (first_fit k map n map.offset))) plain)

-- Where `bitmap_insert_nbits` returns EOF, no `n` free bits in a row begin at any bit of the map.
pub bitmap_insert_nbits-eof :
    {map map' : Bitmap} (n a : ℕ)
    → IsValid map
    → 0 < n
    → bitmap_insert_nbits map n ≡ ok (eof, map')
    → map.offset ≤ a
    → a + n ≤ map.length
    → free_run map a n ≡ false
bitmap_insert_nbits-eof {map} n a v pos e low high =
    let starts = map.size * 8 + 1 - n in
    let (_, done, _) = bitmap_insert_nbits_lem n v pos in
    let same : answer (first_fit starts map n map.offset) ≡ eof = cc (done, e) in
    elim (first_fit-cases (first_fit starts map n map.offset)) [
      | inl nothing ↦ first_fit-none starts map n map.offset a nothing low (omega (arith, v.span))
      | inr (s, found) ↦
          let (_, _, reach) = first_fit-some starts map n map.offset s found in
          let here : s ≡ eof = sym (ap answer found) ∙ same in
          absurd (omega (arith, v.span, v.small))
    ]
