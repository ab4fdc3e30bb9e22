-- ===== src/PhysMem/Count.antt =====
-- The number of free pages, counted in the map of reference counts.
use txos.Base.{
  ℕ, zero, suc, ◌+◌, ◌≤◌, ◌<◌, ◌≡◌, refl, ap, ◌∙◌, false, List, [], ◌∷◌, ok, halt, arith, get_or,
  get_elem?-eq-get_or, set, length, replicate, ◌==◌, if◌then◌else◌, Bool-cases, inl, inr,
}
use txos.PhysMem.{find_free}

abbrev pub is_free : ℕ → ℕ
is_free count = if count == 0 then 1 else 0

-- the free ones among the first `n` pages
abbrev pub frees : ℕ → List ℕ → ℕ
frees zero map = 0
frees (suc n) [] = 0
frees (suc n) (x ∷ map) = is_free x + frees n map

pub frees-suc :
    (n : ℕ) (map : List ℕ)
    → n < length map
    → frees (suc n) map ≡ frees n map + is_free (get_or map n 0)
frees-suc zero [] h = absurd (omega arith)
frees-suc zero (x ∷ map) h = omega arith
frees-suc (suc n) [] h = absurd (omega arith)
frees-suc (suc n) (x ∷ map) h = omega (arith, frees-suc n map (omega arith))

pub frees-set :
    (n : ℕ) (map : List ℕ) (i v : ℕ)
    → i < n
    → i < length map
    → frees n (set map i v) + is_free (get_or map i 0) ≡ frees n map + is_free v
frees-set zero map i v h l = absurd (omega arith)
frees-set (suc n) [] i v h l = absurd (omega arith)
frees-set (suc n) (x ∷ map) zero v h l = omega arith
frees-set (suc n) (x ∷ map) (suc i) v h l =
    omega (arith, frees-set n map i v (omega arith) (omega arith))

pub frees-set_beyond :
    (n : ℕ) (map : List ℕ) (i v : ℕ) → n ≤ i → frees n (set map i v) ≡ frees n map
frees-set_beyond zero map i v h = refl
frees-set_beyond (suc n) [] i v h = refl
frees-set_beyond (suc n) (x ∷ map) zero v h = absurd (omega arith)
frees-set_beyond (suc n) (x ∷ map) (suc i) v h =
    omega (arith, frees-set_beyond n map i v (omega arith))

pub frees-le : (n : ℕ) (map : List ℕ) → frees n map ≤ n
frees-le zero map = omega arith
frees-le (suc n) [] = omega arith
frees-le (suc n) (x ∷ map) = ground (arith, frees-le n map)

pub frees_mono : (n k : ℕ) (map : List ℕ) → frees n map ≤ frees (n + k) map
frees_mono zero k map = omega arith
frees_mono (suc n) k [] = omega arith
frees_mono (suc n) k (x ∷ map) =
    let shift : suc n + k ≡ suc (n + k) = omega arith in
    rw shift (omega (arith, frees_mono n k map))

pub frees-add_le : (n k : ℕ) (map : List ℕ) → frees (n + k) map ≤ frees n map + k
frees-add_le zero k map =
    let plain : 0 + k ≡ k = omega arith in rw plain (omega (arith, frees-le k map))
frees-add_le (suc n) k [] =
    let shift : suc n + k ≡ suc (n + k) = omega arith in rw shift (omega arith)
frees-add_le (suc n) k (x ∷ map) =
    let shift : suc n + k ≡ suc (n + k) = omega arith in
    rw shift (omega (arith, frees-add_le n k map))

pub frees-replicate : (n k : ℕ) → n ≤ k → frees n (replicate k 0) ≡ n
frees-replicate zero k h = refl
frees-replicate (suc n) zero h = absurd (omega arith)
frees-replicate (suc n) (suc k) h = omega (arith, frees-replicate n k (omega arith))

-- What `alloc_page`'s search finds: the first free page, if there is one.
pub record FirstFree (map : List ℕ) (i left j : ℕ) : Type 0 where
  pub low : i ≤ j
  pub high : j < i + left
  pub free : get_or map j 0 ≡ 0
  pub none_before : frees j map ≡ frees i map

pub find_free-FirstFree :
    (left : ℕ) (map : List ℕ) (i : ℕ)
    → i + left ≤ length map
    → frees i map < frees (i + left) map
    → (j : ℕ) × (find_free left map i ≡ ok j) × FirstFree map i left j
unfolding find_free
find_free-FirstFree zero map i l more =
    let same : i + 0 ≡ i = omega arith in absurd (omega (arith, ap (λ k. frees k map) same))
find_free-FirstFree (suc left) map i l more = elim (Bool-cases (get_or map i 0 == 0)) [
  | inl free ↦ (
    i,
    rw (get_elem?-eq-get_or map i 0 (omega arith), free),
    record { low = omega arith; high = omega arith; free = ground arith; none_before = refl },
  )
  | inr taken ↦
      let step : frees (i + 1) map ≡ frees i map = ground (arith, frees-suc i map) in
      let reach : i + suc left ≡ i + 1 + left = omega arith in
      let (j, found, f) =
        find_free-FirstFree left map (i + 1) (omega arith) (rw (step, ← reach) more) in
      (
        j,
        rw (get_elem?-eq-get_or map i 0 (omega arith), taken) found,
        record {
          low = omega (arith, f.low);
          high = omega (arith, f.high);
          free = f.free;
          none_before = f.none_before ∙ step;
        },
      )
]

pub find_free-halt :
    (left : ℕ) (map : List ℕ) (i : ℕ)
    → i + left ≤ length map
    → frees (i + left) map ≡ frees i map
    → find_free left map i ≡ halt
unfolding find_free
find_free-halt zero map i l none_left = refl
find_free-halt (suc left) map i l none_left =
    let reach : i + suc left ≡ i + 1 + left = omega arith in
    let none_left' : frees (i + 1 + left) map ≡ frees i map = rw (← reach) none_left in
    let step = frees-suc i map (omega arith) in
    let step' : frees (suc i) map ≡ frees (i + 1) map =
      ap (λ k. frees k map) {x = suc i} (omega arith) in
    let taken : (get_or map i 0 == 0) ≡ false = ground (arith, frees_mono (i + 1) left map) in
    rw (get_elem?-eq-get_or map i 0 (omega arith), taken)
      (find_free-halt left map (i + 1) (omega arith) (omega (arith, frees_mono (i + 1) left map)))
