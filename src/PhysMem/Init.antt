-- ===== src/PhysMem/Init.antt =====
-- `memory_init` and the page counts of `kernel_map_init` establish and keep the invariant.
use txos.Base.{
  ℕ, zero, suc, ◌+◌, ◌-◌, ◌*◌, ◌/◌, ◌%◌, ◌^◌, ◌≤◌, ◌<◌, ◌≡◌, refl, ap, ◌∙◌, true, ◌&&◌, List, [],
  ◌∷◌, ok, arith, get_or, get_elem?-eq-get_or, set, length, length-set, length-replicate, replicate,
  get_or-set_self, get_or-set_ne, get_or-replicate, AllBelow, AllBelow-set, AllBelow-replicate,
  ◌==◌, ltb, leb, if◌then◌else◌,
}
use txos.Stdlib.{word, div_round_up}
use txos.PhysMem.{
  MemoryManager, Zone, page_size, page_idx, memory_alloc_base, kernel_space_size, pick_zone,
  hold_pages, memory_map_init, memory_init, kernel_map_init, claim_pages,
}
use txos.PhysMem.Count.{
  is_free, frees, frees-set, frees-set_beyond, frees-le, frees-replicate, frees-suc,
}
use txos.PhysMem.Valid.{IsValid, refs}

pick_zone-lt :
    (zones : List Zone) (base size : ℕ)
    → base < word
    → size < word
    → ((pick_zone zones base size).0 < word) × ((pick_zone zones base size).1 < word)
unfolding pick_zone
pick_zone-lt [] base size b s = (b, s)
pick_zone-lt (z ∷ zones) base size b s = pick_zone-lt zones _ _ (ground arith) (ground arith)

-- what the loop that holds the first pages leaves of a map of zeros
record Held (map : List ℕ) (left i : ℕ) (map' : List ℕ) : Type 0 where
  same_length : length map' ≡ length map
  none_free : frees (i + left) map' ≡ frees i map
  fewer :
      (n : ℕ)
      → frees n map' + (if leb (i + left) n then left else 0)
        ≡ (if leb (i + left) n then frees n map else frees n map')
  bytes : AllBelow 256 map'

hold_pages-Held :
    (left : ℕ) (map : List ℕ) (i : ℕ)
    → i + left ≤ length map
    → AllBelow 256 map
    → ((j : ℕ) → (if leb i j then get_or map j 0 else 0) ≡ 0)
    → (map' : List ℕ) × (hold_pages left map i ≡ ok map') × Held map left i map'
unfolding hold_pages
hold_pages-Held zero map i l b z =
    let same : i + 0 ≡ i = omega arith in
    (
      map,
      refl,
      record {
        same_length = refl;
        none_free = ap (λ k. frees k map) same;
        fewer = λ n. ground arith;
        bytes = b;
      },
    )
hold_pages-Held (suc left) map i l b z =
    let map₁ = set map i 1 in
    let here : get_or map i 0 ≡ 0 = ground (arith, z i) in
    let l' : i + 1 + left ≤ length map₁ = omega (arith, length-set map i 1) in
    let z' : (j : ℕ) → (if leb (i + 1) j then get_or map₁ j 0 else 0) ≡ 0 =
      (λ j. ground (arith, z j, get_or-set_ne map i j 1 0)) in
    let (map', done, h) =
      hold_pages-Held left map₁ (i + 1) l' (AllBelow-set 256 map i 1 b (omega arith)) z' in
    let reach : i + suc left ≡ i + 1 + left = omega arith in
    let next : frees (i + 1) map₁ ≡ frees i map₁ + is_free (get_or map₁ i 0) =
      ap (λ k. frees k map₁) {x = i + 1} {y = suc i} (omega arith)
      ∙ frees-suc i map₁ (omega (arith, length-set map i 1)) in
    (
      map',
      rw (get_elem?-eq-get_or map i 0 (omega arith)) done,
      record {
        same_length = h.same_length ∙ length-set map i 1;
        none_free =
            rw
              (
                reach,
                h.none_free,
                next,
                frees-set_beyond i map i 1 (omega arith),
                get_or-set_self map i 1 0 (omega arith),
              )
              (omega arith);
        fewer = λ n. ground (arith, h.fewer n, here, frees-set n map i 1);
        bytes = h.bytes;
      },
    )

div_round_up-page :
    (total : ℕ) → total < 2 ^ 20 → div_round_up total page_size ≡ ok ((total + 4095) / 4096)
unfolding div_round_up
div_round_up-page total h =
    let plain : (total + page_size + word - 1) % word ≡ total + 4095 = omega arith in rw plain

-- the manager that `memory_init` leaves, from the zone and the map
abbrev initial : (size pages : ℕ) → List ℕ → MemoryManager
initial size pages map = record {
  alloc_base = memory_alloc_base;
  alloc_size = size;
  free_pages = page_idx size - pages;
  total_pages = page_idx size + 256;
  start_page_idx = 256 + pages;
  memory_map = map;
  memory_map_pages = pages;
  memory_size = (page_idx size + 256) * page_size;
}

initial-IsValid :
    (size : ℕ) (map : List ℕ)
    → let total = page_idx size + 256 in
      let pages = (total + 4095) / 4096 in
      4096 ≤ total
      → total < 2 ^ 20
      → Held (replicate (pages * page_size) 0) (256 + pages) 0 map
      → IsValid (initial size pages map)
initial-IsValid size map big small h =
    let total = page_idx size + 256 in
    let pages = (total + 4095) / 4096 in
    let cells = length-replicate {A = ℕ} (pages * page_size) 0 in
    let all = frees-replicate total (pages * page_size) (omega arith) in
    record {
      cells = omega (arith, h.same_length, cells);
      order = omega arith;
      reserved = omega arith;
      small = small;
      held = (let same : 256 + pages ≡ 0 + (256 + pages) = omega arith in rw same h.none_free);
      counted = ground (arith, h.fewer total, all);
      bytes = h.bytes;
    }

memory_init-at :
    (zones : List Zone) (size : ℕ) (map : List ℕ)
    → let total = page_idx size + 256 in
      let pages = (total + 4095) / 4096 in
      pick_zone zones 0 0 ≡ (memory_alloc_base, size)
      → total < 2 ^ 20
      → kernel_space_size ≤ total * page_size % word
      → hold_pages (256 + pages) (replicate (pages * page_size) 0) 0 ≡ ok map
      → memory_init zones ≡ ok (initial size pages map)
unfolding memory_init memory_map_init
memory_init-at zones size map picked small enough done =
    let total = page_idx size + 256 in
    let pages = (total + 4095) / 4096 in
    let total-is : total % word ≡ total = omega arith in
    let bytes-is : total * page_size % word ≡ total * page_size = omega arith in
    let start-is : (256 + pages) % word ≡ 256 + pages = omega arith in
    let free-is : (page_idx size + word - pages) % word ≡ page_idx size - pages = omega arith in
    let fits : leb kernel_space_size (total * page_size) ≡ true =
      ground (arith, enough, bytes-is) in
    rw (picked, total-is, bytes-is, fits, div_round_up-page total small, start-is, done, free-is)

memory_init-zone :
    (zones : List Zone) (size : ℕ)
    → pick_zone zones 0 0 ≡ (memory_alloc_base, size)
    → size < word
    → kernel_space_size ≤ (page_idx size + 256) * page_size % word
    → (mm : MemoryManager) × (memory_init zones ≡ ok mm)
      × IsValid mm
      × (mm.total_pages ≡ page_idx size + 256)
memory_init-zone zones size picked s enough =
    let pages = (page_idx size + 256 + 4095) / 4096 in
    let zeros = replicate {A = ℕ} (pages * page_size) 0 in
    let small : page_idx size + 256 < 2 ^ 20 = omega arith in
    let (map, done, h) =
      hold_pages-Held (256 + pages) zeros 0
        (omega (arith, length-replicate {A = ℕ} (pages * page_size) 0))
        (AllBelow-replicate 256 (pages * page_size) 0 (omega arith))
        (λ j. ground (arith, get_or-replicate {A = ℕ} (pages * page_size) j 0)) in
    (
      initial size pages map,
      memory_init-at zones size map picked small enough done,
      initial-IsValid size map (omega arith) small h,
      refl,
    )

-- Where the zone picked by `memory_init` begins at 1M and gives the 16M of the kernel, `memory_init` ends
-- with a valid manager of all its pages; the size of the memory cannot wrap.
pub memory_init_lem :
    (zones : List Zone)
    → let (base, size) = pick_zone zones 0 0 in
      base ≡ memory_alloc_base
      → kernel_space_size ≤ (page_idx size + 256) * page_size % word
      → (mm : MemoryManager) × (memory_init zones ≡ ok mm)
        × IsValid mm
        × (mm.total_pages ≡ page_idx size + 256)
memory_init_lem zones first enough =
    let (base, size) = pick_zone zones 0 0 in
    memory_init-zone zones size (λ i. (first i, size))
      (pick_zone-lt zones 0 0 (omega arith) (omega arith)).1 enough

-- one step of the claim: page `i` is taken, whatever it was
abbrev claimed : MemoryManager → ℕ → MemoryManager
claimed mm i = record mm {
  memory_map = set mm.memory_map i 1;
  free_pages = if refs mm i == 0 then (mm.free_pages + word - 1) % word else mm.free_pages;
}

claimed-IsValid :
    {mm : MemoryManager} (i : ℕ) → IsValid mm → i < mm.total_pages → IsValid (claimed mm i)
claimed-IsValid {mm} i v h =
    let whole = frees-set mm.total_pages mm.memory_map i 1 h (omega (arith, v.cells)) in
    let bound = frees-le mm.total_pages mm.memory_map in
    record {
      cells = omega (arith, v.cells, length-set mm.memory_map i 1);
      order = v.order;
      reserved = v.reserved;
      small = v.small;
      held = ground (
        arith,
        v.held,
        v.cells,
        frees-set mm.start_page_idx mm.memory_map i 1,
        frees-set_beyond mm.start_page_idx mm.memory_map i 1,
      );
      counted = ground (arith, v.counted, v.small, whole, bound);
      bytes = AllBelow-set 256 mm.memory_map i 1 v.bytes (omega arith);
    }

-- The pages that a claim has taken have one reference, the others keep theirs.
record Claimed (mm : MemoryManager) (left index : ℕ) (mm' : MemoryManager) : Type 0 where
  valid : IsValid mm'
  same_total : mm'.total_pages ≡ mm.total_pages
  counts : (i : ℕ) → refs mm' i ≡ (if leb index i && ltb i (index + left) then 1 else refs mm i)

claim_pages-Claimed :
    (left : ℕ) {mm : MemoryManager} (index : ℕ)
    → IsValid mm
    → index + left ≤ mm.total_pages
    → (mm' : MemoryManager) × (claim_pages left mm index ≡ ok mm') × Claimed mm left index mm'
unfolding claim_pages
claim_pages-Claimed zero {mm} index v l =
    (mm, refl, record { valid = v; same_total = refl; counts = λ i. ground arith })
claim_pages-Claimed (suc left) {mm} index v l =
    let (mm', done, c) =
      claim_pages-Claimed left (index + 1) (claimed-IsValid index v (omega arith)) (omega arith) in
    (
      mm',
      rw (get_elem?-eq-get_or mm.memory_map index 0 (omega (arith, v.cells))) done,
      record {
        valid = c.valid;
        same_total = c.same_total;
        counts = λ i. ground (
          arith,
          c.counts i,
          v.cells,
          get_or-set_self mm.memory_map index 1 0,
          get_or-set_ne mm.memory_map index i 1 0,
        );
      },
    )

-- In a memory of 16M at least `kernel_map_init` ends, keeps the invariant, leaves the pages 1 to
-- 4095 with one reference each, and every other page as it was.
pub kernel_map_init_lem :
    {mm : MemoryManager}
    → IsValid mm
    → 4096 ≤ mm.total_pages
    → (mm' : MemoryManager) × (kernel_map_init mm ≡ ok mm')
      × IsValid mm'
      × ((i : ℕ) → refs mm' i ≡ (if leb 1 i && ltb i 4096 then 1 else refs mm i))
unfolding kernel_map_init
kernel_map_init_lem {mm} v big =
    let (mm', done, c) = claim_pages-Claimed (4 * 1024 - 1) 1 v (omega arith) in
    (mm', done, c.valid, c.counts)
