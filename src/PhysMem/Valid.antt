-- ===== src/PhysMem/Valid.antt =====
-- The invariant of the page manager, and what `alloc_page` and `free_page` do under it.
use txos.Base.{
  ℕ, ◌+◌, ◌-◌, ◌^◌, ◌≤◌, ◌<◌, ◌≡◌, ap, ◌∙◌, false, ◌&&◌, ok, halt, arith, get_or,
  get_elem?-eq-get_or, set, length, length-set, get_or-set_self, set-set_back, AllBelow,
  AllBelow-set, AllBelow-get_or, ◌==◌, ltb, leb, if◌then◌else◌,
}
use txos.PhysMem.{MemoryManager, page_idx, page_addr, alloc_page, free_page, find_free}
use txos.PhysMem.Count.{
  is_free, frees, frees-set, frees-set_beyond, frees-add_le, FirstFree, find_free-FirstFree,
  find_free-halt,
}

-- `free_pages` counts the pages without a reference; those below `start_page_idx` have one; the
-- counts are bytes, and every page has a 32-bit address.
pub record IsValid (mm : MemoryManager) : Type 0 where
  pub cells : mm.total_pages ≤ length mm.memory_map
  pub order : mm.start_page_idx ≤ mm.total_pages
  pub reserved : 0 < mm.start_page_idx
  pub small : mm.total_pages < 2 ^ 20
  pub held : frees mm.start_page_idx mm.memory_map ≡ 0
  pub counted : mm.free_pages ≡ frees mm.total_pages mm.memory_map
  pub bytes : AllBelow 256 mm.memory_map

-- the reference count of a page
abbrev pub refs : MemoryManager → ℕ → ℕ
refs mm i = get_or mm.memory_map i 0

-- The manager with another count for one page from `start_page_idx` on.
abbrev pub recounted : MemoryManager → (i count : ℕ) → MemoryManager
recounted mm i count = record mm {
  memory_map = set mm.memory_map i count;
  free_pages = mm.free_pages + is_free count - is_free (get_or mm.memory_map i 0);
}

pub recounted-IsValid :
    {mm : MemoryManager} (i count : ℕ)
    → IsValid mm
    → mm.start_page_idx ≤ i
    → i < mm.total_pages
    → count < 256
    → IsValid (recounted mm i count)
recounted-IsValid {mm} i count v low high b = record {
  cells = omega (arith, v.cells, length-set mm.memory_map i count);
  order = v.order;
  reserved = v.reserved;
  small = v.small;
  held = frees-set_beyond mm.start_page_idx mm.memory_map i count low ∙ v.held;
  counted = omega (arith, v.counted, v.cells, frees-set mm.total_pages mm.memory_map i count);
  bytes = AllBelow-set 256 mm.memory_map i count v.bytes b;
}

page_idx-page_addr : (i : ℕ) → i < 2 ^ 20 → page_idx (page_addr i) ≡ i
page_idx-page_addr i h = omega arith

alloc_page-at :
    (mm : MemoryManager) (i : ℕ)
    → find_free (mm.total_pages - mm.start_page_idx) mm.memory_map mm.start_page_idx ≡ ok i
    → 0 < mm.free_pages
    → refs mm i ≡ 0
    → alloc_page mm ≡ ok (page_addr i, recounted mm i 1)
unfolding alloc_page
alloc_page-at mm i found some_left free = rw found (ground arith)

-- With a free page left `alloc_page` ends with the address of the first page that has no reference,
-- gives it one, counts one free page less, and keeps the invariant.
pub alloc_page_lem :
    {mm : MemoryManager}
    → IsValid mm
    → 0 < mm.free_pages
    → (i : ℕ) × (alloc_page mm ≡ ok (page_addr i, recounted mm i 1))
      × FirstFree mm.memory_map mm.start_page_idx (mm.total_pages - mm.start_page_idx) i
      × IsValid (recounted mm i 1)
      × ((recounted mm i 1).free_pages + 1 ≡ mm.free_pages)
      × (page_idx (page_addr i) ≡ i)
unfolding alloc_page
alloc_page_lem {mm} v some_left =
    let reach : mm.start_page_idx + (mm.total_pages - mm.start_page_idx) ≡ mm.total_pages =
      omega (arith, v.order) in
    let more : frees mm.start_page_idx mm.memory_map
        < frees (mm.start_page_idx + (mm.total_pages - mm.start_page_idx)) mm.memory_map =
      rw reach (omega (arith, v.held, v.counted)) in
    let (i, found, f) =
      find_free-FirstFree (mm.total_pages - mm.start_page_idx) mm.memory_map mm.start_page_idx
        (omega (arith, v.order, v.cells)) more in
    let was : is_free (refs mm i) ≡ 1 = ap is_free f.free in
    (
      i,
      alloc_page-at mm i found some_left f.free,
      f,
      recounted-IsValid i 1 v f.low (omega (arith, v.order, f.high)) (omega arith),
      omega (arith, was),
      omega (arith, v.small, v.order, f.high),
    )

-- With no free page left `alloc_page` panics.
pub alloc_page-halt : {mm : MemoryManager} → IsValid mm → mm.free_pages ≡ 0 → alloc_page mm ≡ halt
unfolding alloc_page
alloc_page-halt {mm} v none_left =
    let reach : mm.start_page_idx + (mm.total_pages - mm.start_page_idx) ≡ mm.total_pages =
      omega (arith, v.order) in
    rw (
      find_free-halt (mm.total_pages - mm.start_page_idx) mm.memory_map mm.start_page_idx
        (omega (arith, v.cells, v.order)) (rw reach (omega (arith, v.held, v.counted))))

-- The free pages are at most the pages from `start_page_idx` on.
pub free_pages-le :
    {mm : MemoryManager} → IsValid mm → mm.free_pages + mm.start_page_idx ≤ mm.total_pages
free_pages-le {mm} v =
    let reach : mm.start_page_idx + (mm.total_pages - mm.start_page_idx) ≡ mm.total_pages =
      omega (arith, v.order) in
    let all : frees mm.total_pages mm.memory_map
        ≤ frees mm.start_page_idx mm.memory_map + (mm.total_pages - mm.start_page_idx) =
      rw reach at
        (frees-add_le mm.start_page_idx (mm.total_pages - mm.start_page_idx) mm.memory_map) in
    omega (arith, v.held, v.counted, v.order)

free_page-at :
    {mm : MemoryManager} (i : ℕ)
    → IsValid mm
    → IsValid (recounted mm i (refs mm i - 1))
    → mm.start_page_idx ≤ i
    → i < mm.total_pages
    → 0 < refs mm i
    → free_page mm (page_addr i) ≡ ok (recounted mm i (refs mm i - 1))
unfolding free_page
free_page-at {mm} i v v' low high held = rw (page_idx-page_addr i (omega (arith, v.small))) (
    ground (
      arith,
      v.cells,
      v.small,
      v.reserved,
      free_pages-le v',
      get_elem?-eq-get_or mm.memory_map i 0,
    ))

-- Of a page that has references `free_page` drops one; the page counts as free when that was the
-- last, and the assertions of the code hold.
pub free_page_lem :
    {mm : MemoryManager} (i : ℕ)
    → IsValid mm
    → mm.start_page_idx ≤ i
    → i < mm.total_pages
    → 0 < refs mm i
    → (free_page mm (page_addr i) ≡ ok (recounted mm i (refs mm i - 1)))
      × IsValid (recounted mm i (refs mm i - 1))
      × ((recounted mm i (refs mm i - 1)).free_pages
          ≡ mm.free_pages + (if refs mm i == 1 then 1 else 0))
free_page_lem {mm} i v low high held =
    let byte = AllBelow-get_or 256 mm.memory_map i 0 v.bytes (omega arith) in
    let v' = recounted-IsValid i (refs mm i - 1) v low high (omega arith) in
    (free_page-at i v v' low high held, v', ground arith)

-- An assertion of `free_page` refuses a page outside the range and one without a reference.
pub free_page-halt :
    {mm : MemoryManager} (addr : ℕ)
    → IsValid mm
    → (leb mm.start_page_idx (page_idx addr)
        && (ltb (page_idx addr) mm.total_pages && ltb 0 (refs mm (page_idx addr))))
      ≡ false
    → free_page mm addr ≡ halt
unfolding free_page
free_page-halt {mm} addr v bad =
    ground (arith, v.cells, get_elem?-eq-get_or mm.memory_map (page_idx addr) 0)

-- A page given its first reference and freed.
pub free_page-recounted :
    {mm : MemoryManager} (i : ℕ)
    → IsValid mm
    → 0 < mm.free_pages
    → mm.start_page_idx ≤ i
    → i < mm.total_pages
    → refs mm i ≡ 0
    → free_page (recounted mm i 1) (page_addr i) ≡ ok mm
free_page-recounted {mm} i v some_left low high free =
    let taken : refs (recounted mm i 1) i ≡ 1 =
      get_or-set_self mm.memory_map i 1 0 (omega (arith, v.cells, high)) in
    let (freed, _, _) =
      free_page_lem i (recounted-IsValid i 1 v low high (omega arith)) low high
        (omega (arith, taken)) in
    freed ∙ ap ok (restored taken)
  where
    restored :
        refs (recounted mm i 1) i ≡ 1
        → recounted (recounted mm i 1) i (refs (recounted mm i 1) i - 1) ≡ mm
    restored taken = rw taken (ground (arith, some_left, free, set-set_back mm.memory_map i 1 0))

-- What `alloc_page` takes `free_page` gives back: the manager is as before.
pub free_page-alloc_page :
    {mm : MemoryManager}
    → IsValid mm
    → 0 < mm.free_pages
    → (addr : ℕ) × (mm' : MemoryManager) × (alloc_page mm ≡ ok (addr, mm'))
      × (free_page mm' addr ≡ ok mm)
free_page-alloc_page {mm} v some_left =
    let (i, done, f, _, fewer, _) = alloc_page_lem v some_left in
    (
      page_addr i,
      recounted mm i 1,
      done,
      free_page-recounted i v some_left f.low (omega (arith, v.order, f.high)) f.free,
    )
