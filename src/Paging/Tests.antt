-- ===== src/Paging/Tests.antt =====
-- A shared page at 16M, a page to be linked behind it, and the theorems at them.
use txos.Base.{
  ℕ, ◌+◌, ◌≡◌, ◌≢◌, ◌⊎◌, refl, [], ◌∷◌, arith, Bool, true, false, none, ok, ◌==◌, ◌||◌, ◌&&◌, ltb,
  leb, if◌then◌else◌, test_bit,
}
use txos.Bitmap.{Bitmap}
use txos.Bitmap.Valid
use txos.Bitmap.Valid.{used}
use txos.Bitmap.Scan.{free_run}
use txos.PhysMem.{MemoryManager, page_addr}
use txos.PhysMem.Valid as Manager
use txos.PhysMem.Valid.{refs}
use txos.Paging.{Space, Entry, link_page, unlink_page, kalloc_page, kfree_page}
use txos.Paging.Link.{Unlinked, unlink_page-link_page}
use txos.Paging.Kernel.{kfree_page-kalloc_page}

-- page 2 shared, page 3 free
abbrev manager : MemoryManager
manager = record {
  alloc_base = 0x100000;
  alloc_size = 0x5000;
  free_pages = 1;
  total_pages = 5;
  start_page_idx = 2;
  memory_map = 1 ∷ 1 ∷ 2 ∷ 0 ∷ 1 ∷ [];
  memory_map_pages = 1;
  memory_size = 0x5000;
}

manager-IsValid : Manager.IsValid manager
manager-IsValid = record {
  cells = omega arith;
  order = omega arith;
  reserved = omega arith;
  small = omega arith;
  held = refl;
  counted = refl;
  bytes = omega arith;
}

-- the 16 pages from 4096 on, of which the first is there
abbrev map : Bitmap
map = record { bits = 1 ∷ 0 ∷ []; size = 2; offset = 4096; length = 4112 }

map-IsValid : Valid.IsValid map
map-IsValid = record {
  storage = omega arith;
  bytes = omega arith;
  span = refl;
  small = omega arith;
}

abbrev entry : (present write : Bool) → (index : ℕ) → Entry
entry present write index = record {
  present = present;
  write = write;
  user = true;
  others = 0;
  index = index;
}

-- the tables of the first pages and of those at 16M are pages 1 and 4
abbrev space : Space
space = record {
  mm = manager;
  pde = λ d. if d == 4 then entry true true 4 else entry true true 1;
  tables = λ t x. if (t == 4) && (x == 0) then entry true false 2 else entry false false 0;
  data_of = λ p x. p + x;
  vmap = map;
  brk = 0x1003000;
  first_cached = none;
}

space-Unlinked : Unlinked space 0x1001000
unfolding used test_bit
space-Unlinked = record {
  manager = manager-IsValid;
  map = map-IsValid;
  some_left = omega arith;
  table = refl;
  absent = refl;
  inside = refl;
  unused = refl;
}

unlink_page-link_page_example :
    (i : ℕ) × (s₁ s₂ : Space) × (link_page space 0x1001000 ≡ ok s₁)
    × (refs manager i ≡ 0)
    × (refs s₁.mm i ≡ 1)
    × ((s₁.tables (s₁.pde 4).index 1)
        ≡ record { present = true; write = true; user = true; others = 0; index = i })
    × ((t x : ℕ) → (4 ≢ t) ⊎ (1 ≢ x) → s₁.tables t x ≡ space.tables t x)
    × ((page : ℕ) → used s₁.vmap page ≡ ((4097 == page) || used map page))
    × (unlink_page s₁ 0x1001000 ≡ ok s₂)
    × (s₂.mm ≡ manager)
    × ((s₂.tables (s₂.pde 4).index 1).present ≡ false)
    × ((page : ℕ) → used s₂.vmap page ≡ used map page)
unlink_page-link_page_example = unlink_page-link_page space 0x1001000 space-Unlinked

three_free : free_run map 4097 3 ≡ true
unfolding used test_bit
three_free = refl

kfree_page-kalloc_page_example :
    (s : ℕ) × (map₁ map₂ : Bitmap) × (kalloc_page map 3 ≡ ok (page_addr s, map₁))
    × ((j : ℕ) → used map₁ j ≡ ((leb s j && ltb j (s + 3)) || used map j))
    × (free_run map s 3 ≡ true)
    × (kfree_page map₁ (page_addr s) 3 ≡ ok map₂)
    × ((j : ℕ) → used map₂ j ≡ used map j)
kfree_page-kalloc_page_example =
    kfree_page-kalloc_page 3 4097 map-IsValid (omega arith) (omega arith) (omega arith)
      (omega arith) three_free
