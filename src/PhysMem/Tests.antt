-- ===== src/PhysMem/Tests.antt =====
-- A manager of five pages, the real start-up, and the theorems at them.
use txos.Base.{
  ℕ, ◌+◌, ◌≡◌, refl, List, [], ◌∷◌, ◌++◌, arith, ok, halt, replicate, AllBelow-append,
  AllBelow-replicate, if◌then◌else◌, leb, ltb, ◌&&◌, ◌==◌,
}
use txos.PhysMem.{
  MemoryManager, Zone, page_idx, page_addr, pick_zone, memory_init, alloc_page, free_page,
  kernel_map_init,
}
use txos.PhysMem.Count.{FirstFree}
use txos.PhysMem.Valid.{
  IsValid, refs, recounted, alloc_page_lem, alloc_page-halt, free_page_lem, free_page-halt,
  free_page-alloc_page,
}
use txos.PhysMem.Init.{memory_init_lem, kernel_map_init_lem}

-- pages 0 and 1 reserved, page 2 shared, page 3 free, page 4 held
abbrev mm : MemoryManager
mm = record {
  alloc_base = 0x100000;
  alloc_size = 0x5000;
  free_pages = 1;
  total_pages = 5;
  start_page_idx = 2;
  memory_map = 1 ∷ 1 ∷ 2 ∷ 0 ∷ 1 ∷ [];
  memory_map_pages = 1;
  memory_size = 0x5000;
}

mm-IsValid : IsValid mm
mm-IsValid = record {
  cells = omega arith;
  order = omega arith;
  reserved = omega arith;
  small = omega arith;
  held = refl;
  counted = refl;
  bytes = omega arith;
}

full-IsValid : IsValid (record mm { free_pages = 0; memory_map = 1 ∷ 1 ∷ 2 ∷ 1 ∷ 1 ∷ [] })
full-IsValid = record {
  cells = omega arith;
  order = omega arith;
  reserved = omega arith;
  small = omega arith;
  held = refl;
  counted = refl;
  bytes = omega arith;
}

alloc_page_lem_example :
    (i : ℕ) × (alloc_page mm ≡ ok (page_addr i, recounted mm i 1))
    × FirstFree mm.memory_map 2 3 i
    × IsValid (recounted mm i 1)
    × ((recounted mm i 1).free_pages + 1 ≡ 1)
    × (page_idx (page_addr i) ≡ i)
alloc_page_lem_example = alloc_page_lem mm-IsValid (omega arith)

alloc_page-halt_example :
    alloc_page (record mm { free_pages = 0; memory_map = 1 ∷ 1 ∷ 2 ∷ 1 ∷ 1 ∷ [] }) ≡ halt
alloc_page-halt_example = alloc_page-halt full-IsValid refl

-- page 2 keeps its other reference
free_page_lem_example :
    (free_page mm (page_addr 2) ≡ ok (recounted mm 2 1))
    × IsValid (recounted mm 2 1)
    × ((recounted mm 2 1).free_pages ≡ 1 + (if 2 == 1 then 1 else 0))
free_page_lem_example = free_page_lem 2 mm-IsValid (omega arith) (omega arith) (omega arith)

-- page 3 has no reference to drop
free_page-halt_example : free_page mm 0x3000 ≡ halt
free_page-halt_example = free_page-halt 0x3000 mm-IsValid refl

-- An address inside a page frees the page: the check of the alignment has no effect.
free_page_unaligned : free_page mm 0x2abc ≡ ok (recounted mm 2 1)
unfolding free_page
free_page_unaligned = refl

free_page-alloc_page_example :
    (addr : ℕ) × (mm' : MemoryManager) × (alloc_page mm ≡ ok (addr, mm'))
    × (free_page mm' addr ≡ ok mm)
free_page-alloc_page_example = free_page-alloc_page mm-IsValid (omega arith)

-- a PC with 32M: low memory, then 31M from 1M on
abbrev zones : List Zone
zones =
    record { base = 0; size = 0x9fc00; kind = 1 }
    ∷ record { base = 0xf0000; size = 0x10000; kind = 2 }
    ∷ record { base = 0x100000; size = 0x1f00000; kind = 1 }
    ∷ []

memory_init_lem_example :
    (mm' : MemoryManager) × (memory_init zones ≡ ok mm')
    × IsValid mm'
    × (mm'.total_pages ≡ page_idx (pick_zone zones 0 0).1 + 256)
memory_init_lem_example =
    memory_init_lem zones (unfold pick_zone in refl) (unfold pick_zone in omega arith)

-- 16M, with the first 257 pages held
abbrev smallest : MemoryManager
smallest = record {
  alloc_base = 0x100000;
  alloc_size = 0xf00000;
  free_pages = 3839;
  total_pages = 4096;
  start_page_idx = 257;
  memory_map = replicate 257 1 ++ replicate 3839 0;
  memory_map_pages = 1;
  memory_size = 0x1000000;
}

smallest-IsValid : IsValid smallest
smallest-IsValid = record {
  cells = omega arith;
  order = omega arith;
  reserved = omega arith;
  small = omega arith;
  held = refl;
  counted = refl;
  bytes =
      AllBelow-append 256 (replicate 257 1) (replicate 3839 0)
        (AllBelow-replicate 256 257 1 (omega arith)) (AllBelow-replicate 256 3839 0 (omega arith));
}

kernel_map_init_lem_example :
    (mm' : MemoryManager) × (kernel_map_init smallest ≡ ok mm')
    × IsValid mm'
    × ((i : ℕ) → refs mm' i ≡ (if leb 1 i && ltb i 4096 then 1 else refs smallest i))
kernel_map_init_lem_example = kernel_map_init_lem smallest-IsValid (omega arith)
