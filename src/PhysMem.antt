-- ===== src/PhysMem.antt =====
-- The physical page manager of src/kernel/memory.c: one reference count per page in `memory_map`,
-- and the number of free pages. The bootloader's and multiboot2's memory maps are lists of zones.
pub mod Count
pub mod Valid
pub mod Init
mod Tests
use txos.Base.{
  ℕ, zero, suc, ◌+◌, ◌-◌, ◌*◌, ◌/◌, ◌%◌, ◌^◌, Bool, true, false, not, ◌&&◌, ◌||◌, List, [], ◌∷◌,
  Outcome, ok, halt, ◌>>=◌, ◌>>◌, assert, from_option, get_elem?, set, replicate, ◌==◌, ltb, leb,
  if◌then◌else◌,
}
use txos.Stdlib.{word, div_round_up}

-- `PAGE_SIZE`
abbrev pub page_size : ℕ
page_size = 0x1000

-- `PAGE_IDX` and `PAGE_ADDR`
abbrev pub page_idx : ℕ → ℕ
page_idx addr = addr / 2 ^ 12

abbrev pub page_addr : ℕ → ℕ
page_addr idx = idx * 2 ^ 12 % word

-- `MEMORY_ALLOC_BASE`, and the space of the four kernel page tables
abbrev pub memory_alloc_base : ℕ
memory_alloc_base = 0x100000

abbrev pub kernel_space_size : ℕ
kernel_space_size = 4 * 1024 * page_size

-- `memory_manager_t`
pub record MemoryManager : Type 0 where
  pub alloc_base : ℕ
  pub alloc_size : ℕ
  pub free_pages : ℕ
  pub total_pages : ℕ
  pub start_page_idx : ℕ
  pub memory_map : List ℕ
  pub memory_map_pages : ℕ
  pub memory_size : ℕ

-- `ards_t` and the multiboot2 entries: 64-bit base and size; type 1 is usable memory
pub record Zone : Type 0 where
  pub base : ℕ
  pub size : ℕ
  pub kind : ℕ

-- The choice of the largest usable zone from 1M on: the base and size found so far are 32-bit.
pub pick_zone : List Zone → (base size : ℕ) → ℕ × ℕ
pick_zone [] base size = (base, size)
pick_zone (z ∷ zones) base size =
    let better = z.kind == 1 && (leb memory_alloc_base z.base && ltb size z.size) in
    pick_zone zones (if better then z.base % word else base)
      (if better then z.size % word else size)

-- `for (i = 0; i < start_page_idx; i++) memory_map[i] = 1;`, from `i` on
pub hold_pages : (left : ℕ) → List ℕ → ℕ → Outcome (List ℕ)
hold_pages zero map i = ok map
hold_pages (suc left) map i = do
  _ ← from_option (get_elem? map i)
  hold_pages left (set map i 1) (i + 1)

memory_map_init : MemoryManager → Outcome MemoryManager
unfolding hold_pages
memory_map_init mm = do
  pages ← div_round_up mm.total_pages page_size
  let start = (page_idx mm.alloc_base + pages) % word
  map ← hold_pages start (replicate (pages * page_size) 0) 0
  ok (record mm {
    memory_map = map;
    memory_map_pages = pages;
    free_pages = (mm.free_pages + word - pages) % word;
    start_page_idx = start;
  })

-- `memory_init` from the zones on; `mm` starts as zeros. Its `ASSERT_PAGE_ADDR` is an expression
-- without effect (include/xos/memory.h), as everywhere.
pub memory_init : List Zone → Outcome MemoryManager
unfolding pick_zone memory_map_init
memory_init zones = do
  let (base, size) = pick_zone zones 0 0
  let free = page_idx size
  let total = (free + page_idx base) % word
  let bytes = total * page_size % word
  assert (base == memory_alloc_base)
  assert (leb kernel_space_size bytes)
  memory_map_init (record {
    alloc_base = base;
    alloc_size = size;
    free_pages = free;
    total_pages = total;
    start_page_idx = 0;
    memory_map = [];
    memory_map_pages = 0;
    memory_size = bytes;
  })

-- The search loop of `alloc_page`, from page `i` with `left` pages to go.
pub find_free : (left : ℕ) → List ℕ → ℕ → Outcome ℕ
find_free zero map i = halt
find_free (suc left) map i = do
  count ← from_option (get_elem? map i)
  let rest = find_free left map (i + 1)
  if count == 0 then ok i else rest

-- the address of the page and the manager without it
pub alloc_page : MemoryManager → Outcome (ℕ × MemoryManager)
unfolding find_free
alloc_page mm = do
  i ← find_free (mm.total_pages - mm.start_page_idx) mm.memory_map mm.start_page_idx
  assert (ltb 0 mm.free_pages)
  ok (page_addr i, record mm { memory_map = set mm.memory_map i 1; free_pages = mm.free_pages - 1 })

pub free_page : MemoryManager → ℕ → Outcome MemoryManager
free_page mm addr = do
  let idx = page_idx addr
  assert (leb mm.start_page_idx idx && ltb idx mm.total_pages)
  count ← from_option (get_elem? mm.memory_map idx)
  assert (leb 1 count)
  let map = set mm.memory_map idx (count - 1)
  let free = (mm.free_pages + 1) % word
  let released = (do
    assert (ltb 0 free && ltb free mm.total_pages)
    ok (record mm { memory_map = map; free_pages = free }))
  if count - 1 == 0 then released else ok (record mm { memory_map = map })

-- The inner loop of `kernel_map_init` on the page counts: the pages from `index` on are taken.
pub claim_pages : (left : ℕ) → MemoryManager → ℕ → Outcome MemoryManager
claim_pages zero mm index = ok mm
claim_pages (suc left) mm index = do
  count ← from_option (get_elem? mm.memory_map index)
  claim_pages left
      (record mm {
        memory_map = set mm.memory_map index 1;
        free_pages = if count == 0 then (mm.free_pages + word - 1) % word else mm.free_pages;
      })
      (index + 1)

-- `kernel_map_init` maps the pages 1 to 4095 of the four kernel tables; page 0 is passed over.
pub kernel_map_init : MemoryManager → Outcome MemoryManager
unfolding claim_pages
kernel_map_init mm = claim_pages (4 * 1024 - 1) mm 1
