-- ===== src/Paging.antt =====
-- src/kernel/memory.c and interrupt.c: page tables on top of the pages of PhysMem, the page fault, and
-- the heap's end. Page tables are entries by physical page and index, pages of data are bytes by physical
-- page. Of the TLB only what it holds for the first page of the address space is kept, the one page whose
-- entry is changed without a flush; at other addresses the processor follows the entries.
pub mod Mapping
pub mod Copying
pub mod Fault
pub mod Link
pub mod Kernel
mod Tests
use txos.Base.{
  ℕ, zero, suc, ◌+◌, ◌-◌, ◌*◌, ◌/◌, ◌%◌, ◌^◌, Bool, true, false, not, ◌&&◌, ◌||◌, Option, none,
  some, Outcome, ok, halt, out_of_fuel, ◌>>=◌, ◌>>◌, assert, from_option, get_elem?, set, ◌==◌, ltb,
  leb, if◌then◌else◌, update,
}
use txos.Stdlib.{word}
use txos.Bitmap.{Bitmap, bitmap_contains, bitmap_insert, bitmap_remove, bitmap_insert_nbits, eof}
use txos.PhysMem.{MemoryManager, page_idx, page_addr, page_size, alloc_page, free_page}

abbrev pub kernel_memory_size : ℕ
kernel_memory_size = 0x1000000

abbrev pub user_stack_top : ℕ
user_stack_top = 0x8800000

abbrev pub user_stack_bottom : ℕ
user_stack_bottom = user_stack_top - 0xa00000

-- `PDE_IDX` and `PTE_IDX`
abbrev pub pde_idx : ℕ → ℕ
pde_idx addr = addr / 2 ^ 22 % 1024

abbrev pub pte_idx : ℕ → ℕ
pte_idx addr = addr / 2 ^ 12 % 1024

-- `page_entry_t`; `others` holds the bits that the kernel never sets
pub record Entry : Type 0 where
  pub present : Bool
  pub write : Bool
  pub user : Bool
  pub others : ℕ
  pub index : ℕ

-- the page manager, the directory of the current task, the tables and the data of all physical pages, and
-- the current task's bitmap of virtual pages and end of the heap; `first_cached` is the physical page
-- that the TLB has for the first page of the address space
pub record Space : Type 0 where
  pub mm : MemoryManager
  pub pde : ℕ → Entry
  pub tables : ℕ → ℕ → Entry
  pub data_of : ℕ → ℕ → ℕ
  pub vmap : Bitmap
  pub brk : ℕ
  pub first_cached : Option ℕ

-- The low 20 bits of an index have a place.
abbrev pub page_entry_init : (index : ℕ) → Entry
page_entry_init index = record {
  present = true;
  write = true;
  user = true;
  others = 0;
  index = index % 2 ^ 20;
}

abbrev pub set_entry : Space → (table idx : ℕ) → Entry → Space
set_entry s table idx entry = record s {
  tables = update s.tables table (update (s.tables table) idx entry);
}

-- The page of the table for `vaddr`; a table made for it is not cleared.
unfoldable pub get_pte : Space → (vaddr : ℕ) → (create : Bool) → Outcome (ℕ × Space)
get_pte s vaddr create = do
  let entry = s.pde (pde_idx vaddr)
  assert (create || entry.present)
  let made = (do
    (paddr, mm) ← alloc_page s.mm
    let entry' = page_entry_init (page_idx paddr)
    ok (entry'.index, record s { mm = mm; pde = update s.pde (pde_idx vaddr) entry' }))
  if not entry.present && create then made else ok (entry.index, s)

unfoldable pub link_page : Space → (vaddr : ℕ) → Outcome Space
link_page s vaddr = do
  (table, s) ← get_pte s vaddr true
  let entry = s.tables table (pte_idx vaddr)
  taken ← bitmap_contains s.vmap (page_idx vaddr)
  let linked = (do assert taken; ok s)
  let linking = (do
    assert (not taken)
    vmap ← bitmap_insert s.vmap (page_idx vaddr)
    (paddr, mm) ← alloc_page s.mm
    ok (
        set_entry (record s { vmap = vmap; mm = mm }) table (pte_idx vaddr)
          (page_entry_init (page_idx paddr))))
  if entry.present then linked else linking

unfoldable pub unlink_page : Space → (vaddr : ℕ) → Outcome Space
unlink_page s vaddr = do
  (table, s) ← get_pte s vaddr true
  let entry = s.tables table (pte_idx vaddr)
  taken ← bitmap_contains s.vmap (page_idx vaddr)
  let absent = (do assert (not taken); ok s)
  let unlinking = (do
    assert taken
    vmap ← bitmap_remove s.vmap (page_idx vaddr)
    mm ← free_page s.mm (page_addr entry.index)
    ok (
        set_entry (record s { vmap = vmap; mm = mm }) table (pte_idx vaddr)
          (record entry { present = false })))
  if entry.present then unlinking else absent

-- the physical page that the tables give for an address
abbrev pub frame_of : Space → (vaddr : ℕ) → ℕ
frame_of s vaddr = (s.tables (s.pde (pde_idx vaddr)).index (pte_idx vaddr)).index

-- where the processor finds the first page of the address space
abbrev pub first_frame : Space → ℕ
first_frame s = elim s.first_cached [ some frame ↦ frame | none ↦ frame_of s 0 ]

-- The copy goes through the first page of the address space, mapped to the new page for the while. The
-- TLB is not flushed, before the copy or after it.
unfoldable pub copy_page : Space → (vaddr : ℕ) → Outcome (ℕ × Space)
copy_page s vaddr = do
  (paddr, mm) ← alloc_page s.mm
  let first = (s.pde 0).index
  let mapped = set_entry (record s { mm = mm }) first 0 (page_entry_init (page_idx paddr))
  let copied = record mapped {
    data_of = update mapped.data_of (first_frame mapped) (mapped.data_of (frame_of mapped vaddr));
    first_cached = some (first_frame mapped);
  }
  ok (paddr, set_entry copied first 0 (record (copied.tables first 0) { present = false }))

-- the bits of the error code that the handler looks at
pub record PageError : Type 0 where
  pub present : Bool
  pub write : Bool
  pub user : Bool

-- A write to a page that is read-only since it is shared.
unfoldable pub write_fault : Space → (vaddr : ℕ) → Outcome Space
write_fault s vaddr = do
  (table, s) ← get_pte s vaddr false
  let pte = s.tables table (pte_idx vaddr)
  count ← from_option (get_elem? s.mm.memory_map pte.index)
  assert (ltb 0 count)
  let own = set_entry s table (pte_idx vaddr) (record pte { write = true })
  let copied = (do
    (paddr, s) ← copy_page s (page_addr (page_idx vaddr))
    let s' = set_entry s table (pte_idx vaddr) (page_entry_init (page_idx paddr))
    count' ← from_option (get_elem? s'.mm.memory_map pte.index)
    ok (record s' {
      mm = record s'.mm { memory_map = set s'.mm.memory_map pte.index ((count' + 256 - 1) % 256) };
    }))
  s' ← if count == 1 then ok own else copied
  left ← from_option (get_elem? s'.mm.memory_map pte.index)
  assert (ltb 0 left)
  ok s'

unfoldable pub page_fault_handler : Space → (vector : ℕ) → PageError → (vaddr : ℕ) → Outcome Space
page_fault_handler s vector error vaddr = do
  assert (vector == 0xe)
  assert (leb kernel_memory_size vaddr && ltb vaddr user_stack_top)
  let writing = (do assert error.write; write_fault s vaddr)
  let lazy = link_page s (page_addr (page_idx vaddr))
  if error.present
      then writing
      else if error.user && (ltb vaddr s.brk || ltb user_stack_bottom vaddr)
      then lazy
      else halt

-- The loop of `sys_brk` over the pages given up.
unfoldable pub unlink_from : (fuel : ℕ) → Space → (addr old_brk : ℕ) → Outcome Space
unlink_from zero s addr old_brk = out_of_fuel
unlink_from (suc fuel) s addr old_brk =
    let more = (do s ← unlink_page s addr; unlink_from fuel s (addr + page_size) old_brk) in
    if ltb addr old_brk then more else ok s

-- The result, 0 or -1, and the space; `kernel_task` is whether the caller is one.
unfoldable pub sys_brk :
    (fuel : ℕ) → Space → (kernel_task : Bool) → (addr : ℕ) → Outcome (ℕ × Space)
sys_brk fuel s kernel_task brk = do
  assert (not kernel_task)
  assert (leb kernel_memory_size brk && ltb brk user_stack_bottom)
  let shrink = (do s' ← unlink_from fuel s brk s.brk; ok (0, record s' { brk = brk }))
  if ltb brk s.brk
      then shrink
      else if ltb s.mm.free_pages (page_idx (brk - s.brk))
      then ok (word - 1, s)
      else ok (0, record s { brk = brk })

-- `kalloc_page`: the address of `count` pages in a row, with `scan_pages`, and the bitmap.
unfoldable pub kalloc_page : Bitmap → (count : ℕ) → Outcome (ℕ × Bitmap)
kalloc_page map count = do
  assert (ltb 0 count)
  (idx, map) ← bitmap_insert_nbits map count
  assert (not (idx == eof))
  ok (page_addr idx, map)

-- The loop of `reset_pages`, with `left` pages to go.
unfoldable pub reset_pages : (left : ℕ) → Bitmap → (idx : ℕ) → Outcome Bitmap
reset_pages zero map idx = ok map
reset_pages (suc left) map idx = do
  taken ← bitmap_contains map idx
  assert taken
  map ← bitmap_remove map idx
  reset_pages left map (idx + 1)

unfoldable pub kfree_page : Bitmap → (vaddr count : ℕ) → Outcome Bitmap
kfree_page map vaddr count = do assert (ltb 0 count); reset_pages count map (page_idx vaddr)
