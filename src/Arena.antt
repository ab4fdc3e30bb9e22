-- ===== src/Arena.antt =====
-- src/kernel/arena.c: the heap of the kernel. The header of an arena and the links of a free block are kept
-- apart from the bytes of `memory`; a list of free blocks is a sequence (NodeList.Sequence), and pages
-- come from Paging by the bitmap `map`. A descriptor is its index.
pub mod Blocks
pub mod Valid
pub mod Take
pub mod Grow
pub mod Alloc
pub mod Free
pub mod Release
pub mod Drop
pub mod Last
pub mod Init
mod Tests
use txos.Base.{
  ℕ, zero, suc, ◌+◌, ◌-◌, ◌*◌, ◌/◌, ◌%◌, Bool, true, false, not, ◌&&◌, List, [], ◌∷◌, Option, none,
  some, Outcome, ok, halt, ◌>>=◌, ◌>>◌, assert, from_option, elem, null, ◌==◌, ltb, leb,
  if◌then◌else◌, update,
}
use txos.Stdlib.{word, div_round_up}
use txos.Task.{xos_magic}
use txos.Strings.{Memory, memset}
use txos.Bitmap.{Bitmap}
use txos.Paging.{kalloc_page, kfree_page}
use txos.NodeList.Walk.{is_nil}
use txos.NodeList.Sequence.{push_back, pop_front, without}

abbrev pub arena_desc_count : ℕ
arena_desc_count = 7

abbrev pub min_block_size : ℕ
min_block_size = 16

abbrev pub page_bytes : ℕ
page_bytes = 4096

abbrev pub sizeof_arena : ℕ
sizeof_arena = 16

-- `arena_descriptor_t`
pub record ArenaDescriptor : Type 0 where
  pub total_block : ℕ
  pub block_size : ℕ
  pub free_list : List ℕ

-- `arena_t`
pub record Header : Type 0 where
  pub desc : Option ℕ
  pub count : ℕ
  pub large : Bool
  pub magic : ℕ

pub record Heap : Type 0 where
  pub map : Bitmap
  pub descriptors : ℕ → ArenaDescriptor
  pub arenas : ℕ → Header
  pub memory : Memory

-- the loop of `arena_init`
unfoldable pub init_descriptors :
    (left : ℕ) → (ℕ → ArenaDescriptor) → (i block_size : ℕ) → ℕ → ArenaDescriptor
init_descriptors zero descriptors i block_size = descriptors
init_descriptors (suc left) descriptors i block_size =
    let desc : ArenaDescriptor = record {
      block_size = block_size;
      total_block = (page_bytes - sizeof_arena) / block_size;
      free_list = [];
    } in
    init_descriptors left (update descriptors i desc) (i + 1) (block_size * 2)

unfoldable pub arena_init : Heap → Heap
arena_init h = record h {
  descriptors = init_descriptors arena_desc_count h.descriptors 0 min_block_size;
}

-- `MAX_BLOCK_SIZE`
abbrev pub max_block_size : Heap → ℕ
max_block_size h = (h.descriptors (arena_desc_count - 1)).block_size

unfoldable pub get_block_from_arena : Heap → (arena idx : ℕ) → Outcome ℕ
get_block_from_arena h arena idx = do
  d ← from_option (h.arenas arena).desc
  assert (ltb idx (h.descriptors d).total_block)
  ok (arena + sizeof_arena + idx * (h.descriptors d).block_size)

-- `block & 0xfffff000`
abbrev pub get_arena_from_block : ℕ → ℕ
get_arena_from_block block = block - block % page_bytes

-- The first descriptor from `i` on whose blocks are large enough, or the last.
unfoldable pub find_descriptor : (left : ℕ) → Heap → (size i : ℕ) → ℕ
find_descriptor zero h size i = i
find_descriptor (suc left) h size i =
    let more = find_descriptor left h size (i + 1) in
    if leb size (h.descriptors i).block_size then i else more

-- the loop that puts the blocks of a new arena into the free list, from block `i` on
unfoldable pub add_blocks : (left : ℕ) → Heap → (arena i : ℕ) → List ℕ → Outcome (List ℕ)
add_blocks zero h arena i list = ok list
add_blocks (suc left) h arena i list = do
  block ← get_block_from_arena h arena i
  assert (not (elem block list))
  list ← push_back list block
  assert (elem block list)
  add_blocks left h arena (i + 1) list

abbrev pub set_free_list : Heap → (d : ℕ) → List ℕ → Heap
set_free_list h d list = record h {
  descriptors = update h.descriptors d (record (h.descriptors d) { free_list = list });
}

-- `kmalloc` for a request above the largest block
unfoldable pub alloc_large : Heap → (size : ℕ) → Outcome (ℕ × Heap)
alloc_large h size = do
  count ← div_round_up ((size + sizeof_arena) % word) page_bytes
  (arena, map) ← kalloc_page h.map count
  let header : Header = record { desc = none; count = count; large = true; magic = xos_magic }
  ok (
    arena + sizeof_arena,
    record h {
      map = map;
      memory = memset (count * page_bytes) h.memory arena 0;
      arenas = update h.arenas arena header;
    },
  )

-- a page of blocks more for the descriptor `d`
unfoldable pub grow : Heap → (d : ℕ) → Outcome Heap
grow h d = do
  let desc = h.descriptors d
  (arena, map) ← kalloc_page h.map 1
  let header : Header = record {
    desc = some d;
    count = desc.total_block;
    large = false;
    magic = xos_magic;
  }
  let h' = record h {
    map = map;
    memory = memset page_bytes h.memory arena 0;
    arenas = update h.arenas arena header;
  }
  list ← add_blocks desc.total_block h' arena 0 desc.free_list
  ok (set_free_list h' d list)

-- the end of `kmalloc`: the first free block of the descriptor `d`
unfoldable pub take_block : Heap → (d : ℕ) → Outcome (ℕ × Heap)
take_block h d = do
  let desc = h.descriptors d
  (block, list) ← pop_front desc.free_list
  let arena = get_arena_from_block block
  let header = h.arenas arena
  assert (header.magic == xos_magic && not header.large)
  let h' = record (set_free_list h d list) {
    memory = memset desc.block_size h.memory block 0;
    arenas = update h.arenas arena (record header { count = (header.count + word - 1) % word });
  }
  ok (block, h')

unfoldable pub kmalloc : Heap → (size : ℕ) → Outcome (ℕ × Heap)
kmalloc h size =
    let large = alloc_large h size in
    let d = find_descriptor (arena_desc_count - 1) h size 0 in
    let grown = (do h ← grow h d; take_block h d) in
    let small = if is_nil (h.descriptors d).free_list then grown else take_block h d in
    if ltb (max_block_size h) size then large else small

-- the loop that takes the blocks of an arena out of the free list, from block `i` on
unfoldable pub drop_blocks : (left : ℕ) → Heap → (arena i : ℕ) → List ℕ → Outcome (List ℕ)
drop_blocks zero h arena i list = ok list
drop_blocks (suc left) h arena i list = do
  block ← get_block_from_arena h arena i
  assert (elem block list)
  assert (not (elem block (without list block)))
  drop_blocks left h arena (i + 1) (without list block)

unfoldable pub kfree : Heap → (ptr : ℕ) → Outcome Heap
kfree h ptr = do
  assert (not (ptr == null))
  let arena = get_arena_from_block ptr
  let header = h.arenas arena
  assert (header.magic == xos_magic)
  let large = (do map ← kfree_page h.map arena header.count; ok (record h { map = map }))
  let small = (do
    d ← from_option header.desc
    list ← push_back (h.descriptors d).free_list ptr
    let count = (header.count + 1) % word
    let h' = record (set_free_list h d list) {
      arenas = update h.arenas arena (record header { count = count });
    }
    let emptied = (do
      list ← drop_blocks count h' arena 0 list
      map ← kfree_page h'.map arena 1
      ok (record (set_free_list h' d list) { map = map }))
    if count == (h.descriptors d).total_block then emptied else ok h')
  if header.large then large else small
