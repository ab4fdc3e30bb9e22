-- ===== src/Arena/Valid.antt =====
-- The invariant of the heap.
use txos.Base.{ℕ, ◌+◌, ◌*◌, ◌<◌, ◌≤◌, ◌≡◌, ◌∙◌, Bool, true, false, some, elem, distinct}
use txos.Stdlib.{word}
use txos.Task.{xos_magic}
use txos.Arena.{Heap, Header, arena_desc_count, get_arena_from_block, page_bytes, sizeof_arena}
use txos.Arena.Blocks.{free_in}

-- the header of the arena of a block
abbrev pub header_of : Heap → (p : ℕ) → Header
header_of h p = h.arenas (get_arena_from_block p)

-- `p` is a block of an arena of the descriptor `d`
pub record IsBlock (h : Heap) (d p : ℕ) : Type 0 where
  pub index : ℕ
  pub below : index < (h.descriptors d).total_block
  pub address : p ≡ get_arena_from_block p + sizeof_arena + index * (h.descriptors d).block_size
  pub magic : (header_of h p).magic ≡ xos_magic
  pub small : (header_of h p).large ≡ false
  pub desc : (header_of h p).desc ≡ some d

-- whether a block is in the free list of a descriptor
abbrev pub is_free : Heap → (d p : ℕ) → Bool
is_free h d p = elem p (h.descriptors d).free_list

pub record IsValid (h : Heap) : Type 0 where
  pub positive : (d : ℕ) → d < arena_desc_count → 0 < (h.descriptors d).block_size
  pub some_block : (d : ℕ) → d < arena_desc_count → 0 < (h.descriptors d).total_block
  pub small_total : (d : ℕ) → d < arena_desc_count → (h.descriptors d).total_block < word
  pub fits :
      (d : ℕ)
      → d < arena_desc_count
      → sizeof_arena + (h.descriptors d).total_block * (h.descriptors d).block_size ≤ page_bytes
  pub once : (d : ℕ) → d < arena_desc_count → distinct (h.descriptors d).free_list ≡ true
  pub blocks : (d p : ℕ) → d < arena_desc_count → is_free h d p ≡ true → IsBlock h d p
  pub small_count : (arena : ℕ) → (h.arenas arena).count < word
  pub counted :
      (d p : ℕ)
      → d < arena_desc_count
      → is_free h d p ≡ true
      → (header_of h p).count ≡ free_in (get_arena_from_block p) (h.descriptors d).free_list

-- A block stays one when its descriptor keeps its sizes and its arena the header but for the count.
pub IsBlock-kept :
    (h h' : Heap) (d p : ℕ)
    → (h'.descriptors d).total_block ≡ (h.descriptors d).total_block
    → (h'.descriptors d).block_size ≡ (h.descriptors d).block_size
    → (header_of h' p).magic ≡ (header_of h p).magic
    → (header_of h' p).large ≡ (header_of h p).large
    → (header_of h' p).desc ≡ (header_of h p).desc
    → IsBlock h d p
    → IsBlock h' d p
IsBlock-kept h h' d p total size magic large desc b = record {
  index = b.index;
  below = rw total b.below;
  address = rw size b.address;
  magic = magic ∙ b.magic;
  small = large ∙ b.small;
  desc = desc ∙ b.desc;
}
