-- ===== src/Arena/Tests.antt =====
-- A heap after `arena_init`, with one bitmap of free pages.
use txos.Base.{
  clear_bit, ◌⊎◌, inl, inr, ◌==◌, if◌then◌else◌, some, ℕ, ◌<◌, ◌-◌, ◌≡◌, refl, ok, true, false,
  none, [], ◌∷◌, arith, test_bit,
}
use txos.Bitmap.{Bitmap, bitmap_contains, bitmap_remove, bitmap_set}
use txos.Bitmap.Valid
use txos.Bitmap.Valid.{used}
use txos.Bitmap.Scan.{free_run}
use txos.Arena.{
  Heap, arena_desc_count, max_block_size, arena_init, init_descriptors, find_descriptor, kmalloc,
}
use txos.Arena.Valid.{IsValid, is_free}
use txos.Task.{xos_magic}
use txos.Arena.{ArenaDescriptor, kfree}
use txos.Arena.Blocks.{free_in}
use txos.Arena.Valid.{IsBlock, header_of}
use txos.Arena.Free.{InUse, Freed, kfree_lem}
use txos.Paging.{kfree_page, reset_pages}
use txos.Arena.{get_arena_from_block}
use txos.Arena.Last.{Released, kfree-last_lem}
use txos.Arena.Init.{arena_init-IsValid, descriptor_lem}
use txos.Arena.Grow.{Supply, free_run-Supply}
use txos.Arena.Alloc.{Allocated, kmalloc_lem}

abbrev map : Bitmap
map = record { bits = 1 ∷ 0 ∷ []; size = 2; offset = 512; length = 528 }

map-IsValid : Valid.IsValid map
map-IsValid = record {
  storage = omega arith;
  bytes = omega arith;
  span = refl;
  small = omega arith;
}

abbrev memory : Heap
memory = record {
  map = map;
  descriptors = λ d. record { total_block = 0; block_size = 0; free_list = [] };
  arenas = λ a. record { desc = none; count = 0; large = false; magic = 0 };
  memory = λ a. 255;
}

abbrev heap : Heap
heap = arena_init memory

heap-IsValid : IsValid heap
heap-IsValid = arena_init-IsValid memory (λ a. omega arith)

heap_map : heap.map ≡ map
unfolding arena_init
heap_map = refl

one_free : free_run map 513 1 ≡ true
unfolding used test_bit
one_free = refl

none_free : (d p : ℕ) → d < arena_desc_count → is_free heap d p ≡ false
none_free d p less = rw (descriptor_lem memory d less) refl

heap-Supply : Supply heap
heap-Supply =
    free_run-Supply 513 (rw heap_map map-IsValid) (rw heap_map (omega arith))
      (rw heap_map (omega arith)) (rw heap_map (omega arith)) (rw heap_map one_free)
      (λ d p less at. absurd (cc (none_free d p less)))

largest : max_block_size heap ≡ 1024
unfolding arena_init init_descriptors
largest = refl

kmalloc_lem_example :
    (p : ℕ) × (h' : Heap) × (kmalloc heap 40 ≡ ok (p, h'))
    × Allocated heap 40 (find_descriptor (arena_desc_count - 1) heap 40 0) p h'
kmalloc_lem_example = kmalloc_lem heap-IsValid heap-Supply 40 (rw largest (omega arith))

-- an arena of three blocks at 2101248, the last one free
abbrev descriptor : (d : ℕ) → ArenaDescriptor
descriptor d =
    if d == 6
    then record { total_block = 3; block_size = 1024; free_list = 2103312 ∷ [] }
    else record { total_block = 255; block_size = 16; free_list = [] }

abbrev part_used : Heap
part_used = record {
  map = map;
  descriptors = descriptor;
  arenas = λ a. record { desc = some 6; count = 1; large = false; magic = xos_magic };
  memory = λ a. 255;
}

only_free : (d p : ℕ) → is_free part_used d p ≡ true → (6 ≡ d) × (2103312 ≡ p)
only_free d p at = ground arith

only_free-IsBlock : IsBlock part_used 6 2103312
only_free-IsBlock = record {
  index = 2;
  below = omega arith;
  address = refl;
  magic = refl;
  small = refl;
  desc = refl;
}

one_free_counted : (header_of part_used 2103312).count ≡ free_in 2101248 (2103312 ∷ [])
unfolding free_in
one_free_counted = refl

part_used-IsValid : IsValid part_used
part_used-IsValid = record {
  positive = λ d less. ground arith;
  some_block = λ d less. ground arith;
  small_total = λ d less. ground arith;
  fits = λ d less. ground arith;
  once = λ d less. ground arith;
  blocks = λ d p less at. let (e, f) = only_free d p at in rw (← e, ← f) only_free-IsBlock;
  small_count = λ a. omega arith;
  counted = λ d p less at. let (e, f) = only_free d p at in rw (← e, ← f) one_free_counted;
}

first_block : InUse part_used 6 2101264
first_block = record {
  in_range = omega arith;
  block = record {
    index = 0;
    below = omega arith;
    address = refl;
    magic = refl;
    small = refl;
    desc = refl;
  };
  held = refl;
  counted = one_free_counted;
  not_free = omega arith;
}

kfree_lem_example : (h' : Heap) × (kfree part_used 2101264 ≡ ok h') × Freed part_used 6 2101264 h'
kfree_lem_example = kfree_lem part_used-IsValid 6 2101264 first_block (omega arith)

-- the same arena with the first block in use alone
abbrev held_map : Bitmap
held_map = record { bits = 3 ∷ 0 ∷ []; size = 2; offset = 512; length = 528 }

abbrev last_used : Heap
last_used = record {
  map = held_map;
  descriptors =
      λ d. record (descriptor d) { free_list = if d == 6 then 2102288 ∷ 2103312 ∷ [] else [] };
  arenas = λ a. record { desc = some 6; count = 2; large = false; magic = xos_magic };
  memory = λ a. 255;
}

two_free : (d p : ℕ) → is_free last_used d p ≡ true → (6 ≡ d) × ((2102288 ≡ p) ⊎ (2103312 ≡ p))
two_free d p at = ground arith

two_free-IsBlock : (p : ℕ) → (2102288 ≡ p) ⊎ (2103312 ≡ p) → IsBlock last_used 6 p
two_free-IsBlock p (inl e) = rw (← e) (record {
  index = 1;
  below = omega arith;
  address = refl;
  magic = refl;
  small = refl;
  desc = refl;
})
two_free-IsBlock p (inr e) = rw (← e) (record {
  index = 2;
  below = omega arith;
  address = refl;
  magic = refl;
  small = refl;
  desc = refl;
})

two_free-counted :
    (p : ℕ)
    → (2102288 ≡ p) ⊎ (2103312 ≡ p)
    → 2 ≡ free_in (get_arena_from_block p) (2102288 ∷ 2103312 ∷ [])
unfolding free_in
two_free-counted p (inl e) = rw (← e) refl
two_free-counted p (inr e) = rw (← e) refl

last_used-IsValid : IsValid last_used
last_used-IsValid = record {
  positive = λ d less. ground arith;
  some_block = λ d less. ground arith;
  small_total = λ d less. ground arith;
  fits = λ d less. ground arith;
  once = λ d less. ground arith;
  blocks = λ d p less at. let (e, f) = two_free d p at in rw (← e) (two_free-IsBlock p f);
  small_count = λ a. omega arith;
  counted = λ d p less at. let (e, f) = two_free d p at in rw (← e) (two_free-counted p f);
}

only_block : InUse last_used 6 2101264
only_block = record {
  in_range = omega arith;
  block = record {
    index = 0;
    below = omega arith;
    address = refl;
    magic = refl;
    small = refl;
    desc = refl;
  };
  held = refl;
  counted = two_free-counted 2102288 (inl refl);
  not_free = omega arith;
}

page_is_freed : kfree_page held_map 2101248 1 ≡ ok map
unfolding kfree_page reset_pages bitmap_contains bitmap_remove bitmap_set test_bit clear_bit
page_is_freed = refl

kfree-last_lem_example :
    (h' : Heap) × (kfree last_used 2101264 ≡ ok h') × Released last_used 2101264 map h'
kfree-last_lem_example =
    kfree-last_lem last_used-IsValid 6 2101264 only_block map refl page_is_freed
