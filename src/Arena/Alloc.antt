-- ===== src/Arena/Alloc.antt =====
-- `kmalloc` of a block of an arena.
use txos.Base.{
  ℕ, zero, suc, ◌+◌, ◌-◌, ◌*◌, ◌<◌, ◌≤◌, ◌≡◌, ◌≢◌, ◌⊎◌, refl, ap, ◌∙◌, true, false, ◌&&◌, List, [],
  ◌∷◌, ok, ◌>>=◌, arith, elem, ltb, if◌then◌else◌, update-other, inl, inr, ==_refl,
}
use txos.Strings.Buffers.{in_buffer, memset_lem}
use txos.NodeList.Walk.{is_nil}
use txos.Arena.{
  Heap, arena_desc_count, get_arena_from_block, find_descriptor, grow, take_block, kmalloc,
  max_block_size, page_bytes, sizeof_arena,
}
use txos.Arena.Blocks.{blocks_from, find_descriptor_lem}
use txos.Arena.Valid.{IsBlock, IsValid, header_of, is_free}
use txos.Arena.Take.{take_block_lem}
use txos.Arena.Grow.{
  Supply, fresh, grown, longer, size_same, fresh-arena, new_header, grown-IsValid, grow_lem,
}

-- What `kmalloc` leaves with the block `p`, from the first descriptor whose blocks are large enough.
pub record Allocated (h : Heap) (size d p : ℕ) (h' : Heap) : Type 0 where
  pub valid : IsValid h'
  pub in_range : d < arena_desc_count
  pub large_enough : size ≤ (h.descriptors d).block_size
  pub tight : (e : ℕ) → e < d → (h.descriptors e).block_size < size
  pub block : IsBlock h' d p
  pub zeroed : (at : ℕ) → in_buffer p (h.descriptors d).block_size at ≡ true → h'.memory at ≡ 0
  pub rest :
      (at : ℕ)
      → in_buffer p (h.descriptors d).block_size at ≡ false
      → (is_nil (h.descriptors d).free_list && in_buffer (get_arena_from_block p) page_bytes at)
        ≡ false
      → h'.memory at ≡ h.memory at
  pub gone : (e : ℕ) → e < arena_desc_count → is_free h' e p ≡ false
  pub others : (e : ℕ) → d ≢ e → h'.descriptors e ≡ h.descriptors e
  pub count : (header_of h' p).count + 1 ≡ (
      if is_nil (h.descriptors d).free_list
      then (h.descriptors d).total_block
      else (header_of h p).count)

blocks_from-head :
    (left arena size i : ℕ)
    → 0 < left
    → (list : List ℕ) × (blocks_from left arena size i ≡ (arena + sizeof_arena + i * size) ∷ list)
unfolding blocks_from
blocks_from-head zero arena size i pos = absurd (omega arith)
blocks_from-head (suc left) arena size i pos = (blocks_from left arena size (i + 1), refl)

module _ {h : Heap} (v : IsValid h) (s : Supply h) (size : ℕ) (fits : size ≤ max_block_size h) where
  abbrev class : ℕ
  class = find_descriptor (arena_desc_count - 1) h size 0

  found :
      (class < arena_desc_count)
      × (size ≤ (h.descriptors class).block_size)
      × ((e : ℕ) → e < class → (h.descriptors e).block_size < size)
  found =
      let (low, high, large, first) = find_descriptor_lem (arena_desc_count - 1) h size 0 fits in
      (omega arith, large, λ e less. first e (omega arith) less)

  from_list :
      (p : ℕ) (list : List ℕ)
      → (h.descriptors class).free_list ≡ p ∷ list
      → (h' : Heap) × (take_block h class ≡ ok (p, h')) × Allocated h size class p h'
  from_list p list head =
      let (h', result, taken) = take_block_lem v class p list found.0 head in
      (
        h',
        result,
        record {
          valid = taken.valid;
          in_range = found.0;
          large_enough = found.1;
          tight = found.2;
          block = taken.block;
          zeroed = taken.zeroed;
          rest = λ at outside other. taken.rest at outside;
          gone = taken.gone;
          others = taken.others;
          count = rw head taken.count;
        },
      )

  from_page :
      (h.descriptors class).free_list ≡ []
      → (p : ℕ) × (h' : Heap) × ((do h ← grow h class; take_block h class) ≡ ok (p, h'))
        × Allocated h size class p h'
  from_page empty =
      let h₁ = grown v s class found.0 empty in
      let v₁ = grown-IsValid v s class found.0 empty in
      let (list, head) =
        blocks_from-head (h.descriptors class).total_block s.page (h.descriptors class).block_size 0
          (v.some_block class found.0) in
      let p = s.page + sizeof_arena + 0 * (h.descriptors class).block_size in
      let first : (h₁.descriptors class).free_list ≡ p ∷ list = rw (==_refl class) head in
      let new : elem p (fresh v s class found.0 empty) ≡ true = rw head (ground arith) in
      let arena : get_arena_from_block p ≡ s.page = fresh-arena v s class found.0 empty p new in
      let same = size_same v s class found.0 empty class in
      let (h', result, taken) = take_block_lem v₁ class p list found.0 first in
      (
        p,
        h',
        rw (grow_lem v s class found.0 empty) result,
        record {
          valid = taken.valid;
          in_range = found.0;
          large_enough = found.1;
          tight = found.2;
          block = taken.block;
          zeroed = λ at inside. taken.zeroed at (rw same inside);
          rest = λ at outside other.
              let clear : in_buffer s.page page_bytes at ≡ false = rw (empty, arena) at other in
              taken.rest at (rw same outside)
              ∙ memset_lem page_bytes h.memory s.page 0 at
              ∙ rw clear refl;
          gone = taken.gone;
          others = λ e apart.
              taken.others e apart
              ∙ update-other h.descriptors class (longer v s class found.0 empty) e apart;
          count =
              taken.count
              ∙ ap (λ x. x.count) (new_header v s class found.0 empty p new)
              ∙ rw empty refl;
        },
      )

List-cases : (list : List ℕ) → (list ≡ []) ⊎ ((p : ℕ) × (rest : List ℕ) × (list ≡ p ∷ rest))
List-cases [] = inl refl
List-cases (p ∷ rest) = inr (p, rest, refl)

-- In a heap that holds its invariant, and with a page to be had in which no free block of the heap lies,
-- `kmalloc` of a size that is not above the largest block size ends. Its block is one of the first
-- descriptor whose blocks have the size, lies in an arena of that descriptor behind the header, is all
-- zero, and is in no free list. The arena has one free block less, or all but one of a new page if the
-- free list was empty. The other descriptors are as before, and so is every byte outside the
-- block or, if the free list was empty, outside the new page. The invariant holds again.
pub kmalloc_lem :
    {h : Heap}
    → IsValid h
    → Supply h
    → (size : ℕ) → size ≤ max_block_size h
    → (p : ℕ) × (h' : Heap) × (kmalloc h size ≡ ok (p, h'))
      × Allocated h size (find_descriptor (arena_desc_count - 1) h size 0) p h'
unfolding kmalloc
kmalloc_lem {h} v s size fits =
    let small : ltb (max_block_size h) size ≡ false = ground arith in
    elim (List-cases (h.descriptors (find_descriptor (arena_desc_count - 1) h size 0)).free_list) [
      | inl empty ↦
          let (p, h', result, a) = from_page v s size fits empty in
          (p, h', rw (small, empty) result, a)
      | inr (p, list, head) ↦
          let (h', result, a) = from_list v s size fits p list head in
          (p, h', rw (small, head) result, a)
    ]
