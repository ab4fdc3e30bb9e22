-- ===== src/Arena/Blocks.antt =====
-- Where the blocks of an arena lie, and the free list that a new arena gives.
use mathlib.Core.List.{append-nil, append_assoc}
use txos.Base.{
  ==_refl, ap, ℕ, zero, suc, ◌+◌, ◌-◌, ◌*◌, ◌%◌, ◌<◌, ◌≤◌, ◌≡◌, refl, ◌∙◌, true, false, List, [],
  ◌∷◌, ◌++◌, some, ok, arith, elem, distinct, elem-append, ◌==◌, ltb, leb, if◌then◌else◌,
  Bool-cases, inl, inr, ==_iff,
}
use txos.NodeList.Sequence.{push_back}
use txos.Arena.{
  Heap, get_block_from_arena, get_arena_from_block, find_descriptor, add_blocks, page_bytes,
  sizeof_arena,
}

-- the number of blocks of a list that lie in an arena
unfoldable pub free_in : (arena : ℕ) → List ℕ → ℕ
free_in arena [] = 0
free_in arena (p ∷ list) =
    let rest = free_in arena list in if get_arena_from_block p == arena then suc rest else rest

-- `left` blocks of an arena, from block `i` on
unfoldable pub blocks_from : (left arena size i : ℕ) → List ℕ
blocks_from zero arena size i = []
blocks_from (suc left) arena size i =
    (arena + sizeof_arena + i * size) ∷ blocks_from left arena size (i + 1)

pub elem-blocks_from :
    (left arena size i p : ℕ)
    → elem p (blocks_from left arena size i) ≡ true
    → (k : ℕ) × (i ≤ k) × (k < i + left) × (p ≡ arena + sizeof_arena + k * size)
unfolding blocks_from
elem-blocks_from zero arena size i p h = cc
elem-blocks_from (suc left) arena size i p h =
    elim (Bool-cases (arena + sizeof_arena + i * size == p)) [
      | inl here ↦ (i, omega arith, omega arith, ground arith)
      | inr there ↦
          let (k, low, high, e) = elem-blocks_from left arena size (i + 1) p (ground arith) in
          (k, omega arith, omega arith, e)
    ]

-- a later block has a higher address
pub block_order : (size i k : ℕ) → 0 < size → i < k → i * size + size ≤ k * size
block_order size i k pos less =
    let gap = k - (i + 1) in
    let e : k ≡ i + 1 + gap = omega arith in
    let split : (i + 1 + gap) * size ≡ i * size + size + gap * size = omega arith in
    rw (e, split) (omega arith)

pub distinct-blocks_from :
    (left arena size i : ℕ) → 0 < size → distinct (blocks_from left arena size i) ≡ true
unfolding blocks_from
distinct-blocks_from zero arena size i pos = refl
distinct-blocks_from (suc left) arena size i pos =
    let rest = distinct-blocks_from left arena size (i + 1) pos in
    elim (Bool-cases
      (elem (arena + sizeof_arena + i * size) (blocks_from left arena size (i + 1)))) [
        | inl again ↦
            let (k, low, high, e) = elem-blocks_from left arena size (i + 1) _ again in
            let up = block_order size i k pos (omega arith) in absurd (omega arith)
        | inr fresh ↦ rw fresh rest
      ]

-- A block inside the page of an arena leads back to the arena.
pub get_arena_from_block-inside :
    (arena offset : ℕ)
    → arena % page_bytes ≡ 0
    → offset < page_bytes
    → get_arena_from_block (arena + offset) ≡ arena
get_arena_from_block-inside arena offset aligned inside = omega arith

module _ (size total arena : ℕ) (pos : 0 < size) (fits : sizeof_arena + total * size ≤ page_bytes)
    (aligned : arena % page_bytes ≡ 0) where
  pub get_arena_from_block-get_block_from_arena :
      (k : ℕ) → k < total → get_arena_from_block (arena + sizeof_arena + k * size) ≡ arena
  get_arena_from_block-get_block_from_arena k less =
      let up = block_order size k total pos less in omega arith

  pub free_in-blocks_from :
      (left i at : ℕ)
      → i + left ≤ total
      → free_in at (blocks_from left arena size i) ≡ (if arena == at then left else 0)
  unfolding blocks_from free_in
  free_in-blocks_from zero i at room = ground arith
  free_in-blocks_from (suc left) i at room =
      rw
        (
          get_arena_from_block-get_block_from_arena i (omega arith),
          free_in-blocks_from left (i + 1) at (omega arith),
        )
        (ground arith)

  -- A new arena puts all its blocks into the list.
  pub add_blocks-blocks_from :
      (h : Heap) (d left i : ℕ) (list : List ℕ)
      → (h.arenas arena).desc ≡ some d
      → (h.descriptors d).block_size ≡ size
      → (h.descriptors d).total_block ≡ total
      → i + left ≤ total
      → ((p : ℕ) → elem p list ≡ true → p < arena + sizeof_arena + i * size)
      → add_blocks left h arena i list ≡ ok (list ++ blocks_from left arena size i)
  unfolding blocks_from add_blocks get_block_from_arena push_back
  add_blocks-blocks_from h d zero i list is_desc is_size is_total room below = rw append-nil refl
  add_blocks-blocks_from h d (suc left) i list is_desc is_size is_total room below =
      let block = arena + sizeof_arena + i * size in
      let inside : ltb i total ≡ true = ground arith in
      let up = block_order size i (i + 1) pos (omega arith) in
      let fresh : elem block list ≡ false = elim (Bool-cases (elem block list)) [
        | inl at ↦ absurd (omega (arith, below block at))
        | inr out ↦ out
      ] in
      let there : elem block (list ++ block ∷ []) ≡ true =
        rw (elem-append block list (block ∷ []), ==_refl block) (ground arith) in
      let more : (p : ℕ)
          → elem p (list ++ block ∷ []) ≡ true
          → p < arena + sizeof_arena + (i + 1) * size =
        λ p at. elim (Bool-cases (elem p list)) [
          | inl old ↦ omega (arith, below p old)
          | inr new ↦
              let e : block ≡ p = ground (arith, elem-append p list (block ∷ [])) in omega arith
        ] in
      rw (is_desc, is_total, inside, is_size, fresh, there)
        (add_blocks-blocks_from h d left (i + 1) (list ++ block ∷ []) is_desc is_size is_total
            (omega arith) more
          ∙ ap ok (append_assoc list (block ∷ []) (blocks_from left arena size (i + 1))))

-- The descriptor found is the first whose blocks are large enough.
pub find_descriptor_lem :
    (left : ℕ) (h : Heap) (size i : ℕ)
    → size ≤ (h.descriptors (i + left)).block_size
    → (i ≤ find_descriptor left h size i)
      × (find_descriptor left h size i ≤ i + left)
      × (size ≤ (h.descriptors (find_descriptor left h size i)).block_size)
      × ((j : ℕ) → i ≤ j → j < find_descriptor left h size i → (h.descriptors j).block_size < size)
unfolding find_descriptor
find_descriptor_lem zero h size i fits =
    let e : i + 0 ≡ i = omega arith in
    (omega arith, omega arith, rw e at fits, λ j low high. absurd (omega arith))
find_descriptor_lem (suc left) h size i fits =
    elim (Bool-cases (leb size (h.descriptors i).block_size)) [
      | inl here ↦
          rw here (omega arith, omega arith, ground arith, λ j low high. absurd (omega arith))
      | inr there ↦
          let e : i + 1 + left ≡ i + suc left = omega arith in
          let (low, high, large, first) = find_descriptor_lem left h size (i + 1) (rw e fits) in
          rw there (
            omega arith,
            omega arith,
            large,
            λ j from to. elim (Bool-cases (i == j)) [
              | inl same ↦ rw (← (==_iff i j).0 same) (ground arith)
              | inr other ↦ first j (ground arith) to
            ],
          )
    ]
