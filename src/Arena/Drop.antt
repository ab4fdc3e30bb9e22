-- ===== src/Arena/Drop.antt =====
-- The loop of `kfree` that takes the blocks of an arena out of the free list.
use txos.Base.{
  ℕ, zero, suc, ◌+◌, ◌*◌, ◌%◌, ◌<◌, ◌≤◌, ◌≡◌, ◌≢◌, refl, sym, ap, ◌∙◌, true, false, List, [], ◌∷◌,
  some, ok, arith, elem, distinct, ltb, ◌==◌, Bool-cases, inl, inr, ==_iff, ==_refl, ==_ne,
}
use txos.NodeList.Sequence.{without, elem-without, distinct-without}
use txos.Arena.{
  Heap, get_arena_from_block, get_block_from_arena, drop_blocks, page_bytes, sizeof_arena,
}
use txos.Arena.Blocks.{free_in, get_arena_from_block-get_block_from_arena}
use txos.Arena.Release.{block_at, block_at-injective}

-- the list after the loop
unfoldable pub dropped : (left arena size i : ℕ) → List ℕ → List ℕ
dropped zero arena size i list = list
dropped (suc left) arena size i list =
    dropped left arena size (i + 1) (without list (block_at arena size i))

-- A list loses none of the blocks of another arena with a block that it does not have there.
free_in-without :
    (a : ℕ) (list : List ℕ) (node : ℕ)
    → get_arena_from_block node ≢ a
    → free_in a (without list node) ≡ free_in a list
unfolding free_in without
free_in-without a [] node apart = refl
free_in-without a (x ∷ list) node apart = elim (Bool-cases (x == node)) [
  | inl same ↦
      let e : x ≡ node = (==_iff x node).0 same in
      rw (same, e, ==_ne (get_arena_from_block node) a apart) (free_in-without a list node apart)
  | inr other ↦ rw (other, free_in-without a list node apart) refl
]

module _ (size total arena : ℕ) (pos : 0 < size) (fits : sizeof_arena + total * size ≤ page_bytes)
    (aligned : arena % page_bytes ≡ 0) where
  pub elem-dropped :
      (left i : ℕ) (list : List ℕ) (q : ℕ)
      → elem q (dropped left arena size i list) ≡ true
      → (elem q list ≡ true) × ((k : ℕ) → i ≤ k → k < i + left → block_at arena size k ≢ q)
  unfolding dropped
  elem-dropped zero i list q at = (at, λ k low high. absurd (omega arith))
  elem-dropped (suc left) i list q at =
      let (before, apart) = elem-dropped left (i + 1) (without list (block_at arena size i)) q at in
      let split = elem-without q list (block_at arena size i) in
      (
        ground arith,
        λ k low high. elim (Bool-cases (i == k)) [
          | inl same ↦ rw (← (==_iff i k).0 same) (ground arith)
          | inr other ↦ apart k (ground arith) (omega arith)
        ],
      )

  -- a block of another arena stays
  pub dropped-other :
      (left i : ℕ) (list : List ℕ) (a : ℕ)
      → i + left ≤ total
      → arena ≢ a
      → free_in a (dropped left arena size i list) ≡ free_in a list
  unfolding dropped
  dropped-other zero i list a room apart = refl
  dropped-other (suc left) i list a room apart =
      let mine =
        get_arena_from_block-get_block_from_arena size total arena pos fits aligned i
          (omega arith) in
      dropped-other left (i + 1) (without list (block_at arena size i)) a (omega arith) apart
      ∙ free_in-without a list (block_at arena size i) (λ e. apart (sym mine ∙ e))

  pub dropped-keeps :
      (left i : ℕ) (list : List ℕ) (q : ℕ)
      → i + left ≤ total
      → arena ≢ get_arena_from_block q
      → elem q (dropped left arena size i list) ≡ elem q list
  unfolding dropped
  dropped-keeps zero i list q room apart = refl
  dropped-keeps (suc left) i list q room apart =
      let mine =
        get_arena_from_block-get_block_from_arena size total arena pos fits aligned i
          (omega arith) in
      let other : block_at arena size i ≢ q =
        λ e. apart (sym mine ∙ ap (λ x. get_arena_from_block x) e) in
      dropped-keeps left (i + 1) (without list (block_at arena size i)) q (omega arith) apart
      ∙ elem-without q list (block_at arena size i)
      ∙ rw (==_ne (block_at arena size i) q other) refl

  pub distinct-dropped :
      (left i : ℕ) (list : List ℕ)
      → distinct list ≡ true
      → distinct (dropped left arena size i list) ≡ true
  unfolding dropped
  distinct-dropped zero i list once = once
  distinct-dropped (suc left) i list once =
      distinct-dropped left (i + 1) (without list (block_at arena size i))
        (distinct-without list (block_at arena size i) once)

  -- Where all the blocks are in the list, the loop ends.
  pub drop_blocks-dropped :
      (h : Heap) (d left i : ℕ) (list : List ℕ)
      → (h.arenas arena).desc ≡ some d
      → (h.descriptors d).block_size ≡ size
      → (h.descriptors d).total_block ≡ total
      → i + left ≤ total
      → ((k : ℕ) → i ≤ k → k < i + left → elem (block_at arena size k) list ≡ true)
      → drop_blocks left h arena i list ≡ ok (dropped left arena size i list)
  unfolding dropped drop_blocks get_block_from_arena
  drop_blocks-dropped h d zero i list is_desc is_size is_total room all = refl
  drop_blocks-dropped h d (suc left) i list is_desc is_size is_total room all =
      let block = block_at arena size i in
      let inside : ltb i total ≡ true = ground arith in
      let here = all i (omega arith) (omega arith) in
      let out : elem block (without list block) ≡ false =
        elem-without block list block ∙ rw (==_refl block) refl in
      rw (is_desc, is_total, inside, is_size, here, out)
        (drop_blocks-dropped h d left (i + 1) (without list block) is_desc is_size is_total
          (omega arith)
          (λ k low high.
            let other = block_at-injective arena size pos i k (omega arith) in
            elem-without (block_at arena size k) list block
            ∙ rw (==_ne block (block_at arena size k) other, all k (omega arith) (omega arith))
                refl))
