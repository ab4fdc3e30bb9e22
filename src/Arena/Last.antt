-- ===== src/Arena/Last.antt =====
-- `kfree` of the last block in use of an arena.
use txos.Base.{
  ℕ, ◌+◌, ◌%◌, ◌<◌, ◌≤◌, ◌≡◌, ◌≢◌, refl, sym, ap, ◌∙◌, true, false, List, [], ◌∷◌, ◌++◌, some, ok,
  null, arith, elem, distinct, elem-append, ◌==◌, update-field, Bool-cases, inl, inr, ==_iff,
  ==_refl, ==_ne,
}
use txos.NodeList.Sequence.{push_back}
use txos.Bitmap.{Bitmap}
use txos.Paging.{kfree_page}
use txos.Arena.{
  Heap, ArenaDescriptor, arena_desc_count, get_arena_from_block, set_free_list, drop_blocks, kfree,
  page_bytes,
}
use txos.Arena.Blocks.{free_in}
use txos.Arena.Valid.{IsValid, IsBlock-kept, header_of, is_free}
use txos.Arena.Free.{InUse, freed, freed-IsValid, no_wrap, free_in-snoc}
use txos.Arena.Release.{block_at, all_blocks}
use txos.Arena.Drop.{
  dropped, elem-dropped, dropped-other, dropped-keeps, distinct-dropped, drop_blocks-dropped,
}

-- What `kfree` of the last block in use of an arena leaves.
pub record Released (h : Heap) (p : ℕ) (map' : Bitmap) (h' : Heap) : Type 0 where
  pub valid : IsValid h'
  pub gone :
      (e q : ℕ)
      → e < arena_desc_count
      → get_arena_from_block p ≡ get_arena_from_block q
      → is_free h' e q ≡ false
  pub kept :
      (e q : ℕ) → get_arena_from_block p ≢ get_arena_from_block q → is_free h' e q ≡ is_free h e q
  pub memory : h'.memory ≡ h.memory
  pub map : h'.map ≡ map'

module _ {h : Heap} (v : IsValid h) (d p : ℕ) (u : InUse h d p) (map : Bitmap)
    (last : (header_of h p).count + 1 ≡ (h.descriptors d).total_block)
    (page_freed : kfree_page h.map (get_arena_from_block p) 1 ≡ ok map) where
  abbrev arena : ℕ
  arena = get_arena_from_block p

  abbrev size : ℕ
  size = (h.descriptors d).block_size

  abbrev total : ℕ
  total = (h.descriptors d).total_block

  abbrev with_block : List ℕ
  with_block = (h.descriptors d).free_list ++ p ∷ []

  abbrev left_over : List ℕ
  left_over = dropped total arena size 0 with_block

  abbrev before : Heap
  before = freed v d p u

  abbrev released : Heap
  released = record (set_free_list before d left_over) { map = map }

  before-IsValid : IsValid before
  before-IsValid = freed-IsValid v d p u

  aligned : arena % page_bytes ≡ 0
  aligned = omega arith

  before_list : (before.descriptors d).free_list ≡ with_block
  before_list = rw (==_refl d) refl

  before_size : (before.descriptors d).block_size ≡ size
  before_size = rw (==_refl d) refl

  before_total : (before.descriptors d).total_block ≡ total
  before_total = rw (==_refl d) refl

  once : distinct with_block ≡ true
  once = rw before_list at (before-IsValid.once d u.in_range)

  is_block :
      (q : ℕ)
      → elem q with_block ≡ true
      → get_arena_from_block q ≡ arena
      → (k : ℕ) × (k < total) × (q ≡ block_at arena size k)
  is_block q at same =
      let b = before-IsValid.blocks d q u.in_range (rw before_list at) in
      (b.index, rw before_total at b.below, b.address ∙ rw (same, before_size) refl)

  all_free : (k : ℕ) → k < total → elem (block_at arena size k) with_block ≡ true
  all_free =
      let counted : total ≤ free_in arena with_block =
        rw (free_in-snoc arena (h.descriptors d).free_list p, ==_refl arena)
          (omega (arith, u.counted, last)) in
      all_blocks arena size (v.positive d u.in_range) total with_block once is_block counted

  loop : drop_blocks total before arena 0 with_block ≡ ok left_over
  loop =
      drop_blocks-dropped size total arena (v.positive d u.in_range) (v.fits d u.in_range) aligned
        before d total 0 with_block (rw (==_refl arena) u.block.desc) before_size before_total
        (omega arith) (λ k low high. all_free k (omega arith))

  -- What is left over was in the list and lies in other arenas.
  left_over-elem :
      (q : ℕ)
      → elem q left_over ≡ true
      → (elem q with_block ≡ true) × (arena ≢ get_arena_from_block q)
  left_over-elem q at =
      let (old, apart) =
        elem-dropped size total arena (v.positive d u.in_range) (v.fits d u.in_range) aligned total
          0 with_block q at in
      (
        old,
        λ same.
            let (k, less, e) = is_block q old (sym same) in
            apart k (omega arith) (omega arith) (sym e),
      )

  abbrev shorter : ArenaDescriptor
  shorter = record (before.descriptors d) { free_list = left_over }

  size_same : (e : ℕ) → (released.descriptors e).block_size ≡ (before.descriptors e).block_size
  size_same e =
      update-field (λ (x : ArenaDescriptor). x.block_size) before.descriptors d shorter e refl

  total_same : (e : ℕ) → (released.descriptors e).total_block ≡ (before.descriptors e).total_block
  total_same e =
      update-field (λ (x : ArenaDescriptor). x.total_block) before.descriptors d shorter e refl

  was : (e q : ℕ) → is_free released e q ≡ true → is_free before e q ≡ true
  was e q at = elim (Bool-cases (d == e)) [
    | inl same ↦ rw same (left_over-elem q (rw same at at)).0
    | inr other ↦ rw other (rw other at at)
  ]

  released-counted :
      (e q : ℕ)
      → e < arena_desc_count
      → is_free released e q ≡ true
      → (header_of released q).count
        ≡ free_in (get_arena_from_block q) (released.descriptors e).free_list
  released-counted e q less at =
      let old = before-IsValid.counted e q less (was e q at) in
      elim (Bool-cases (d == e)) [
        | inl same ↦
            let apart = (left_over-elem q (rw same at at)).1 in
            old
            ∙ rw same (
                sym (
                  dropped-other size total arena (v.positive d u.in_range) (v.fits d u.in_range)
                    aligned total 0 with_block (get_arena_from_block q) (omega arith) apart))
        | inr other ↦ rw other (rw other at old)
      ]

  released-IsValid : IsValid released
  released-IsValid = record {
    positive = λ e less. rw (size_same e) (before-IsValid.positive e less);
    some_block = λ e less. rw (total_same e) (before-IsValid.some_block e less);
    small_total = λ e less. rw (total_same e) (before-IsValid.small_total e less);
    fits = λ e less. rw (total_same e, size_same e) (before-IsValid.fits e less);
    once = λ e less. elim (Bool-cases (d == e)) [
      | inl same ↦ rw same (
          distinct-dropped size total arena (v.positive d u.in_range) (v.fits d u.in_range) aligned
            total 0 with_block once)
      | inr other ↦ rw other (rw other at (before-IsValid.once e less))
    ];
    blocks = λ e q less at.
        IsBlock-kept before released e q (total_same e) (size_same e) refl refl refl
          (before-IsValid.blocks e q less (was e q at));
    small_count = before-IsValid.small_count;
    counted = released-counted;
  }

  released-gone :
      (e q : ℕ)
      → e < arena_desc_count
      → arena ≡ get_arena_from_block q
      → is_free released e q ≡ false
  released-gone e q less same = elim (Bool-cases (is_free released e q)) [
    | inl at ↦
        let its = (before-IsValid.blocks e q less (was e q at)).desc in
        let keep : (header_of before q).desc ≡ (header_of h q).desc =
          update-field (λ x. x.desc) h.arenas arena _ (get_arena_from_block q) refl in
        let both : some d ≡ some e =
          sym u.block.desc ∙ ap (λ a. (h.arenas a).desc) same ∙ sym keep ∙ its in
        let e' : d ≡ e = cc in
        let here : (d == e) ≡ true = (==_iff d e).1 e' in
        absurd ((left_over-elem q (rw here at at)).1 same)
    | inr out ↦ out
  ]

  released-kept : (e q : ℕ) → arena ≢ get_arena_from_block q → is_free released e q ≡ is_free h e q
  released-kept e q apart = elim (Bool-cases (d == e)) [
    | inl same ↦
        let e' : d ≡ e = (==_iff d e).0 same in
        let other : (p == q) ≡ false =
          ==_ne p q (λ c. apart (ap (λ x. get_arena_from_block x) c)) in
        rw (same, ← e')
          (dropped-keeps size total arena (v.positive d u.in_range) (v.fits d u.in_range) aligned
              total 0 with_block q (omega arith) apart
            ∙ elem-append q (h.descriptors d).free_list (p ∷ [])
            ∙ rw other (ground arith))
    | inr other ↦ rw other refl
  ]

  -- `kfree` of the last block in use of an arena, in a heap that holds its invariant, ends where
  -- `kfree_page` of the page of the arena does. It takes all blocks of the arena out of the free lists
  -- and gives the page back; of the other arenas the same blocks are free as before, the bytes are
  -- as before, and the invariant holds again.
  pub kfree-last_lem : (h' : Heap) × (kfree h p ≡ ok h') × Released h p map h'
  unfolding kfree push_back
  kfree-last_lem =
      let real : (p == null) ≡ false = let a = u.block.address in ground arith in
      let all = no_wrap v d p u ∙ last in
      (
        released,
        rw
            (
              real,
              u.block.magic,
              u.block.small,
              u.block.desc,
              u.held,
              ==_refl d,
              all,
              ==_refl total,
              rw (u.block.magic, u.block.small, u.block.desc, all) at loop,
              page_freed,
            )
            refl,
        record {
          valid = released-IsValid;
          gone = released-gone;
          kept = released-kept;
          memory = refl;
          map = refl;
        },
      )
