-- ===== src/Arena/Grow.antt =====
-- A page more for a descriptor whose free list is empty.
use txos.Base.{
  ◌≤◌, ◌+◌, ◌^◌, ℕ, ◌%◌, ◌<◌, ◌≡◌, ◌≢◌, refl, ap, ◌∙◌, true, false, List, [], some, ok, arith, elem,
  ◌==◌, update, update-field, update-other, Bool-cases, inl, inr, ==_iff, ==_refl,
}
use txos.Task.{xos_magic}
use txos.Bitmap.{Bitmap}
use txos.Bitmap.Valid.{used}
use txos.Bitmap.Scan.{free_run}
use txos.Bitmap.Valid
use txos.PhysMem.{page_addr, page_idx}
use txos.Paging.{kalloc_page}
use txos.Paging.Kernel.{kalloc_page_lem}
use txos.Strings.{memset}
use txos.Arena.{
  Heap, ArenaDescriptor, Header, arena_desc_count, get_arena_from_block, set_free_list, grow,
  page_bytes,
}
use txos.Arena.Blocks.{
  free_in, blocks_from, elem-blocks_from, distinct-blocks_from,
  get_arena_from_block-get_block_from_arena, free_in-blocks_from, add_blocks-blocks_from,
}
use txos.Arena.Valid.{IsBlock, IsValid, IsBlock-kept, header_of, is_free}

-- A page that `kalloc_page` has: its start, with none of the heap's free blocks in it.
pub record Supply (h : Heap) : Type 0 where
  pub page : ℕ
  pub map : Bitmap
  pub given : kalloc_page h.map 1 ≡ ok (page, map)
  pub aligned : page % page_bytes ≡ 0
  pub unused :
      (d p : ℕ) → d < arena_desc_count → is_free h d p ≡ true → page ≢ get_arena_from_block p

-- A free page of the bitmap, which counts the pages of all free blocks as used, is a supply.
pub free_run-Supply :
    {h : Heap} (a : ℕ)
    → Valid.IsValid h.map
    → h.map.length ≤ 2 ^ 20
    → h.map.offset ≤ a
    → a + 1 ≤ h.map.length
    → free_run h.map a 1 ≡ true
    → ((d p : ℕ) → d < arena_desc_count → is_free h d p ≡ true → used h.map (page_idx p) ≡ true)
    → Supply h
free_run-Supply {h} a v small low high free held =
    let (s, map, given, run, from, reach, marked) =
      kalloc_page_lem 1 a v small (omega arith) low high free in
    let unused : used h.map s ≡ false = ground arith in
    record {
      page = page_addr s;
      map = map;
      given = given;
      aligned = omega arith;
      unused = λ d p less at same.
          let idx : page_idx p ≡ s = omega arith in cc (rw idx at (held d p less at));
    }

module _ {h : Heap} (v : IsValid h) (s : Supply h) (d : ℕ) (in_range : d < arena_desc_count)
    (empty : (h.descriptors d).free_list ≡ []) where
  abbrev size : ℕ
  size = (h.descriptors d).block_size

  abbrev total : ℕ
  total = (h.descriptors d).total_block

  abbrev header : Header
  header = record { desc = some d; count = total; large = false; magic = xos_magic }

  abbrev pub fresh : List ℕ
  fresh = blocks_from total s.page size 0

  abbrev with_page : Heap
  with_page = record h {
    map = s.map;
    memory = memset page_bytes h.memory s.page 0;
    arenas = update h.arenas s.page header;
  }

  abbrev pub grown : Heap
  grown = set_free_list with_page d fresh

  abbrev pub longer : ArenaDescriptor
  longer = record (h.descriptors d) { free_list = fresh }

  pub size_same : (e : ℕ) → (grown.descriptors e).block_size ≡ (h.descriptors e).block_size
  size_same e = update-field (λ (x : ArenaDescriptor). x.block_size) h.descriptors d longer e refl

  total_same : (e : ℕ) → (grown.descriptors e).total_block ≡ (h.descriptors e).total_block
  total_same e = update-field (λ (x : ArenaDescriptor). x.total_block) h.descriptors d longer e refl

  -- the arena of each new block
  pub fresh-arena : (p : ℕ) → elem p fresh ≡ true → get_arena_from_block p ≡ s.page
  fresh-arena p at =
      let (k, low, high, e) = elem-blocks_from total s.page size 0 p at in
      rw e (
        get_arena_from_block-get_block_from_arena size total s.page (v.positive d in_range)
          (v.fits d in_range) s.aligned k (omega arith))

  pub new_header : (p : ℕ) → elem p fresh ≡ true → header_of grown p ≡ header
  new_header p at = rw (fresh-arena p at, ==_refl s.page) refl

  old_header :
      (e p : ℕ) → e < arena_desc_count → is_free h e p ≡ true → header_of grown p ≡ header_of h p
  old_header e p less at =
      update-other h.arenas s.page header (get_arena_from_block p) (s.unused e p less at)

  fresh-IsBlock : (p : ℕ) → elem p fresh ≡ true → IsBlock grown d p
  fresh-IsBlock p at =
      let (k, low, high, e) = elem-blocks_from total s.page size 0 p at in
      record {
        index = k;
        below = rw (total_same d) (omega arith);
        address = rw (size_same d, fresh-arena p at) e;
        magic = ap (λ x. x.magic) (new_header p at);
        small = ap (λ x. x.large) (new_header p at);
        desc = ap (λ x. x.desc) (new_header p at);
      }

  grown-blocks : (e p : ℕ) → e < arena_desc_count → is_free grown e p ≡ true → IsBlock grown e p
  grown-blocks e p less at = elim (Bool-cases (d == e)) [
    | inl same ↦ let e' : d ≡ e = (==_iff d e).0 same in rw (← e') (fresh-IsBlock p (rw same at at))
    | inr other ↦
        let was : is_free h e p ≡ true = rw other at at in
        let keep = old_header e p less was in
        IsBlock-kept h grown e p (total_same e) (size_same e) (ap (λ x. x.magic) keep)
          (ap (λ x. x.large) keep) (ap (λ x. x.desc) keep) (v.blocks e p less was)
  ]

  grown-counted :
      (e p : ℕ)
      → e < arena_desc_count
      → is_free grown e p ≡ true
      → (header_of grown p).count ≡ free_in (get_arena_from_block p) (grown.descriptors e).free_list
  grown-counted e p less at = elim (Bool-cases (d == e)) [
    | inl same ↦
        let now : elem p fresh ≡ true = rw same at at in
        ap (λ x. x.count) (new_header p now)
        ∙ rw
            (
              same,
              fresh-arena p now,
              free_in-blocks_from size total s.page (v.positive d in_range) (v.fits d in_range)
                  s.aligned total 0 s.page (omega arith),
              ==_refl s.page,
            )
            refl
    | inr other ↦
        let was : is_free h e p ≡ true = rw other at at in
        ap (λ x. x.count) (old_header e p less was) ∙ rw other (v.counted e p less was)
  ]

  pub grown-IsValid : IsValid grown
  grown-IsValid = record {
    positive = λ e less. rw (size_same e) (v.positive e less);
    some_block = λ e less. rw (total_same e) (v.some_block e less);
    small_total = λ e less. rw (total_same e) (v.small_total e less);
    fits = λ e less. rw (total_same e, size_same e) (v.fits e less);
    once = λ e less. elim (Bool-cases (d == e)) [
      | inl same ↦ rw same (distinct-blocks_from total s.page size 0 (v.positive d in_range))
      | inr other ↦ rw other (v.once e less)
    ];
    blocks = grown-blocks;
    small_count = λ a. elim (Bool-cases (s.page == a)) [
      | inl same ↦ rw same (v.small_total d in_range)
      | inr other ↦ rw other (v.small_count a)
    ];
    counted = grown-counted;
  }

  -- An empty free list gets all the blocks of the new page.
  pub grow_lem : grow h d ≡ ok grown
  unfolding grow
  grow_lem =
      rw
        (
          s.given,
          empty,
          add_blocks-blocks_from size total s.page (v.positive d in_range) (v.fits d in_range)
              s.aligned with_page d total 0 [] (rw (==_refl s.page) refl) refl refl (omega arith)
              (λ p at. absurd (cc)),
        )
        refl
