-- ===== src/Arena/Free.antt =====
-- `kfree` of a block whose arena keeps another block in use.
use txos.Base.{
  ℕ, ◌+◌, ◌%◌, ◌<◌, ◌≡◌, ◌≢◌, ◌⊎◌, refl, sym, ap, ◌∙◌, true, false, List, [], ◌∷◌, ◌++◌, some, ok,
  null, arith, elem, distinct, elem-append, ◌==◌, if◌then◌else◌, update, update-field, update-other,
  Bool-cases, inl, inr, ==_iff, ==_refl, ==_ne,
}
use txos.Stdlib.{word}
use txos.NodeList.Sequence.{push_back}
use txos.Arena.{
  Heap, ArenaDescriptor, Header, arena_desc_count, get_arena_from_block, set_free_list, kfree,
}
use txos.Arena.Blocks.{free_in}
use txos.Arena.Valid.{IsBlock, IsValid, IsBlock-kept, header_of, is_free}

pub free_in-snoc :
    (a : ℕ) (list : List ℕ) (p : ℕ)
    → free_in a (list ++ p ∷ []) ≡ free_in a list + (if get_arena_from_block p == a then 1 else 0)
unfolding free_in
free_in-snoc a [] p = ground arith
free_in-snoc a (x ∷ list) p = ground (arith, free_in-snoc a list p)

snoc-distinct :
    (list : List ℕ) (p : ℕ)
    → distinct list ≡ true
    → elem p list ≡ false
    → distinct (list ++ p ∷ []) ≡ true
snoc-distinct [] p h out = refl
snoc-distinct (x ∷ list) p h out = ground (arith, snoc-distinct list p, elem-append x list (p ∷ []))

-- A block in use, in an arena that counts its free blocks, of which there are fewer than blocks.
pub record InUse (h : Heap) (d p : ℕ) : Type 0 where
  pub in_range : d < arena_desc_count
  pub block : IsBlock h d p
  pub held : is_free h d p ≡ false
  pub counted : (header_of h p).count ≡ free_in (get_arena_from_block p) (h.descriptors d).free_list
  pub not_free : (header_of h p).count < (h.descriptors d).total_block

-- What `kfree` of the block leaves.
pub record Freed (h : Heap) (d p : ℕ) (h' : Heap) : Type 0 where
  pub valid : IsValid h'
  pub last : (h'.descriptors d).free_list ≡ (h.descriptors d).free_list ++ p ∷ []
  pub others : (e : ℕ) → d ≢ e → h'.descriptors e ≡ h.descriptors e
  pub count : (header_of h' p).count ≡ (header_of h p).count + 1
  pub memory : h'.memory ≡ h.memory
  pub map : h'.map ≡ h.map

module _ {h : Heap} (v : IsValid h) (d p : ℕ) (u : InUse h d p) where
  abbrev header : Header
  header = header_of h p

  abbrev pub list : List ℕ
  list = (h.descriptors d).free_list

  abbrev counted_up : Header
  counted_up = record header { count = (header.count + 1) % word }

  abbrev longer : ArenaDescriptor
  longer = record (h.descriptors d) { free_list = list ++ p ∷ [] }

  abbrev pub freed : Heap
  freed = record (set_free_list h d (list ++ p ∷ [])) {
    arenas = update h.arenas (get_arena_from_block p) counted_up;
  }

  pub no_wrap : (header.count + 1) % word ≡ header.count + 1
  no_wrap = let less = v.small_total d u.in_range in omega (arith, u.not_free)

  size_same : (e : ℕ) → (freed.descriptors e).block_size ≡ (h.descriptors e).block_size
  size_same e = update-field (λ (x : ArenaDescriptor). x.block_size) h.descriptors d longer e refl

  total_same : (e : ℕ) → (freed.descriptors e).total_block ≡ (h.descriptors e).total_block
  total_same e = update-field (λ (x : ArenaDescriptor). x.total_block) h.descriptors d longer e refl

  header_same {ℓ} :
      {W : Type ℓ} (field : Header → W) (q : ℕ)
      → field counted_up ≡ field header
      → field (header_of freed q) ≡ field (header_of h q)
  header_same field q same = update-field field h.arenas (get_arena_from_block p) _ _ same

  freed-IsBlock : (e q : ℕ) → IsBlock h e q → IsBlock freed e q
  freed-IsBlock e q b =
      IsBlock-kept h freed e q (total_same e) (size_same e) (header_same (λ x. x.magic) q refl)
        (header_same (λ x. x.large) q refl) (header_same (λ x. x.desc) q refl) b

  -- A free block was free before, or is the one that is freed.
  was : (e q : ℕ) → is_free freed e q ≡ true → (is_free h e q ≡ true) ⊎ ((d ≡ e) × (p ≡ q))
  was e q at = elim (Bool-cases (d == e)) [
    | inl same ↦
        let e' : d ≡ e = (==_iff d e).0 same in
        let now : elem q (list ++ p ∷ []) ≡ true = rw same at at in
        elim (Bool-cases (elem q list)) [
          | inl old ↦ inl (rw (← e') old)
          | inr new ↦ inr (e', ground (arith, elem-append q list (p ∷ [])))
        ]
    | inr other ↦ inl (rw other at at)
  ]

  old-IsBlock : (e q : ℕ) → e < arena_desc_count → is_free freed e q ≡ true → IsBlock h e q
  old-IsBlock e q less at = elim (was e q at) [
    | inl old ↦ v.blocks e q less old
    | inr (same, here) ↦ rw (← same, ← here) u.block
  ]

  same_descriptor :
      (e q : ℕ) → IsBlock h e q → get_arena_from_block p ≡ get_arena_from_block q → d ≡ e
  same_descriptor e q b same =
      let both : some d ≡ some e = sym u.block.desc ∙ ap (λ a. (h.arenas a).desc) same ∙ b.desc in
      cc

  freed-counted :
      (e q : ℕ)
      → e < arena_desc_count
      → is_free freed e q ≡ true
      → (header_of freed q).count ≡ free_in (get_arena_from_block q) (freed.descriptors e).free_list
  freed-counted e q less at = elim (Bool-cases (get_arena_from_block p == get_arena_from_block q)) [
    | inl same ↦
        let arena = (==_iff (get_arena_from_block p) (get_arena_from_block q)).0 same in
        let e' : d ≡ e = same_descriptor e q (old-IsBlock e q less at) arena in
        let here : (d == e) ≡ true = (==_iff d e).1 e' in
        rw
          (
            same,
            here,
            ← arena,
            no_wrap,
            free_in-snoc (get_arena_from_block p) list p,
            ==_refl (get_arena_from_block p),
          )
          (ap (λ n. n + 1) u.counted)
    | inr apart ↦ rw apart (elim (was e q at) [
      | inl old ↦ elim (Bool-cases (d == e)) [
        | inl here ↦
            let e' : d ≡ e = (==_iff d e).0 here in
            rw (here, free_in-snoc (get_arena_from_block q) list p, apart)
              (let c = v.counted d q u.in_range (rw e' old) in omega (arith, c))
        | inr there ↦ rw there (v.counted e q less old)
      ]
      | inr (same, here) ↦ absurd (cc (rw (here, ==_refl (get_arena_from_block q)) at apart))
    ])
  ]

  pub freed-IsValid : IsValid freed
  freed-IsValid = record {
    positive = λ e less. rw (size_same e) (v.positive e less);
    some_block = λ e less. rw (total_same e) (v.some_block e less);
    small_total = λ e less. rw (total_same e) (v.small_total e less);
    fits = λ e less. rw (total_same e, size_same e) (v.fits e less);
    once = λ e less. elim (Bool-cases (d == e)) [
      | inl same ↦ rw same (snoc-distinct list p (v.once d u.in_range) u.held)
      | inr other ↦ rw other (v.once e less)
    ];
    blocks = λ e q less at. freed-IsBlock e q (old-IsBlock e q less at);
    small_count = λ a. elim (Bool-cases (get_arena_from_block p == a)) [
      | inl same ↦ rw same (omega arith)
      | inr other ↦ rw other (v.small_count a)
    ];
    counted = freed-counted;
  }

  -- `kfree` of a block in use, in an arena with another one in use and in a heap that holds its invariant,
  -- ends. It puts the block at the end of the free list of its descriptor and counts it in its
  -- arena; the other descriptors, the bytes and the bitmap of pages are as before, and the
  -- invariant holds again.
  pub kfree_lem :
      (header_of h p).count + 1 < (h.descriptors d).total_block
      → (h' : Heap) × (kfree h p ≡ ok h') × Freed h d p h'
  unfolding kfree push_back
  kfree_lem another =
      let real : (p == null) ≡ false = let a = u.block.address in ground arith in
      let not_all : (header.count + 1 == (h.descriptors d).total_block) ≡ false =
        ==_ne (header.count + 1) (h.descriptors d).total_block (omega (arith, another)) in
      (
        freed,
        rw (real, u.block.magic, u.block.small, u.block.desc, u.held, ==_refl d, no_wrap, not_all)
            refl,
        record {
          valid = freed-IsValid;
          last = rw (==_refl d) refl;
          others = λ e apart. update-other h.descriptors d longer e apart;
          count = rw (==_refl (get_arena_from_block p)) no_wrap;
          memory = refl;
          map = refl;
        },
      )
