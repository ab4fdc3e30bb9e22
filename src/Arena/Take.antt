-- ===== src/Arena/Take.antt =====
-- The first free block of a descriptor taken out.
use txos.Base.{
  ℕ, suc, ◌+◌, ◌-◌, ◌%◌, ◌<◌, ◌≡◌, ◌≢◌, refl, sym, ap, ◌∙◌, true, false, List, ◌∷◌, some, ok, arith,
  elem, distinct, ◌==◌, if◌then◌else◌, update, update-field, update-other, Bool-cases, inl, inr,
  ==_iff, ==_refl,
}
use txos.Stdlib.{word}
use txos.Strings.{memset}
use txos.Strings.Buffers.{in_buffer, memset_lem}
use txos.NodeList.Sequence.{pop_front}
use txos.Arena.{
  Heap, ArenaDescriptor, Header, arena_desc_count, get_arena_from_block, set_free_list, take_block,
}
use txos.Arena.Blocks.{free_in}
use txos.Arena.Valid.{IsBlock, IsValid, IsBlock-kept, header_of, is_free}

-- What taking the block `p` from the free list of `d` leaves.
pub record Taken (h : Heap) (d p : ℕ) (h' : Heap) : Type 0 where
  pub valid : IsValid h'
  pub block : IsBlock h' d p
  pub zeroed : (at : ℕ) → in_buffer p (h.descriptors d).block_size at ≡ true → h'.memory at ≡ 0
  pub rest :
      (at : ℕ) → in_buffer p (h.descriptors d).block_size at ≡ false → h'.memory at ≡ h.memory at
  pub gone : (e : ℕ) → e < arena_desc_count → is_free h' e p ≡ false
  pub first : (h.descriptors d).free_list ≡ p ∷ (h'.descriptors d).free_list
  pub others : (e : ℕ) → d ≢ e → h'.descriptors e ≡ h.descriptors e
  pub count : (header_of h' p).count + 1 ≡ (header_of h p).count

module _ {h : Heap} (v : IsValid h) (d p : ℕ) (list : List ℕ) (in_range : d < arena_desc_count)
    (head : (h.descriptors d).free_list ≡ p ∷ list) where
  abbrev header : Header
  header = header_of h p

  abbrev taken : Heap
  taken = record (set_free_list h d list) {
    memory = memset (h.descriptors d).block_size h.memory p 0;
    arenas =
        update h.arenas (get_arena_from_block p)
          (record header { count = (header.count + word - 1) % word });
  }

  abbrev shorter : ArenaDescriptor
  shorter = record (h.descriptors d) { free_list = list }

  size_same : (e : ℕ) → (taken.descriptors e).block_size ≡ (h.descriptors e).block_size
  size_same e = update-field (λ (x : ArenaDescriptor). x.block_size) h.descriptors d shorter e refl

  total_same : (e : ℕ) → (taken.descriptors e).total_block ≡ (h.descriptors e).total_block
  total_same e =
      update-field (λ (x : ArenaDescriptor). x.total_block) h.descriptors d shorter e refl

  head-is_free : is_free h d p ≡ true
  head-is_free = rw (head, ==_refl p) refl

  -- a block that is free after was free before
  still : (e q : ℕ) → is_free taken e q ≡ true → is_free h e q ≡ true
  still e q at = elim (Bool-cases (d == e)) [
    | inl same ↦
        let e' : d ≡ e = (==_iff d e).0 same in
        let old : elem q list ≡ true = rw same at at in rw (← e', head) (ground arith)
    | inr other ↦ rw other at at
  ]

  header_same {ℓ} :
      {W : Type ℓ} (field : Header → W) (q : ℕ)
      → field (record header { count = (header.count + word - 1) % word }) ≡ field header
      → field (header_of taken q) ≡ field (header_of h q)
  header_same field q same = update-field field h.arenas (get_arena_from_block p) _ _ same

  taken-IsBlock : (e q : ℕ) → IsBlock h e q → IsBlock taken e q
  taken-IsBlock e q b =
      IsBlock-kept h taken e q (total_same e) (size_same e) (header_same (λ x. x.magic) q refl)
        (header_same (λ x. x.large) q refl) (header_same (λ x. x.desc) q refl) b

  free_in-head :
      (a : ℕ)
      → free_in a (h.descriptors d).free_list
        ≡ (if get_arena_from_block p == a then suc (free_in a list) else free_in a list)
  unfolding free_in
  free_in-head a = rw head refl

  head_count : header.count ≡ suc (free_in (get_arena_from_block p) list)
  head_count =
      v.counted d p in_range head-is_free
      ∙ free_in-head (get_arena_from_block p)
      ∙ rw (==_refl (get_arena_from_block p)) refl

  less_count : (header.count + word - 1) % word ≡ free_in (get_arena_from_block p) list
  less_count = let small = v.small_count (get_arena_from_block p) in omega (arith, head_count)

  count_lem : (header_of taken p).count + 1 ≡ header.count
  count_lem = rw (==_refl (get_arena_from_block p)) (omega (arith, head_count, less_count))

  taken-small_count : (a : ℕ) → (taken.arenas a).count < word
  taken-small_count a = elim (Bool-cases (get_arena_from_block p == a)) [
    | inl same ↦ rw same (omega arith)
    | inr other ↦ rw other (v.small_count a)
  ]

  once_list : (elem p list ≡ false) × (distinct list ≡ true)
  once_list = let all : distinct (p ∷ list) ≡ true = rw head at (v.once d in_range) in ground arith

  taken-once : (e : ℕ) → e < arena_desc_count → distinct (taken.descriptors e).free_list ≡ true
  taken-once e less = elim (Bool-cases (d == e)) [
    | inl same ↦ rw same once_list.1
    | inr other ↦ rw other (v.once e less)
  ]

  -- the descriptor of a free block in the arena of `p`
  same_descriptor :
      (e q : ℕ)
      → e < arena_desc_count
      → is_free h e q ≡ true
      → get_arena_from_block p ≡ get_arena_from_block q
      → d ≡ e
  same_descriptor e q less at same =
      let mine = (v.blocks d p in_range head-is_free).desc in
      let its = (v.blocks e q less at).desc in
      let both : some d ≡ some e = sym mine ∙ ap (λ a. (h.arenas a).desc) same ∙ its in cc

  taken-counted :
      (e q : ℕ)
      → e < arena_desc_count
      → is_free taken e q ≡ true
      → (header_of taken q).count ≡ free_in (get_arena_from_block q) (taken.descriptors e).free_list
  taken-counted e q less at =
      let was = v.counted e q less (still e q at) in
      elim (Bool-cases (get_arena_from_block p == get_arena_from_block q)) [
        | inl same ↦
            let arena = (==_iff (get_arena_from_block p) (get_arena_from_block q)).0 same in
            let e' : d ≡ e = same_descriptor e q less (still e q at) arena in
            let here : (d == e) ≡ true = (==_iff d e).1 e' in rw (same, here, ← arena) less_count
        | inr apart ↦ rw apart (elim (Bool-cases (d == e)) [
          | inl here ↦
              let e' : d ≡ e = (==_iff d e).0 here in
              rw here (
                was
                ∙ ap (λ k. free_in (get_arena_from_block q) (h.descriptors k).free_list) (sym e')
                ∙ free_in-head (get_arena_from_block q)
                ∙ rw apart refl)
          | inr there ↦ rw there was
        ])
      ]

  taken-gone : (e : ℕ) → e < arena_desc_count → is_free taken e p ≡ false
  taken-gone e less = elim (Bool-cases (d == e)) [
    | inl same ↦ rw same once_list.0
    | inr other ↦ rw other (elim (Bool-cases (is_free h e p)) [
      | inl at ↦
          let same = same_descriptor e p less at refl in absurd (cc (rw (same, ==_refl e) at other))
      | inr out ↦ out
    ])
  ]

  taken-IsValid : IsValid taken
  taken-IsValid = record {
    positive = λ e less. rw (size_same e) (v.positive e less);
    some_block = λ e less. rw (total_same e) (v.some_block e less);
    small_total = λ e less. rw (total_same e) (v.small_total e less);
    fits = λ e less. rw (total_same e, size_same e) (v.fits e less);
    once = taken-once;
    blocks = λ e q less at. taken-IsBlock e q (v.blocks e q less (still e q at));
    small_count = taken-small_count;
    counted = taken-counted;
  }

  taken-Taken : Taken h d p taken
  taken-Taken = record {
    valid = taken-IsValid;
    block = taken-IsBlock d p (v.blocks d p in_range head-is_free);
    zeroed = λ at inside. memset_lem (h.descriptors d).block_size h.memory p 0 at ∙ rw inside refl;
    rest = λ at outside. memset_lem (h.descriptors d).block_size h.memory p 0 at ∙ rw outside refl;
    gone = taken-gone;
    first = rw (==_refl d) head;
    others = λ e apart. update-other h.descriptors d shorter e apart;
    count = count_lem;
  }

  -- The first free block of a descriptor is taken.
  pub take_block_lem : (h' : Heap) × (take_block h d ≡ ok (p, h')) × Taken h d p h'
  unfolding take_block pop_front
  take_block_lem =
      let b = v.blocks d p in_range head-is_free in
      (taken, rw (head, b.magic, b.small) refl, taken-Taken)
