-- ===== src/Paging/Mapping.antt =====
-- Entries of the page tables, and the finding of a table.
use txos.Base.{
  ℕ, ◌%◌, ◌^◌, ◌<◌, ◌≤◌, ◌≡◌, ◌≢◌, ◌⊎◌, inl, inr, refl, ap, arith, Bool, true, false, ok, ◌==◌,
  ==_refl, ==_iff, Bool-cases,
}
use txos.Stdlib.{word}
use txos.PhysMem.{MemoryManager, alloc_page, page_addr, page_idx}
use txos.PhysMem.Valid
use txos.PhysMem.Valid.{refs, recounted, alloc_page_lem}
use txos.Paging.{Space, Entry, set_entry, get_pte, pde_idx, pte_idx}

module _ (s : Space) (table idx : ℕ) (entry : Entry) where
  pub set_entry_self : (set_entry s table idx entry).tables table idx ≡ entry
  set_entry_self = rw (==_refl table, ==_refl idx) refl

  pub set_entry_other :
      (table' idx' : ℕ)
      → (table ≢ table') ⊎ (idx ≢ idx')
      → (set_entry s table idx entry).tables table' idx' ≡ s.tables table' idx'
  set_entry_other table' idx' apart = elim (Bool-cases (table == table')) [
    | inr other ↦ rw other refl
    | inl same ↦ elim (Bool-cases (idx == idx')) [
      | inr elsewhere ↦
          rw (same, elsewhere) (ap (λ t. s.tables t idx') ((==_iff table table').0 same))
      | inl here ↦ absurd (ground arith)
    ]
  ]

-- A table that is there is found, and nothing is made.
pub get_pte-found :
    (s : Space) (vaddr : ℕ) (create : Bool)
    → (s.pde (pde_idx vaddr)).present ≡ true
    → get_pte s vaddr create ≡ ok ((s.pde (pde_idx vaddr)).index, s)
unfolding get_pte
get_pte-found s vaddr true there = rw there refl
get_pte-found s vaddr false there = rw there refl

-- a page that `alloc_page` has handed out
pub record Fresh (mm : MemoryManager) (i : ℕ) : Type 0 where
  pub done : alloc_page mm ≡ ok (page_addr i, recounted mm i 1)
  pub low : mm.start_page_idx ≤ i
  pub high : i < mm.total_pages
  pub unused : refs mm i ≡ 0
  pub valid : Valid.IsValid (recounted mm i 1)
  pub named : page_idx (page_addr i) % 2 ^ 20 ≡ i

pub alloc_page-Fresh :
    {mm : MemoryManager} → Valid.IsValid mm → 0 < mm.free_pages → (i : ℕ) × Fresh mm i
alloc_page-Fresh {mm} v some_left =
    let (i, done, f, v', fewer, named) = alloc_page_lem v some_left in
    (
      i,
      record {
        done = done;
        low = f.low;
        high = omega (arith, f.high, v.order);
        unused = f.free;
        valid = v';
        named = omega (arith, named, f.high, v.order, v.small);
      },
    )

-- An address and the start of its page have their entry in common.
pub page_start :
    (vaddr : ℕ)
    → vaddr < word
    → (pde_idx (page_addr (page_idx vaddr)) ≡ pde_idx vaddr)
      × (pte_idx (page_addr (page_idx vaddr)) ≡ pte_idx vaddr)
page_start vaddr small = (omega arith, omega arith)
