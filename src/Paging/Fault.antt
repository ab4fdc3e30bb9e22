-- ===== src/Paging/Fault.antt =====
-- The page fault of a write to a shared page: copy on write.
use txos.Base.{ℕ, ◌+◌, ◌-◌, ◌%◌, ◌<◌, ◌≤◌, ◌≡◌, ◌≢◌, ◌⊎◌, true, none, set}
use txos.Stdlib.{word}
use txos.PhysMem.{page_addr, page_idx}
use txos.PhysMem.Valid
use txos.PhysMem.Valid.{refs, recounted-IsValid}
use txos.Paging.{Space, set_entry, pde_idx, pte_idx, page_entry_init, frame_of}

-- A page of the current task that is there, with a physical page from `start_page_idx` on that has
-- references; its table is not that of the first pages, of which the TLB holds nothing for the first.
pub record Shared (s : Space) (vaddr : ℕ) : Type 0 where
  pub manager : Valid.IsValid s.mm
  pub word_size : vaddr < word
  pub table : (s.pde (pde_idx vaddr)).present ≡ true
  pub apart : (s.pde 0).index ≢ (s.pde (pde_idx vaddr)).index
  pub mapped : (s.tables (s.pde (pde_idx vaddr)).index (pte_idx vaddr)).present ≡ true
  pub low : s.mm.start_page_idx ≤ frame_of s vaddr
  pub high : frame_of s vaddr < s.mm.total_pages
  pub held : 0 < refs s.mm (frame_of s vaddr)
  pub flushed : s.first_cached ≡ none

-- The page is the task's alone and may be written; it holds what it held, and so does each page with
-- references. Of the entries only its own and the first of the first table have changed, and of the
-- counts only those of the old page and the new.
pub record Owned (s s' : Space) (vaddr : ℕ) : Type 0 where
  pub manager : Valid.IsValid s'.mm
  pub mapped : (s'.tables (s'.pde (pde_idx vaddr)).index (pte_idx vaddr)).present ≡ true
  pub writable : (s'.tables (s'.pde (pde_idx vaddr)).index (pte_idx vaddr)).write ≡ true
  pub alone : refs s'.mm (frame_of s' vaddr) ≡ 1
  pub copy : s'.data_of (frame_of s' vaddr) ≡ s.data_of (frame_of s vaddr)
  pub kept : (p : ℕ) → 0 < refs s.mm p → s'.data_of p ≡ s.data_of p
  pub entries :
      (t x : ℕ)
      → ((s.pde 0).index ≢ t) ⊎ (0 ≢ x)
      → ((s.pde (pde_idx vaddr)).index ≢ t) ⊎ (pte_idx vaddr ≢ x)
      → s'.tables t x ≡ s.tables t x
  pub shares :
      refs s.mm (frame_of s vaddr) ≢ 1
      → refs s'.mm (frame_of s vaddr) + 1 ≡ refs s.mm (frame_of s vaddr)
  pub counts : (p : ℕ) → p ≢ frame_of s vaddr → p ≢ frame_of s' vaddr → refs s'.mm p ≡ refs s.mm p

-- the space with the copy `c` in the place of the page at `vaddr`
abbrev settled : (s c : Space) → (vaddr i : ℕ) → Space
settled s c vaddr i =
    let p = frame_of s vaddr in
    record (set_entry c (s.pde (pde_idx vaddr)).index (pte_idx vaddr)
      (page_entry_init (page_idx (page_addr i)))) {
        mm = record c.mm { memory_map = set c.mm.memory_map p ((refs s.mm p + 256 - 1) % 256) };
      }
