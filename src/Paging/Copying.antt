-- ===== src/Paging/Copying.antt =====
-- The copy of a page, and the reference counts after it.
use txos.Base.{
  ℕ, ◌+◌, ◌-◌, ◌%◌, ◌<◌, ◌≤◌, ◌≡◌, ◌≢◌, ◌⊎◌, refl, sym, ap, ◌∙◌, arith, false, none, some, ok,
  update, update-same, update-other, get_or-set_self, get_or-set_ne, length, length-set,
  AllBelow-get_or, set,
}
use mathlib.Core.Path.{subst}
use txos.PhysMem.{MemoryManager, page_addr, page_idx}
use txos.PhysMem.Valid
use txos.PhysMem.Valid.{refs, recounted, recounted-IsValid}
use txos.Paging.{Space, Entry, set_entry, pde_idx, pte_idx, page_entry_init, frame_of, copy_page}
use txos.Paging.Mapping.{set_entry_self, set_entry_other, Fresh}

-- What `copy_page` leaves: the new page `i` holds the bytes of the page at `vaddr`; no entry is changed
-- but the first of the first table.
pub record Copied (s c : Space) (vaddr i : ℕ) : Type 0 where
  pub mm : c.mm ≡ recounted s.mm i 1
  pub pde : c.pde ≡ s.pde
  pub entries : (t x : ℕ) → ((s.pde 0).index ≢ t) ⊎ (0 ≢ x) → c.tables t x ≡ s.tables t x
  pub copy : c.data_of i ≡ s.data_of (frame_of s vaddr)
  pub kept : (p : ℕ) → i ≢ p → c.data_of p ≡ s.data_of p

pub copy_page-Copied :
    (s : Space) (vaddr i : ℕ)
    → s.first_cached ≡ none
    → Fresh s.mm i
    → ((s.pde 0).index ≢ (s.pde (pde_idx vaddr)).index) ⊎ (0 ≢ pte_idx vaddr)
    → (c : Space) × (copy_page s vaddr ≡ ok (page_addr i, c)) × Copied s c vaddr i
unfolding copy_page
copy_page-Copied s vaddr i flushed f apart =
    let first = (s.pde 0).index in
    let mapped =
      set_entry (record s { mm = recounted s.mm i 1 }) first 0
        (page_entry_init (page_idx (page_addr i))) in
    let target : frame_of mapped 0 ≡ i =
      ap (λ e. e.index)
        (set_entry_self (record s { mm = recounted s.mm i 1 }) first 0
          (page_entry_init (page_idx (page_addr i))))
      ∙ f.named in
    let source : frame_of mapped vaddr ≡ frame_of s vaddr =
      ap (λ e. e.index)
        (set_entry_other (record s { mm = recounted s.mm i 1 }) first 0
          (page_entry_init (page_idx (page_addr i))) (s.pde (pde_idx vaddr)).index (pte_idx vaddr)
          apart) in
    let copied : Space = record mapped {
      data_of = update mapped.data_of (frame_of mapped 0) (mapped.data_of (frame_of mapped vaddr));
      first_cached = some (frame_of mapped 0);
    } in
    let entry : Entry = record (copied.tables first 0) { present = false } in
    (
      set_entry copied first 0 entry,
      rw (f.done, flushed) refl,
      record {
        mm = refl;
        pde = refl;
        entries = λ t x away.
            set_entry_other copied first 0 entry t x away
            ∙ set_entry_other (record s { mm = recounted s.mm i 1 }) first 0
                (page_entry_init (page_idx (page_addr i))) t x away;
        copy = rw (target, source) (update-same s.data_of i (s.data_of (frame_of s vaddr)));
        kept = λ p other. rw target (update-other s.data_of i _ p other);
      },
    )

-- the manager with page `i` handed out and a reference less for page `p`
abbrev pub handed_over : MemoryManager → (i p : ℕ) → MemoryManager
handed_over mm i p =
    let m = recounted mm i 1 in
    record m { memory_map = set m.memory_map p ((refs mm p + 256 - 1) % 256) }

-- the counts afterwards
pub record Moved (mm : MemoryManager) (i p : ℕ) : Type 0 where
  pub valid : Valid.IsValid (handed_over mm i p)
  pub new : refs (handed_over mm i p) i ≡ 1
  pub old : refs (handed_over mm i p) p + 1 ≡ refs mm p
  pub same : (q : ℕ) → q ≢ p → q ≢ i → refs (handed_over mm i p) q ≡ refs mm q

pub handed_over-Moved :
    (mm : MemoryManager) (i p : ℕ)
    → Valid.IsValid mm
    → Fresh mm i
    → mm.start_page_idx ≤ p
    → p < mm.total_pages
    → 1 < refs mm p
    → Moved mm i p
handed_over-Moved mm i p v f low high shared =
    let m = recounted mm i 1 in
    let byte : refs mm p < 256 = AllBelow-get_or 256 mm.memory_map p 0 v.bytes (omega arith) in
    let apart : i ≢ p = λ e. absurd (omega (arith, f.unused, ap (refs mm) e)) in
    let less : (refs mm p + 256 - 1) % 256 ≡ refs mm p - 1 = omega arith in
    let there : refs m p ≡ refs mm p = get_or-set_ne mm.memory_map i p 1 0 apart in
    let size : p < length m.memory_map = omega (arith, length-set mm.memory_map i 1, v.cells) in
    let size' : i < length mm.memory_map = omega (arith, f.high, v.cells) in
    let valid : Valid.IsValid (recounted m p (refs mm p - 1)) =
      recounted-IsValid p (refs mm p - 1) f.valid low high (omega arith) in
    let free : (recounted m p (refs mm p - 1)).free_pages ≡ m.free_pages = ground (arith, there) in
    record {
      valid = rw less (
          subst
            (λ n.
              Valid.IsValid
                (record m { memory_map = set m.memory_map p (refs mm p - 1); free_pages = n }))
            free valid);
      new =
          get_or-set_ne m.memory_map p i _ 0 (λ e. apart (sym e))
          ∙ get_or-set_self mm.memory_map i 1 0 size';
      old =
          omega (arith, less, get_or-set_self m.memory_map p ((refs mm p + 256 - 1) % 256) 0 size);
      same = λ q a b.
          get_or-set_ne m.memory_map p q _ 0 (λ e. a (sym e))
          ∙ get_or-set_ne mm.memory_map i q 1 0 (λ e. b (sym e));
    }
