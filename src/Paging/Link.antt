-- ===== src/Paging/Link.antt =====
-- Pages of the current task mapped and unmapped.
use txos.Base.{
  ℕ, ◌<◌, ◌≡◌, ◌≢◌, ◌⊎◌, refl, sym, ap, ◌∙◌, arith, true, false, ◌||◌, ok, ◌==◌, if◌then◌else◌,
  Bool-cases, inl, inr, get_or-set_self, ==_iff,
}
use txos.Bitmap.{in_range, bitmap_insert, bitmap_remove}
use txos.Bitmap.Valid
use txos.Bitmap.Valid.{used, bitmap_contains-used}
use txos.Bitmap.Update.{updated, updated-IsValid, used-updated, bitmap_set-ok}
use txos.PhysMem.{page_idx, page_addr}
use txos.PhysMem.Valid as Manager
use txos.PhysMem.Valid.{refs, recounted, free_page-recounted}
use txos.Paging.{Space, set_entry, link_page, unlink_page, pde_idx, pte_idx, page_entry_init}
use txos.Paging.Mapping.{set_entry_self, set_entry_other, get_pte-found, Fresh, alloc_page-Fresh}

-- A page that the current task does not have, in the range of its bitmap, whose table is there.
pub record Unlinked (s : Space) (vaddr : ℕ) : Type 0 where
  pub manager : Manager.IsValid s.mm
  pub map : Valid.IsValid s.vmap
  pub some_left : 0 < s.mm.free_pages
  pub table : (s.pde (pde_idx vaddr)).present ≡ true
  pub absent : (s.tables (s.pde (pde_idx vaddr)).index (pte_idx vaddr)).present ≡ false
  pub inside : in_range s.vmap (page_idx vaddr) ≡ true
  pub unused : used s.vmap (page_idx vaddr) ≡ false

-- the space with the page linked to physical page `i`
abbrev pub linked : Space → (vaddr i : ℕ) → Space
linked s vaddr i =
    set_entry (record s { vmap = updated s.vmap (page_idx vaddr) true; mm = recounted s.mm i 1 })
      (s.pde (pde_idx vaddr)).index (pte_idx vaddr) (page_entry_init (page_idx (page_addr i)))

link_page-linked :
    (s : Space) (vaddr i : ℕ)
    → Unlinked s vaddr
    → Fresh s.mm i
    → link_page s vaddr ≡ ok (linked s vaddr i)
unfolding link_page bitmap_insert
link_page-linked s vaddr i u f =
    rw
      (
        get_pte-found s vaddr true u.table,
        bitmap_contains-used (page_idx vaddr) u.map,
        u.inside,
        u.unused,
        u.absent,
        bitmap_set-ok (page_idx vaddr) u.map u.inside true,
        f.done,
      )
      refl

-- the space with the page linked and unlinked again
abbrev pub unlinked : Space → (vaddr i : ℕ) → Space
unlinked s vaddr i =
    let page = page_idx vaddr in
    set_entry
      (record (linked s vaddr i) {
        vmap = updated (updated s.vmap page true) page false;
        mm = s.mm;
      })
      (s.pde (pde_idx vaddr)).index (pte_idx vaddr)
      (record (page_entry_init (page_idx (page_addr i))) { present = false })

unlink_page-unlinked :
    (s : Space) (vaddr i : ℕ)
    → Unlinked s vaddr
    → Fresh s.mm i
    → unlink_page (linked s vaddr i) vaddr ≡ ok (unlinked s vaddr i)
unfolding unlink_page bitmap_remove
unlink_page-unlinked s vaddr i u f =
    let page = page_idx vaddr in
    let table = (s.pde (pde_idx vaddr)).index in
    let entry = page_entry_init (page_idx (page_addr i)) in
    let map = updated s.vmap page true in
    let valid : Valid.IsValid map = updated-IsValid page u.map u.inside true in
    let own : (linked s vaddr i).tables table (pte_idx vaddr) ≡ entry =
      set_entry_self (record s { vmap = map; mm = recounted s.mm i 1 }) table (pte_idx vaddr)
        entry in
    let taken : used map page ≡ true = used-updated page u.map u.inside true page ∙ ground arith in
    rw
      (
        get_pte-found (linked s vaddr i) vaddr true u.table,
        bitmap_contains-used page valid,
        u.inside,
        taken,
        own,
        bitmap_set-ok page valid u.inside false,
        f.named,
        free_page-recounted i u.manager u.some_left f.low f.high f.unused,
      )
      refl

-- A page that the task does not have, with a table and a free physical page, is linked by `link_page` to
-- a physical page without a reference, which then has one, and is there, writable and marked in the
-- task's bitmap; other entries and marks are kept. `unlink_page` takes it away again, and the page
-- manager and the marks are what they were.
pub unlink_page-link_page :
    (s : Space) (vaddr : ℕ)
    → Unlinked s vaddr
    → (i : ℕ) × (s₁ s₂ : Space) × (link_page s vaddr ≡ ok s₁)
      × (refs s.mm i ≡ 0)
      × (refs s₁.mm i ≡ 1)
      × ((s₁.tables (s₁.pde (pde_idx vaddr)).index (pte_idx vaddr))
          ≡ record { present = true; write = true; user = true; others = 0; index = i })
      × ((t x : ℕ)
          → ((s.pde (pde_idx vaddr)).index ≢ t) ⊎ (pte_idx vaddr ≢ x)
          → s₁.tables t x ≡ s.tables t x)
      × ((page : ℕ) → used s₁.vmap page ≡ ((page_idx vaddr == page) || used s.vmap page))
      × (unlink_page s₁ vaddr ≡ ok s₂)
      × (s₂.mm ≡ s.mm)
      × ((s₂.tables (s₂.pde (pde_idx vaddr)).index (pte_idx vaddr)).present ≡ false)
      × ((page : ℕ) → used s₂.vmap page ≡ used s.vmap page)
unlink_page-link_page s vaddr u =
    let (i, f) = alloc_page-Fresh u.manager u.some_left in
    let page = page_idx vaddr in
    let table = (s.pde (pde_idx vaddr)).index in
    let map = updated s.vmap page true in
    let valid : Valid.IsValid map = updated-IsValid page u.map u.inside true in
    let entry = page_entry_init (page_idx (page_addr i)) in
    let mid : Space = record s { vmap = map; mm = recounted s.mm i 1 } in
    let gone : Space = record (linked s vaddr i) { vmap = updated map page false; mm = s.mm } in
    (
      i,
      linked s vaddr i,
      unlinked s vaddr i,
      link_page-linked s vaddr i u f,
      f.unused,
      get_or-set_self s.mm.memory_map i 1 0 (omega (arith, f.high, u.manager.cells)),
      set_entry_self mid table (pte_idx vaddr) entry
          ∙ ap (λ n. record { present = true; write = true; user = true; others = 0; index = n })
              f.named,
      λ t x apart. set_entry_other mid table (pte_idx vaddr) entry t x apart,
      λ q. used-updated page u.map u.inside true q ∙ ground arith,
      unlink_page-unlinked s vaddr i u f,
      refl,
      ap (λ e. e.present)
          (set_entry_self gone table (pte_idx vaddr) (record entry { present = false })),
      λ q.
          used-updated page valid u.inside false q
          ∙ rw (used-updated page u.map u.inside true q) (still q),
    )
  where
    still :
        (q : ℕ)
        → (if page_idx vaddr == q
            then false
            else if page_idx vaddr == q
            then true
            else used s.vmap q)
          ≡ used s.vmap q
    still q = elim (Bool-cases (page_idx vaddr == q)) [
      | inl here ↦
          rw here (sym (ap (used s.vmap) (sym ((==_iff (page_idx vaddr) q).0 here)) ∙ u.unused))
      | inr there ↦ rw there refl
    ]
