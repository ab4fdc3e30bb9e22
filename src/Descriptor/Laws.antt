-- ===== src/Descriptor/Laws.antt =====
-- What the processor reads from the table after its initialisation.
use txos.Base.{ℕ, ◌+◌, ◌*◌, ◌^◌, ◌<◌, ◌≡◌, refl, arith, ◌==◌, ◌||◌, if◌then◌else◌}
use txos.Stdlib.{word}
use txos.Descriptor.{
  Descriptor, Segments, kernel_tss_idx, user_code_idx, user_data_idx, descriptor_init,
  user_descriptor, user_descriptors_init, tss_init, sizeof_tss, kernel_data_selector,
}

-- the first address of a segment, as the processor puts it together
abbrev pub base_of : Descriptor → ℕ
base_of d = d.base_high * 2 ^ 24 + d.base_low

-- the number of bytes of a segment: the limit counts bytes or pages, the last included
abbrev pub size_of : Descriptor → ℕ
size_of d = (d.limit_high * 2 ^ 16 + d.limit_low + 1) * (if d.granularity == 0 then 1 else 4096)

base_of-descriptor_init :
    (d : Descriptor) (base limit : ℕ) → base < word → base_of (descriptor_init d base limit) ≡ base
unfolding descriptor_init
base_of-descriptor_init d base limit small = omega arith

-- `d` is a present segment of the given privilege level and type, from `base` on, of `size` bytes
abbrev pub IsSegment : (d : Descriptor) → (base size dpl type : ℕ) → Type 0
IsSegment d base size dpl type =
    (base_of d ≡ base) × (size_of d ≡ size) × (d.dpl ≡ dpl) × (d.present ≡ 1) × (d.type ≡ type)

-- After user_descriptors_init and then tss_init, with the task state segment at a 32-bit address, for
-- any table: the code and data segments of the user are present, of level 3, and span the 4 GB from
-- address 0; the descriptor of the task state segment is that of a present system segment of level 0
-- at its address with its 108 bytes; the kernel stack segment is the data selector of the kernel, and
-- the offset of the I/O map is the size of the segment; every other entry is as before.
pub tss_init-user_descriptors_init :
    (s : Segments) (tss_addr i : ℕ)
    → tss_addr < word
    → let s' = tss_init tss_addr (record s { gdt = user_descriptors_init s.gdt }) in
      IsSegment (s'.gdt user_code_idx) 0 word 3 10
      × IsSegment (s'.gdt user_data_idx) 0 word 3 2
      × IsSegment (s'.gdt kernel_tss_idx) tss_addr sizeof_tss 0 9
      × ((s'.gdt user_code_idx).segment ≡ 1)
      × ((s'.gdt user_data_idx).segment ≡ 1)
      × ((s'.gdt kernel_tss_idx).segment ≡ 0)
      × (s'.tss.ss0 ≡ kernel_data_selector)
      × (s'.tss.iobase ≡ size_of (s'.gdt kernel_tss_idx))
      × (s'.gdt i ≡ (
          if (kernel_tss_idx == i) || (user_code_idx == i) || (user_data_idx == i)
          then s'.gdt i
          else s.gdt i))
unfolding user_descriptors_init user_descriptor tss_init descriptor_init
tss_init-user_descriptors_init s tss_addr i small = (
  (refl, refl, refl, refl, refl),
  (refl, refl, refl, refl, refl),
  (omega arith, refl, refl, refl, refl),
  refl,
  refl,
  refl,
  refl,
  refl,
  ground arith,
)
