-- ===== src/Descriptor.antt =====
-- src/kernel/global.c, src/include/xos/global.h: the segment descriptors of the user and of the task
-- state segment, and that segment. The table is a function of the index; `tss_addr` is where the
-- linker puts the task state segment. The initial table, which the loader leaves in memory, and the
-- instructions that load the registers of the processor are outside.
pub mod Laws
mod Tests
use txos.Base.{ℕ, ◌+◌, ◌-◌, ◌*◌, ◌/◌, ◌%◌, ◌^◌, update}

-- `descriptor_t`
pub record Descriptor : Type 0 where
  pub limit_low : ℕ
  pub base_low : ℕ
  pub type : ℕ
  pub segment : ℕ
  pub dpl : ℕ
  pub present : ℕ
  pub limit_high : ℕ
  pub available : ℕ
  pub long_mode : ℕ
  pub big : ℕ
  pub granularity : ℕ
  pub base_high : ℕ

abbrev pub kernel_tss_idx : ℕ
kernel_tss_idx = 3

abbrev pub user_code_idx : ℕ
user_code_idx = 4

abbrev pub user_data_idx : ℕ
user_data_idx = 5

unfoldable pub descriptor_init : Descriptor → (base limit : ℕ) → Descriptor
descriptor_init desc base limit = record desc {
  base_low = base % 2 ^ 24;
  base_high = base / 2 ^ 24 % 2 ^ 8;
  limit_low = limit % 2 ^ 16;
  limit_high = limit / 2 ^ 16 % 2 ^ 4;
}

-- `tss_t`
pub record Tss : Type 0 where
  pub backlink : ℕ
  pub esp0 : ℕ
  pub ss0 : ℕ
  pub esp1 : ℕ
  pub ss1 : ℕ
  pub esp2 : ℕ
  pub ss2 : ℕ
  pub cr3 : ℕ
  pub eip : ℕ
  pub eflags : ℕ
  pub eax : ℕ
  pub ecx : ℕ
  pub edx : ℕ
  pub ebx : ℕ
  pub esp : ℕ
  pub ebp : ℕ
  pub esi : ℕ
  pub edi : ℕ
  pub es : ℕ
  pub cs : ℕ
  pub ss : ℕ
  pub ds : ℕ
  pub fs : ℕ
  pub gs : ℕ
  pub ldtr : ℕ
  pub trace : ℕ
  pub reserved : ℕ
  pub iobase : ℕ
  pub ssp : ℕ

-- the globals `gdt` and `tss`
pub record Segments : Type 0 where
  pub gdt : ℕ → Descriptor
  pub tss : Tss

abbrev pub kernel_data_idx : ℕ
kernel_data_idx = 2

abbrev pub kernel_data_selector : ℕ
kernel_data_selector = kernel_data_idx * 2 ^ 3

-- `sizeof(tss_t)`: 27 words, of which one holds `trace`, `reserved` and `iobase`
abbrev pub sizeof_tss : ℕ
sizeof_tss = 108

-- the task state segment after memset
abbrev pub cleared_tss : Tss
cleared_tss = record {
  backlink = 0;
  esp0 = 0;
  ss0 = 0;
  esp1 = 0;
  ss1 = 0;
  esp2 = 0;
  ss2 = 0;
  cr3 = 0;
  eip = 0;
  eflags = 0;
  eax = 0;
  ecx = 0;
  edx = 0;
  ebx = 0;
  esp = 0;
  ebp = 0;
  esi = 0;
  edi = 0;
  es = 0;
  cs = 0;
  ss = 0;
  ds = 0;
  fs = 0;
  gs = 0;
  ldtr = 0;
  trace = 0;
  reserved = 0;
  iobase = 0;
  ssp = 0;
}

-- the two blocks of `user_descriptors_init`, which differ in the type
unfoldable pub user_descriptor : Descriptor → (type : ℕ) → Descriptor
user_descriptor desc type = record (descriptor_init desc 0 0xFFFFF) {
  segment = 1;
  granularity = 1;
  big = 1;
  long_mode = 0;
  present = 1;
  dpl = 3;
  type = type;
}

unfoldable pub user_descriptors_init : (ℕ → Descriptor) → ℕ → Descriptor
user_descriptors_init gdt =
    let code = update gdt user_code_idx (user_descriptor (gdt user_code_idx) 10) in
    update code user_data_idx (user_descriptor (code user_data_idx) 2)

unfoldable pub tss_init : (tss_addr : ℕ) → Segments → Segments
tss_init tss_addr s = record {
  tss = record cleared_tss { ss0 = kernel_data_selector; iobase = sizeof_tss };
  gdt =
      update s.gdt kernel_tss_idx
        (record (descriptor_init (s.gdt kernel_tss_idx) tss_addr (sizeof_tss - 1)) {
          segment = 0;
          granularity = 0;
          big = 0;
          long_mode = 0;
          present = 1;
          dpl = 0;
          type = 9;
        });
}
