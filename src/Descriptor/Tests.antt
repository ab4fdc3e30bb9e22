-- ===== src/Descriptor/Tests.antt =====
-- The table of a start from an empty one.
use txos.Descriptor.{Descriptor, Segments, tss_init, user_descriptors_init, cleared_tss}

abbrev empty_descriptor : Descriptor
empty_descriptor = record {
  limit_low = 0;
  base_low = 0;
  type = 0;
  segment = 0;
  dpl = 0;
  present = 0;
  limit_high = 0;
  available = 0;
  long_mode = 0;
  big = 0;
  granularity = 0;
  base_high = 0;
}

abbrev start : Segments
start = record { gdt = λ i. empty_descriptor; tss = cleared_tss }

abbrev loaded : Segments
loaded = tss_init 70000 (record start { gdt = user_descriptors_init start.gdt })
