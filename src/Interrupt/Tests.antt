-- ===== src/Interrupt/Tests.antt =====
-- The keyboard line unmasked, two nested sections, and the tables filled.
use txos.Base.{◌≡◌, refl, arith, true, false, ok}
use txos.Interrupt.{Pic, Flag, Tables, Entries, Gate}
use txos.Interrupt.Nesting.{Sections, done, section, run, run-Restored, Restored}

abbrev all_masked : Pic
all_masked = record { master = 255; slave = 255 }

abbrev running : Flag
running = record { irq = true; irq_off_count = 0; first_irq_state = false }

abbrev nested : Sections
nested = section (section done done) done

run-Restored_example : (f' : Flag) × (run nested running ≡ ok f') × Restored running f'
run-Restored_example = run-Restored nested running (λ ne. absurd (ne refl)) (omega arith)

abbrev empty_gate : Gate
empty_gate = record {
  offset_low = 0;
  selector = 0;
  reserved = 0;
  type = 0;
  segment = 0;
  dpl = 0;
  present = 0;
  offset_high = 0;
}

abbrev empty_tables : Tables
empty_tables = record { idt = λ v. empty_gate; handlers = λ v. 0 }

abbrev entries : Entries
entries = record {
  handler_entry_table = λ v. 70000;
  exception_handler = 1;
  page_fault_handler = 2;
  default_handler = 3;
  syscall_entry = 90000;
}
