-- ===== src/Interrupt.antt =====
-- src/kernel/interrupt.c: the interrupt flag and its nesting, the masks of the two interrupt
-- controllers, and the tables of gates and handlers. Addresses of routines are numbers.
pub mod Nesting
pub mod Masks
pub mod Gates
mod Tests
use txos.Base.{
  ℕ, zero, suc, ◌+◌, ◌-◌, ◌/◌, ◌%◌, ◌^◌, Bool, true, false, not, ◌&&◌, List, ◌∷◌, Outcome, ok,
  ◌>>=◌, ◌>>◌, assert, ◌==◌, ltb, leb, if◌then◌else◌, update, set_bit, clear_bit, bit_and,
}
use txos.Stdlib.{word}

abbrev pub idt_size : ℕ
idt_size = 256

abbrev pub syscall_vector : ℕ
syscall_vector = 0x80

abbrev pub irq_master_nr : ℕ
irq_master_nr = 0x20

abbrev pub exception_size : ℕ
exception_size = 0x20

abbrev pub entry_size : ℕ
entry_size = 0x30

abbrev pub pic_m_ctrl : ℕ
pic_m_ctrl = 0x20

abbrev pub pic_s_ctrl : ℕ
pic_s_ctrl = 0xa0

abbrev pub pic_eoi : ℕ
pic_eoi = 0x20

-- What goes to the ports, on top of what went before.
abbrev pub send_eoi : (vector : ℕ) → List (ℕ × ℕ) → List (ℕ × ℕ)
send_eoi vector written =
    let master =
      if leb 0x20 vector && ltb vector 0x28 then (pic_m_ctrl, pic_eoi) ∷ written else written in
    if leb 0x28 vector && ltb vector 0x30
    then (pic_s_ctrl, pic_eoi) ∷ (pic_m_ctrl, pic_eoi) ∷ master
    else master

-- the masks in the data ports of the two controllers
pub record Pic : Type 0 where
  pub master : ℕ
  pub slave : ℕ

unfoldable pub set_interrupt_mask : Pic → (irq : ℕ) → (enable : Bool) → Outcome Pic
set_interrupt_mask pic irq enable = do
  assert (ltb irq 16)
  let masked : ℕ → ℕ → ℕ = λ mask line. if enable then clear_bit mask line else set_bit mask line
  ok (
      if ltb irq 8
      then record pic { master = masked pic.master irq }
      else record pic { slave = masked pic.slave (irq - 8) })

-- the IF bit, `irq_off_count` and `first_irq_state`
pub record Flag : Type 0 where
  pub irq : Bool
  pub irq_off_count : ℕ
  pub first_irq_state : Bool

-- The state before, and the flag cleared.
abbrev pub irq_disable : Flag → Bool × Flag
irq_disable f = (f.irq, record f { irq = false })

unfoldable pub irq_save : Flag → Flag
irq_save f =
    let (before, f') = irq_disable f in
    record f' {
      first_irq_state = if f'.irq_off_count == 0 then before else f'.first_irq_state;
      irq_off_count = (f'.irq_off_count + 1) % word;
    }

unfoldable pub irq_restore : Flag → Outcome Flag
irq_restore f = do
  assert (not f.irq)
  assert (ltb 0 f.irq_off_count)
  let f' = record f { irq_off_count = f.irq_off_count - 1 }
  ok (if f'.irq_off_count == 0 then record f' { irq = f'.first_irq_state } else f')

-- `gate_t`
pub record Gate : Type 0 where
  pub offset_low : ℕ
  pub selector : ℕ
  pub reserved : ℕ
  pub type : ℕ
  pub segment : ℕ
  pub dpl : ℕ
  pub present : ℕ
  pub offset_high : ℕ

-- `idt` and `handler_table`
pub record Tables : Type 0 where
  pub idt : ℕ → Gate
  pub handlers : ℕ → ℕ

-- the addresses of the routines that the tables are filled with
pub record Entries : Type 0 where
  pub handler_entry_table : ℕ → ℕ
  pub exception_handler : ℕ
  pub page_fault_handler : ℕ
  pub default_handler : ℕ
  pub syscall_entry : ℕ

abbrev pub make_gate : (handler dpl : ℕ) → Gate
make_gate handler dpl = record {
  offset_low = handler % 2 ^ 16;
  offset_high = handler / 2 ^ 16 % 2 ^ 16;
  selector = 8;
  reserved = 0;
  type = 14;
  segment = 0;
  dpl = dpl;
  present = 1;
}

-- The loop over the entries, `left` of them to go.
abbrev pub fill_gates : (left : ℕ) → (ℕ → ℕ) → (i : ℕ) → (ℕ → Gate) → ℕ → Gate
fill_gates zero entries i idt = idt
fill_gates (suc left) entries i idt =
    fill_gates left entries (i + 1) (update idt i (make_gate (entries i) 0))

-- The loops over `handler_table`.
abbrev pub fill_handlers : (left : ℕ) → (handler : ℕ) → (i : ℕ) → (ℕ → ℕ) → ℕ → ℕ
fill_handlers zero handler i table = table
fill_handlers (suc left) handler i table =
    fill_handlers left handler (i + 1) (update table i handler)

unfoldable pub idt_init : Entries → Tables → Tables
idt_init e t =
    let gates = fill_gates entry_size e.handler_entry_table 0 t.idt in
    let exceptions = fill_handlers exception_size e.exception_handler 0 t.handlers in
    let faults = update exceptions 0xe e.page_fault_handler in
    record {
      idt = update gates syscall_vector (make_gate e.syscall_entry 3);
      handlers = fill_handlers (entry_size - 0x20) e.default_handler 0x20 faults;
    }

unfoldable pub set_interrupt_handler : Tables → (irq handler : ℕ) → Outcome Tables
set_interrupt_handler t irq handler = do
  assert (ltb irq 16)
  ok (record t { handlers = update t.handlers (irq_master_nr + irq) handler })
