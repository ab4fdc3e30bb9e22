-- ===== src/Interrupt/Gates.antt =====
-- The tables after `idt_init`.
use txos.Base.{
  ℕ, zero, suc, ◌+◌, ◌*◌, ◌<◌, ◌≡◌, refl, ◌∙◌, arith, true, false, ◌&&◌, ◌^◌, ltb, leb, ◌==◌,
  if◌then◌else◌, update, Bool-cases, inl, inr, ==_iff, ap,
}
use txos.Stdlib.{word}
use txos.Interrupt.{Gate, Tables, Entries, make_gate, fill_gates, fill_handlers, idt_init}

-- the routine that a gate leads to
abbrev pub target : Gate → ℕ
target gate = gate.offset_high * 2 ^ 16 + gate.offset_low

fill_gates_lem :
    (left : ℕ) (entries : ℕ → ℕ) (i : ℕ) (idt : ℕ → Gate) (v : ℕ)
    → fill_gates left entries i idt v
      ≡ (if leb i v && ltb v (i + left) then make_gate (entries v) 0 else idt v)
fill_gates_lem zero entries i idt v = ground arith
fill_gates_lem (suc left) entries i idt v = elim (Bool-cases (i == v)) [
  | inl here ↦
      let none : (leb (i + 1) v && ltb v (i + 1 + left)) ≡ false = ground arith in
      let inside : (leb i v && ltb v (i + suc left)) ≡ true = ground arith in
      fill_gates_lem left entries (i + 1) _ v
      ∙ rw (here, none, inside) (ap (λ n. make_gate (entries n) 0) ((==_iff i v).0 here))
  | inr there ↦
      let same : (leb (i + 1) v && ltb v (i + 1 + left)) ≡ (leb i v && ltb v (i + suc left)) =
        ground arith in
      fill_gates_lem left entries (i + 1) _ v ∙ rw (there, same) refl
]

fill_handlers_lem :
    (left handler i : ℕ) (table : ℕ → ℕ) (v : ℕ)
    → fill_handlers left handler i table v
      ≡ (if leb i v && ltb v (i + left) then handler else table v)
fill_handlers_lem zero handler i table v = ground arith
fill_handlers_lem (suc left) handler i table v =
    fill_handlers_lem left handler (i + 1) (update table i handler) v ∙ ground arith

target-make_gate : (handler dpl : ℕ) → handler < word → target (make_gate handler dpl) ≡ handler
target-make_gate handler dpl small = omega arith

handlers_lem :
    (table : ℕ → ℕ) (exception fault default v : ℕ)
    → fill_handlers 16 default 32 (update (fill_handlers 32 exception 0 table) 14 fault) v ≡ (
        if v == 14
        then fault
        else if ltb v 32
        then exception
        else if ltb v 48
        then default
        else table v)
handlers_lem table exception fault default v =
    rw
      (
        fill_handlers_lem 16 default 32 (update (fill_handlers 32 exception 0 table) 14 fault) v,
        fill_handlers_lem 32 exception 0 table v,
      )
      (ground arith)

-- `idt_init` gives each of the first 48 vectors a present kernel gate to its entry, and the system call
-- a present user gate to its own; the handlers of the 32 exceptions and of the 16 interrupts after them
-- are set, that of the page fault apart, and all else is kept. Addresses are words.
pub idt_init_lem :
    (e : Entries) (t : Tables) (v : ℕ)
    → ((i : ℕ) → e.handler_entry_table i < word)
    → e.syscall_entry < word
    → let t' = idt_init e t in
      (if ltb v 48
        then (target (t'.idt v) ≡ e.handler_entry_table v)
          × ((t'.idt v).dpl ≡ 0)
          × ((t'.idt v).present ≡ 1)
        else if v == 0x80
        then (target (t'.idt v) ≡ e.syscall_entry) × ((t'.idt v).dpl ≡ 3) × ((t'.idt v).present ≡ 1)
        else t'.idt v ≡ t.idt v)
      × (t'.handlers v ≡ (
          if v == 14
          then e.page_fault_handler
          else if ltb v 32
          then e.exception_handler
          else if ltb v 48
          then e.default_handler
          else t.handlers v))
unfolding idt_init
idt_init_lem e t v entries syscall = (
  elim (Bool-cases (ltb v 48)) [
    | inl low ↦
        let kernel : (0x80 == v) ≡ false = ground arith in
        let filled : (leb 0 v && ltb v 48) ≡ true = ground arith in
        let gate = fill_gates_lem 48 e.handler_entry_table 0 t.idt v in
        rw (low, kernel, gate, filled)
          (target-make_gate (e.handler_entry_table v) 0 (entries v), refl, refl)
    | inr high ↦ elim (Bool-cases (v == 0x80)) [
      | inl user ↦
          let here : (0x80 == v) ≡ true = ground arith in
          rw (high, user, here) (target-make_gate e.syscall_entry 3 syscall, refl, refl)
      | inr other ↦
          let kernel : (0x80 == v) ≡ false = ground arith in
          let unfilled : (leb 0 v && ltb v 48) ≡ false = ground arith in
          rw (high, other, kernel, fill_gates_lem 48 e.handler_entry_table 0 t.idt v, unfilled) refl
    ]
  ],
  handlers_lem t.handlers e.exception_handler e.page_fault_handler e.default_handler v,
)
