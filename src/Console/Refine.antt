-- ===== src/Console/Refine.antt =====
-- Each command of the console acts as the terminal's, and touches the display alone.
use txos.Base.{
  ℕ, ◌+◌, ◌-◌, ◌*◌, ◌≤◌, ◌<◌, ◌≡◌, refl, arith, ◌⊎◌, inl, inr, leb, ltb, ◌==◌, if◌then◌else◌, ◌%◌,
  ◌∙◌, true, false, Bool-cases, ap, update,
}
use txos.Stdlib.{word}
use txos.Strings.{Memory}
use txos.Strings.Buffers.{in_buffer}
use txos.Console.{
  Console, Machine, cga_mem_base, cga_mem_end, scroll_up, command_lf, command_cr, command_del, sub,
}
use txos.Console.Terminal.{Terminal, new_line, return, with_cell, blank}
use txos.Console.Valid.{IsPlaced, IsValid, row, row-le, scrolled, scroll_up_lem}

-- The bytes of the screen and the cursor are those of the terminal.
pub record Shows (m : Machine) (t : Terminal) : Type 0 where
  pub row_same : row m.console ≡ t.row
  pub column_same : m.console.cursor_x ≡ t.column
  pub cells :
      (r x : ℕ) → r < 25 → x < 160 → m.memory (m.console.screen_base + (r * 160 + x)) ≡ t.bytes r x

abbrev pub Outside : ℕ → Type 0
Outside at = (at < cga_mem_base) ⊎ (cga_mem_end ≤ at)

-- What a command leaves: the cursor in its place, the terminal's screen, and the rest of the memory
-- as it was; the counter of lines has grown by one at most.
pub record Drawn (old new : Machine) (t : Terminal) : Type 0 where
  pub placed : IsPlaced new.console
  pub shows : Shows new t
  pub kept : (at : ℕ) → Outside at → new.memory at ≡ old.memory at
  pub lines : new.console.cursor_y ≤ old.console.cursor_y + 1

scrolled-cells :
    (m : Machine) (t : Terminal)
    → Shows m t
    → (r x : ℕ) → r < 25
    → x < 160
    → scrolled m.memory m.console.screen_base (cga_mem_base + 160 + (r * 160 + x))
      ≡ (if ltb r 24 then t.bytes (r + 1) x else blank x)
scrolled-cells m t s r x hr hx = elim (Bool-cases (ltb r 24)) [
  | inl above ↦
      let clear : in_buffer (cga_mem_base + 4000) 160 (cga_mem_base + 160 + (r * 160 + x)) ≡ false =
        ground arith in
      let copied : in_buffer cga_mem_base 4000 (cga_mem_base + 160 + (r * 160 + x)) ≡ true =
        ground arith in
      let place : cga_mem_base + 160 + (r * 160 + x) - cga_mem_base ≡ (r + 1) * 160 + x =
        omega arith in
      rw (above, clear, copied, place) (s.cells (r + 1) x (ground arith) hx)
  | inr bottom ↦
      let erased : in_buffer (cga_mem_base + 4000) 160 (cga_mem_base + 160 + (r * 160 + x)) ≡ true =
        ground arith in
      let place : cga_mem_base + 160 + (r * 160 + x) - (cga_mem_base + 4000) ≡ x = ground arith in
      rw (bottom, erased, place) refl
]

scrolled-Outside :
    (memory : Memory) (base at : ℕ) → Outside at → scrolled memory base at ≡ memory at
scrolled-Outside memory base at out =
    let clear : in_buffer (cga_mem_base + 4000) 160 at ≡ false = ground arith in
    let uncopied : in_buffer cga_mem_base 4000 at ≡ false = ground arith in
    rw (clear, uncopied) refl

-- A line feed that scrolls.
command_lf-scroll :
    (m : Machine) (t : Terminal)
    → IsPlaced m.console
    → Shows m t
    → m.console.cursor_y + 1 < word
    → 24 ≤ m.console.cursor_y
    → Drawn m (command_lf m) (new_line t)
unfolding command_lf
command_lf-scroll m t p s small bottom =
    let c = m.console in
    let full : leb 25 ((c.cursor_y + 1) % word) ≡ true = ground arith in
    let last : (t.row == 24) ≡ true = ground (arith, s.row_same) in
    let (moved, bytes) = scroll_up_lem m p in
    let base : (scroll_up m).console.screen_base ≡ cga_mem_base + 160 =
      ap (λ c. c.screen_base) moved in
    let address : (scroll_up m).console.cursor_addr
        ≡ c.cursor_addr - (c.screen_base - cga_mem_base) =
      ap (λ c. c.cursor_addr) moved in
    let column : (scroll_up m).console.cursor_x ≡ c.cursor_x = ap (λ c. c.cursor_x) moved in
    let line : (scroll_up m).console.cursor_y ≡ c.cursor_y = ap (λ c. c.cursor_y) moved in
    rw (full, last)
      (record {
        placed = record {
          base = inr base;
          column = omega (arith, column, p.column);
          place = ground (arith, address, base, column, line, p.place, p.base, p.column);
        };
        shows = record {
          row_same = ground (arith, line, s.row_same);
          column_same = column ∙ s.column_same;
          cells = λ r x hr hx.
              rw base (bytes (cga_mem_base + 160 + (r * 160 + x)) ∙ scrolled-cells m t s r x hr hx);
        };
        kept = λ at out. bytes at ∙ scrolled-Outside m.memory c.screen_base at out;
        lines = ground (arith, line);
      })

command_lf-stay :
    (m : Machine) (t : Terminal)
    → IsPlaced m.console
    → Shows m t
    → m.console.cursor_y < 24
    → Drawn m (command_lf m) (new_line t)
unfolding command_lf
command_lf-stay m t p s above =
    let c = m.console in
    let room : leb 25 ((c.cursor_y + 1) % word) ≡ false = ground arith in
    let inner : (t.row == 24) ≡ false = ground (arith, s.row_same) in
    rw (room, inner)
      (record {
        placed = record {
          base = p.base;
          column = p.column;
          place = ground (arith, p.place, p.base, p.column);
        };
        shows = record {
          row_same = ground (arith, s.row_same);
          column_same = s.column_same;
          cells = s.cells;
        };
        kept = λ at out. refl;
        lines = ground arith;
      })

-- Two bytes stored in the cell at `(row, column)` change that cell alone.
pub cell-cells :
    (memory : Memory) (bytes : ℕ → ℕ → ℕ) (base row column low high : ℕ)
    → ((r x : ℕ) → r < 25 → x < 160 → memory (base + (r * 160 + x)) ≡ bytes r x)
    → row < 25
    → column < 80
    → (r x : ℕ) → r < 25
    → x < 160
    → update
        (update memory (base + row * 160 + column * 2) low)
        (base + row * 160 + column * 2 + 1)
        high
        (base + (r * 160 + x))
      ≡ with_cell bytes row column low high r x
cell-cells memory bytes base row column low high cells hr hc r x hr' hx =
    elim (Bool-cases (r == row)) [
      | inl same ↦ ground (arith, cells r x hr' hx)
      | inr other ↦
          let first : (base + row * 160 + column * 2 == base + (r * 160 + x)) ≡ false =
            ground arith in
          let second : (base + row * 160 + column * 2 + 1 == base + (r * 160 + x)) ≡ false =
            ground arith in
          rw (other, first, second) (cells r x hr' hx)
    ]

-- A store in a cell of the screen keeps what is outside the display.
pub cell-Outside :
    (memory : Memory) (c : Console) (low high at : ℕ)
    → IsPlaced c
    → c.cursor_x < 80
    → Outside at
    → update (update memory c.cursor_addr low) (c.cursor_addr + 1) high at ≡ memory at
cell-Outside memory c low high at p inside out = ground (arith, p.place, p.base, row-le c)

pub command_del-Drawn :
    (m : Machine) (t : Terminal)
    → IsValid m.console
    → Shows m t
    → Drawn m (command_del m) (record t { bytes = with_cell t.bytes t.row t.column 0x20 0x07 })
command_del-Drawn m t v s = record {
  placed = v.placed;
  shows = record {
    row_same = s.row_same;
    column_same = s.column_same;
    cells = λ r x hr hx.
        rw (v.placed.place, ← s.row_same, ← s.column_same)
          (cell-cells m.memory t.bytes m.console.screen_base (row m.console) m.console.cursor_x 0x20
            0x07 s.cells (omega (arith, row-le m.console)) v.inside r x hr hx);
  };
  kept = λ at out. cell-Outside m.memory m.console 0x20 0x07 at v.placed v.inside out;
  lines = omega arith;
}

pub command_cr-Drawn :
    (m : Machine) (t : Terminal)
    → IsPlaced m.console
    → Shows m t
    → Drawn m (command_cr m) (return t)
command_cr-Drawn m t p s =
    let c = m.console in
    let start : sub c.cursor_addr (c.cursor_x * 2 % word) ≡ c.screen_base + row c * 160 =
      omega (arith, p.place, p.column, p.base, row-le c) in
    record {
      placed = record { base = p.base; column = omega arith; place = rw start (omega arith) };
      shows = record { row_same = s.row_same; column_same = refl; cells = s.cells };
      kept = λ at out. refl;
      lines = omega arith;
    }

pub command_lf-Drawn :
    (m : Machine) (t : Terminal)
    → IsPlaced m.console
    → Shows m t
    → m.console.cursor_y + 1 < word
    → Drawn m (command_lf m) (new_line t)
command_lf-Drawn m t p s small = elim (Bool-cases (ltb m.console.cursor_y 24)) [
  | inl above ↦ command_lf-stay m t p s (ground arith)
  | inr bottom ↦ command_lf-scroll m t p s small (ground arith)
]
