-- ===== src/Console/Commands.antt =====
-- The commands that store a cell: backspace and the visible characters.
use txos.Base.{
  ℕ, ◌+◌, ◌-◌, ◌*◌, ◌≤◌, ◌<◌, ◌≡◌, refl, arith, ◌⊎◌, inl, inr, leb, ◌==◌, ◌%◌, ◌∙◌, true, false,
  Bool-cases, ap, update,
}
use txos.Stdlib.{word}
use txos.Console.{Machine, command_bs, put_char, sub}
use txos.Console.Terminal.{Terminal, back, type_visible, with_cell}
use txos.Console.Valid.{IsValid, row, row-le}
use txos.Console.Refine.{Shows, Drawn, cell-cells, cell-Outside, command_cr-Drawn, command_lf-Drawn}

-- one command after another that leaves the counter of lines
pub after :
    {old mid new : Machine} {t t' : Terminal}
    → Drawn old mid t
    → mid.console.cursor_y ≤ old.console.cursor_y ⊎ new.console.cursor_y ≤ mid.console.cursor_y
    → Drawn mid new t'
    → Drawn old new t'
after d still e = record {
  placed = e.placed;
  shows = e.shows;
  kept = λ at out. e.kept at out ∙ d.kept at out;
  lines = ground (arith, d.lines, e.lines);
}

pub command_bs-Drawn :
    (m : Machine) (t : Terminal) → IsValid m.console → Shows m t → Drawn m (command_bs m) (back t)
command_bs-Drawn m t v s = elim (Bool-cases (m.console.cursor_x == 0)) [
  | inl first ↦
      let start : (t.column == 0) ≡ true = ground (arith, s.column_same) in
      rw (first, start)
        (record { placed = v.placed; shows = s; kept = λ at out. refl; lines = omega arith })
  | inr later ↦
      let c = m.console in
      let inner : (t.column == 0) ≡ false = ground (arith, s.column_same) in
      let address : sub c.cursor_addr 2 ≡ c.screen_base + row c * 160 + (c.cursor_x - 1) * 2 =
        ground (arith, v.placed.place, v.placed.base, v.inside, row-le c) in
      rw (later, inner, address)
        (record {
          placed = record { base = v.placed.base; column = omega (arith, v.inside); place = refl };
          shows = record {
            row_same = s.row_same;
            column_same = ap (λ x. x - 1) s.column_same;
            cells = λ r x hr hx.
                rw (← s.row_same, ← s.column_same)
                  (cell-cells m.memory t.bytes c.screen_base (row c) (c.cursor_x - 1) 0x20 0x07
                    s.cells (omega (arith, row-le c)) (omega (arith, v.inside)) r x hr hx);
          };
          kept = λ at out. ground (arith, v.placed.base, row-le c, v.inside);
          lines = omega arith;
        })
]

-- the machine with a byte put under the cursor, before the end of the row is looked at
abbrev put_cell : Machine → (ch attr : ℕ) → Machine
put_cell m ch attr =
    let c = m.console in
    record m {
      memory = update (update m.memory c.cursor_addr ch) (c.cursor_addr + 1) attr;
      console = record c {
        cursor_addr = (c.cursor_addr + 2) % word;
        cursor_x = (c.cursor_x + 1) % word;
      };
    }

put_cell-Drawn :
    (m : Machine) (t : Terminal) (ch attr : ℕ)
    → IsValid m.console
    → Shows m t
    → Drawn m
        (put_cell m ch attr)
        (record t { bytes = with_cell t.bytes t.row t.column ch attr; column = t.column + 1 })
put_cell-Drawn m t ch attr v s =
    let c = m.console in
    record {
      placed = record {
        base = v.placed.base;
        column = omega (arith, v.inside);
        place = omega (arith, v.placed.place, v.placed.base, v.inside, row-le c);
      };
      shows = record {
        row_same = s.row_same;
        column_same = omega (arith, v.inside, s.column_same);
        cells = λ r x hr hx.
            rw (v.placed.place, ← s.row_same, ← s.column_same)
              (cell-cells m.memory t.bytes c.screen_base (row c) c.cursor_x ch attr s.cells
                (omega (arith, row-le c)) v.inside r x hr hx);
      };
      kept = λ at out. cell-Outside m.memory c ch attr at v.placed v.inside out;
      lines = omega arith;
    }

pub put_char-Drawn :
    (m : Machine) (t : Terminal) (ch attr : ℕ)
    → IsValid m.console
    → Shows m t
    → m.console.cursor_y + 1 < word
    → Drawn m (put_char m ch attr) (type_visible t ch attr) × IsValid (put_char m ch attr).console
unfolding put_char
put_char-Drawn m t ch attr v s small =
    let c = m.console in
    let d = put_cell-Drawn m t ch attr v s in
    elim (Bool-cases (t.column == 79)) [
      | inl last ↦
          let full : leb 80 ((c.cursor_x + 1) % word) ≡ true = ground (arith, s.column_same) in
          let fed = command_lf-Drawn (put_cell m ch attr) _ d.placed d.shows small in
          let done = command_cr-Drawn _ _ fed.placed fed.shows in
          rw (full, last)
            (
              after (after d (inl (omega arith)) fed) (inr (omega arith)) done,
              record { placed = done.placed; inside = omega arith },
            )
      | inr more ↦
          let room : leb 80 ((c.cursor_x + 1) % word) ≡ false =
            ground (arith, s.column_same, v.inside) in
          rw (room, more)
            (d, record { placed = d.placed; inside = ground (arith, s.column_same, v.inside) })
    ]
