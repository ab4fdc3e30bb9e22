-- ===== src/Console/Write.antt =====
-- `console_write` as a whole: the text appears on the screen as on the terminal, and nothing outside the
-- display is written.
use txos.Base.{
  ℕ, zero, suc, ◌+◌, ◌≤◌, ◌<◌, ◌≡◌, refl, arith, ◌⊎◌, inl, inr, ◌%◌, ◌∙◌, false, List, [], ◌∷◌,
}
use txos.Stdlib.{word}
use txos.Strings.{Memory}
use txos.Console.{
  Machine, CharClass, class, cga_mem_base, cga_mem_end, command_lf, obey, write_char, write_from,
  console_write, console_clear, ignored, bell, backspace, line_feed, form_feed, carriage_return,
  delete, visible,
}
use txos.Console.Terminal.{Terminal, new_line, type_class, type_char, type_text, blank}
use txos.Console.Erase.{erase_lem}
use txos.Console.Valid.{IsValid}
use txos.Console.Commands.{after, command_bs-Drawn, put_char-Drawn}
use txos.Console.Refine.{
  Shows, Drawn, Outside, command_cr-Drawn, command_lf-Drawn, command_del-Drawn,
}

column-new_line : (t : Terminal) → (new_line t).column ≡ t.column
column-new_line t = ground arith

-- what a byte of the text leaves
abbrev Typed : (old new : Machine) → Terminal → Type 0
Typed old new t = Drawn old new t × IsValid new.console

obey-Typed :
    (m : Machine) (t : Terminal) (k : CharClass) (ch attr : ℕ)
    → IsValid m.console
    → Shows m t
    → m.console.cursor_y + 1 < word
    → Typed m (obey m k ch attr) (type_class t k ch attr)
obey-Typed m t ignored ch attr v s small =
    (record { placed = v.placed; shows = s; kept = λ at out. refl; lines = omega arith }, v)
obey-Typed m t bell ch attr v s small =
    let shows : Shows (obey m bell ch attr) t = record {
      row_same = s.row_same;
      column_same = s.column_same;
      cells = s.cells;
    } in
    (record { placed = v.placed; shows = shows; kept = λ at out. refl; lines = omega arith }, v)
obey-Typed m t backspace ch attr v s small =
    let bs = command_bs-Drawn m t v s in
    (bs, record { placed = bs.placed; inside = ground (arith, v.inside) })
obey-Typed m t line_feed ch attr v s small =
    let fed = command_lf-Drawn m t v.placed s small in
    let done = command_cr-Drawn _ _ fed.placed fed.shows in
    (after fed (inr (omega arith)) done, record { placed = done.placed; inside = omega arith })
obey-Typed m t form_feed ch attr v s small =
    let fed = command_lf-Drawn m t v.placed s small in
    let inside : (command_lf m).console.cursor_x < 80 =
      omega (arith, fed.shows.column_same, column-new_line t, s.column_same, v.inside) in
    (fed, record { placed = fed.placed; inside = inside })
obey-Typed m t carriage_return ch attr v s small =
    let cr = command_cr-Drawn m t v.placed s in
    (cr, record { placed = cr.placed; inside = omega arith })
obey-Typed m t delete ch attr v s small = (command_del-Drawn m t v s, v)
obey-Typed m t visible ch attr v s small = put_char-Drawn m t ch attr v s small

-- the `count` bytes from `buf` on
abbrev pub text_at : (count : ℕ) → Memory → (buf : ℕ) → List ℕ
text_at zero memory buf = []
text_at (suc count) memory buf = memory buf ∷ text_at count memory (buf + 1)

-- no byte of the buffer lies in the display
abbrev pub Apart : (count buf : ℕ) → Type 0
Apart count buf = (buf + count ≤ cga_mem_base) ⊎ (cga_mem_end ≤ buf)

text_at-kept :
    (count : ℕ) (old new : Memory) (buf : ℕ)
    → ((at : ℕ) → Outside at → new at ≡ old at)
    → Apart count buf
    → text_at count new buf ≡ text_at count old buf
text_at-kept zero old new buf kept apart = refl
text_at-kept (suc count) old new buf kept apart =
    rw
      (
        kept buf (ground (arith, apart)),
        text_at-kept count old new (buf + 1) kept (ground (arith, apart)),
      )
      refl

write_from-Drawn :
    (count : ℕ) (m : Machine) (t : Terminal) (buf attr : ℕ)
    → IsValid m.console
    → Shows m t
    → m.console.cursor_y + count < word
    → Apart count buf
    → IsValid (write_from count m buf attr).console
      × Shows (write_from count m buf attr) (type_text t (text_at count m.memory buf) attr)
      × ((at : ℕ) → Outside at → (write_from count m buf attr).memory at ≡ m.memory at)
unfolding write_from write_char type_text
write_from-Drawn zero m t buf attr v s small apart = (v, s, λ at out. refl)
write_from-Drawn (suc count) m t buf attr v s small apart =
    let ch = m.memory buf in
    let m' = write_char m ch attr in
    let (d, v') = obey-Typed m t (class ch) ch attr v s (omega arith) in
    let (valid, shows, kept) =
      write_from-Drawn count m' (type_char t ch attr) (buf + 1) attr v' d.shows
        (omega (arith, d.lines)) (ground (arith, apart)) in
    (
      valid,
      rw (← text_at-kept count m.memory m'.memory (buf + 1) d.kept (ground (arith, apart))) shows,
      λ at out. kept at out ∙ d.kept at out,
    )

-- On a console whose cursor is in its place, and which shows a terminal's screen, `console_write` returns
-- `count` and leaves the screen and the cursor that the terminal has after the same text; it restores
-- the interrupt flag and writes no byte outside the display of [0xb8000, 0xbc000). The text lies outside
-- the display, and the counter of lines does not wrap.
pub console_write_refines :
    (m : Machine) (t : Terminal) (buf count flags : ℕ)
    → IsValid m.console
    → Shows m t
    → m.console.cursor_y + count < word
    → Apart count buf
    → let (returned, m') = console_write m buf count flags in
      (returned ≡ count)
      × IsValid m'.console
      × Shows m' (type_text t (text_at count m.memory buf) (flags % 256))
      × (m'.irq ≡ m.irq)
      × ((at : ℕ) → Outside at → m'.memory at ≡ m.memory at)
unfolding console_write
console_write_refines m t buf count flags v s small apart =
    let s' : Shows (record m { irq = false }) t = record {
      row_same = s.row_same;
      column_same = s.column_same;
      cells = s.cells;
    } in
    let (valid, shows, kept) =
      write_from-Drawn count (record m { irq = false }) t buf (flags % 256) v s' small apart in
    (
      refl,
      valid,
      record { row_same = shows.row_same; column_same = shows.column_same; cells = shows.cells },
      refl,
      kept,
    )

-- After `console_clear` the console is valid and shows the blank terminal, its cursor in the first cell,
-- and each byte outside the display is as before.
pub console_clear_lem :
    (m : Machine)
    → let m' = console_clear m in
      IsValid m'.console
      × Shows m' (record { bytes = λ r x. blank x; row = 0; column = 0 })
      × ((at : ℕ) → Outside at → m'.memory at ≡ m.memory at)
unfolding console_clear
console_clear_lem m = (
  record {
    placed = record { base = inl refl; column = omega arith; place = refl };
    inside = omega arith;
  },
  record {
    row_same = refl;
    column_same = refl;
    cells = λ r x hr hx. erase_lem 0x2000 m.memory cga_mem_base _ ∙ ground arith;
  },
  λ at out. erase_lem 0x2000 m.memory cga_mem_base at ∙ ground (arith, out),
)
