-- ===== src/Console/Terminal.antt =====
-- What a text screen promises: 25 rows of 80 cells, each a character and its attribute, and a cursor;
-- a line feed on the last row moves all rows up by one.
use txos.Base.{ℕ, ◌+◌, ◌-◌, ◌*◌, ◌%◌, List, [], ◌∷◌, ◌==◌, ltb, if◌then◌else◌, ◌&&◌}
use txos.Console.{
  CharClass, class, ignored, bell, backspace, line_feed, form_feed, carriage_return, delete,
  visible,
}

-- the bytes of each row, two to a cell, and the cursor's row and column
pub record Terminal : Type 0 where
  pub bytes : ℕ → ℕ → ℕ
  pub row : ℕ
  pub column : ℕ

-- the bytes of an erased cell
abbrev pub blank : ℕ → ℕ
blank x = if x % 2 == 0 then 0x20 else 0x07

-- the cell under `(row, column)` given two bytes
abbrev pub with_cell : (ℕ → ℕ → ℕ) → (row column low high : ℕ) → ℕ → ℕ → ℕ
with_cell bytes row column low high r x =
    if (r == row) && (x == column * 2)
    then low
    else if (r == row) && (x == column * 2 + 1)
    then high
    else bytes r x

abbrev pub new_line : Terminal → Terminal
new_line t =
    if t.row == 24
    then record t { bytes = λ r x. if ltb r 24 then t.bytes (r + 1) x else blank x }
    else record t { row = t.row + 1 }

abbrev pub return : Terminal → Terminal
return t = record t { column = 0 }

abbrev pub back : Terminal → Terminal
back t = if t.column == 0 then t else record t {
  bytes = with_cell t.bytes t.row (t.column - 1) 0x20 0x07;
  column = t.column - 1;
}

abbrev pub type_visible : Terminal → (ch attr : ℕ) → Terminal
type_visible t ch attr =
    let t' = record t { bytes = with_cell t.bytes t.row t.column ch attr; column = t.column + 1 } in
    if t.column == 79 then return (new_line t') else t'

abbrev pub type_class : Terminal → CharClass → (ch attr : ℕ) → Terminal
type_class t ignored ch attr = t
type_class t bell ch attr = t
type_class t backspace ch attr = back t
type_class t line_feed ch attr = return (new_line t)
type_class t form_feed ch attr = new_line t
type_class t carriage_return ch attr = return t
type_class t delete ch attr = record t { bytes = with_cell t.bytes t.row t.column 0x20 0x07 }
type_class t visible ch attr = type_visible t ch attr

abbrev pub type_char : Terminal → (ch attr : ℕ) → Terminal
type_char t ch attr = type_class t (class ch) ch attr

unfoldable pub type_text : Terminal → List ℕ → (attr : ℕ) → Terminal
type_text t [] attr = t
type_text t (ch ∷ text) attr = type_text (type_char t ch attr) text attr
