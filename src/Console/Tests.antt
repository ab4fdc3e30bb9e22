-- ===== src/Console/Tests.antt =====
-- A console at work on a memory of one letter.
use txos.Base.{ℕ, ◌≡◌, refl, arith, ◌∷◌, [], inl, true}
use txos.Console.{Machine, cga_mem_base, console_write}
use txos.Console.Terminal.{Terminal, type_text}
use txos.Console.Valid.{IsValid}
use txos.Console.Refine.{Shows, Outside}
use txos.Console.Write.{console_write_refines}

abbrev lettered : Machine
lettered = record {
  console = record {
    screen_base = cga_mem_base;
    cursor_addr = cga_mem_base;
    cursor_x = 0;
    cursor_y = 0;
  };
  memory = λ at. 65;
  written = [];
  irq = true;
  beeper = record { register = 0; beeping = 0 };
  jiffies = 9;
}

abbrev letters : Terminal
letters = record { bytes = λ r x. 65; row = 0; column = 0 }

lettered-IsValid : IsValid lettered.console
lettered-IsValid = record {
  placed = record { base = inl refl; column = omega arith; place = refl };
  inside = omega arith;
}

typed : (type_text letters (66 ∷ 10 ∷ 67 ∷ 68 ∷ 8 ∷ []) 7).bytes 1 2 ≡ 0x20
unfolding type_text
typed = refl

-- An attribute of more than a byte, on three letters.
console_write_refines_example :
    let (returned, m') = console_write lettered 100 3 263 in
    (returned ≡ 3)
    × IsValid m'.console
    × Shows m' (type_text letters (65 ∷ 65 ∷ 65 ∷ []) 7)
    × (m'.irq ≡ true)
    × ((at : ℕ) → Outside at → m'.memory at ≡ 65)
console_write_refines_example =
    console_write_refines lettered letters 100 3 263 lettered-IsValid
      (record { row_same = refl; column_same = refl; cells = λ r x hr hx. refl }) (omega arith)
      (inl (omega arith))
