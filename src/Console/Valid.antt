-- ===== src/Console/Valid.antt =====
-- The cursor of the console and what of the display each command touches.
use txos.Base.{
  ℕ, ◌+◌, ◌-◌, ◌*◌, ◌≤◌, ◌<◌, ◌≡◌, refl, arith, ◌⊎◌, inl, ltb, if◌then◌else◌, ◌%◌, ◌∙◌, true,
}
use txos.Stdlib.{word}
use txos.Strings.{Memory}
use txos.Strings.Buffers.{in_buffer, memcpy_lem}
use txos.Console.{Console, Machine, cga_mem_base, cga_mem_end, scroll_up, sub}
use txos.Console.Terminal.{blank}
use txos.Console.Erase.{erase_lem}

-- the row of the screen that the cursor is in; `cursor_y` grows on while the screen scrolls
abbrev pub row : Console → ℕ
row c = if ltb c.cursor_y 25 then c.cursor_y else 24

-- The screen starts at the display's first or second row, and the cursor's address is that of its
-- coordinates.
pub record IsPlaced (c : Console) : Type 0 where
  pub base : (c.screen_base ≡ cga_mem_base) ⊎ (c.screen_base ≡ cga_mem_base + 160)
  pub column : c.cursor_x ≤ 80
  pub place : c.cursor_addr ≡ c.screen_base + row c * 160 + c.cursor_x * 2

pub record IsValid (c : Console) : Type 0 where
  pub placed : IsPlaced c
  pub inside : c.cursor_x < 80

pub row-le : (c : Console) → row c ≤ 24
row-le c = ground arith

-- the display after the screen has moved up by a row
abbrev pub scrolled : (memory : Memory) (base at : ℕ) → ℕ
scrolled memory base at =
    if in_buffer (cga_mem_base + 4000) 160 at
    then blank (at - (cga_mem_base + 4000))
    else if in_buffer cga_mem_base 4000 at
    then memory (base + (at - cga_mem_base))
    else memory at

-- Scrolling always copies the screen to the start of the display, and shows it from its second row.
pub scroll_up_lem :
    (m : Machine)
    → IsPlaced m.console
    → let c = m.console in
      let m' = scroll_up m in
      (m'.console ≡ record c {
        screen_base = cga_mem_base + 160;
        cursor_addr = c.cursor_addr - (c.screen_base - cga_mem_base);
      })
      × ((at : ℕ) → m'.memory at ≡ scrolled m.memory c.screen_base at)
unfolding scroll_up
scroll_up_lem m p =
    let c = m.console in
    let low : cga_mem_base ≤ c.screen_base = ground (arith, p.base) in
    let high : c.screen_base ≤ cga_mem_base + 160 = ground (arith, p.base) in
    let room : ltb ((c.screen_base + 4000 + 160) % word) cga_mem_end ≡ true = ground arith in
    let below : c.screen_base - cga_mem_base ≤ c.cursor_addr = omega (arith, p.place) in
    let bound : c.cursor_addr < word = omega (arith, p.place, p.column, row-le c) in
    let back : sub c.cursor_addr (sub c.screen_base cga_mem_base)
        ≡ c.cursor_addr - (c.screen_base - cga_mem_base) =
      omega arith in
    rw (room, back)
      (
        refl,
        λ at.
            erase_lem 80 _ (cga_mem_base + 4000) at
            ∙ rw (memcpy_lem 4000 m.memory cga_mem_base c.screen_base at (inl low)) refl,
      )
