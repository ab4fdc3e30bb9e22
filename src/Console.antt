-- ===== src/Console.antt =====
-- src/kernel/console.c: the text screen. The memory is that of the machine, so that the buffer that is
-- written and the display share it; `written` holds what went to the ports, the last first.
pub mod Terminal
pub mod Erase
pub mod Valid
pub mod Refine
pub mod Commands
pub mod Write
mod Tests
use txos.Base.{
  ℕ, zero, suc, ◌+◌, ◌-◌, ◌*◌, ◌/◌, ◌%◌, ◌^◌, Bool, false, List, [], ◌∷◌, ◌==◌, ltb, leb,
  if◌then◌else◌, update,
}
use txos.Stdlib.{word}
use txos.Strings.{Memory, memcpy}
use txos.Beeper.{Beeper, start_beep}

abbrev pub crt_addr_port : ℕ
crt_addr_port = 0x3d4

abbrev pub crt_data_port : ℕ
crt_data_port = 0x3d5

abbrev pub cga_mem_base : ℕ
cga_mem_base = 0xb8000

abbrev pub cga_mem_end : ℕ
cga_mem_end = 0xbc000

abbrev pub scr_width : ℕ
scr_width = 80

abbrev pub scr_height : ℕ
scr_height = 25

abbrev pub scr_row_size : ℕ
scr_row_size = 160

abbrev pub scr_size : ℕ
scr_size = 4000

-- `console_t`
pub record Console : Type 0 where
  pub screen_base : ℕ
  pub cursor_addr : ℕ
  pub cursor_x : ℕ
  pub cursor_y : ℕ

pub record Machine : Type 0 where
  pub console : Console
  pub memory : Memory
  pub written : List (ℕ × ℕ)
  pub irq : Bool
  pub beeper : Beeper
  pub jiffies : ℕ

-- the difference of two `u32`
abbrev pub sub : ℕ → ℕ → ℕ
sub a b = (a + word - b) % word

-- `*(u16 *)ptr = ERASE`
abbrev pub store_erase : Memory → ℕ → Memory
store_erase memory ptr = update (update memory ptr 0x20) (ptr + 1) 0x07

-- The byte offset of an address in the display, sent to the register pair from `index` on.
abbrev pub send_address : (index address : ℕ) → List (ℕ × ℕ) → List (ℕ × ℕ)
send_address index address written =
    let offset = sub address cga_mem_base in
    (crt_data_port, offset / 2 % 256)
    ∷ (crt_addr_port, index + 1)
    ∷ (crt_data_port, offset / 2 ^ 9 % 256)
    ∷ (crt_addr_port, index)
    ∷ written

abbrev pub set_screen_base : Machine → Machine
set_screen_base m = record m { written = send_address 0xc m.console.screen_base m.written }

abbrev pub set_cursor_addr : Machine → Machine
set_cursor_addr m = record m { written = send_address 0xe m.console.cursor_addr m.written }

-- The loops that erase `count` cells from `ptr` on.
unfoldable pub erase : (count : ℕ) → Memory → (ptr : ℕ) → Memory
erase zero memory ptr = memory
erase (suc count) memory ptr = erase count (store_erase memory ptr) (ptr + 2)

-- The screen moved back to the start of the display.
abbrev pub roll_back : Machine → Machine
roll_back m =
    let c = m.console in
    if ltb ((c.screen_base + scr_size + scr_row_size) % word) cga_mem_end
    then record m {
      memory = memcpy scr_size m.memory cga_mem_base c.screen_base;
      console = record c {
        cursor_addr = sub c.cursor_addr (sub c.screen_base cga_mem_base);
        screen_base = cga_mem_base;
      };
    }
    else m

unfoldable pub scroll_up : Machine → Machine
scroll_up m =
    let m' = roll_back m in
    let base = m'.console.screen_base in
    set_screen_base (record m' {
      memory = erase scr_width m'.memory ((base + scr_size) % word);
      console = record m'.console { screen_base = (base + scr_row_size) % word };
    })

unfoldable pub command_lf : Machine → Machine
command_lf m =
    let m' = if leb scr_height ((m.console.cursor_y + 1) % word) then scroll_up m else m in
    let c = m'.console in
    record m' {
      console = record c {
        cursor_y = (c.cursor_y + 1) % word;
        cursor_addr = (c.cursor_addr + scr_row_size) % word;
      };
    }

abbrev pub command_cr : Machine → Machine
command_cr m =
    let c = m.console in
    record m {
      console = record c { cursor_addr = sub c.cursor_addr (c.cursor_x * 2 % word); cursor_x = 0 };
    }

abbrev pub command_bs : Machine → Machine
command_bs m =
    let c = m.console in
    let address = sub c.cursor_addr 2 in
    if c.cursor_x == 0 then m else record m {
      console = record c { cursor_x = c.cursor_x - 1; cursor_addr = address };
      memory = store_erase m.memory address;
    }

abbrev pub command_del : Machine → Machine
command_del m = record m { memory = store_erase m.memory m.console.cursor_addr }

-- The default case of the switch.
unfoldable pub put_char : Machine → (ch attr : ℕ) → Machine
put_char m ch attr =
    let c = m.console in
    let m' = record m {
      memory = update (update m.memory c.cursor_addr ch) (c.cursor_addr + 1) attr;
      console = record c {
        cursor_addr = (c.cursor_addr + 2) % word;
        cursor_x = (c.cursor_x + 1) % word;
      };
    } in
    if leb scr_width m'.console.cursor_x then command_cr (command_lf m') else m'

-- the classes of bytes that the switch tells apart
pub data CharClass : Type 0 where
  ignored : CharClass
  bell : CharClass
  backspace : CharClass
  line_feed : CharClass
  form_feed : CharClass
  carriage_return : CharClass
  delete : CharClass
  visible : CharClass

abbrev pub class : ℕ → CharClass
class ch =
    if ch == 0x00
    then ignored
    else if ch == 0x05
    then ignored
    else if ch == 0x07
    then bell
    else if ch == 0x08
    then backspace
    else if ch == 0x09
    then ignored
    else if ch == 0x0a
    then line_feed
    else if ch == 0x0b
    then ignored
    else if ch == 0x0c
    then form_feed
    else if ch == 0x0d
    then carriage_return
    else if ch == 0x7f
    then delete
    else visible

-- The cases of the switch.
abbrev pub obey : Machine → CharClass → (ch attr : ℕ) → Machine
obey m ignored ch attr = m
obey m bell ch attr = record m { beeper = start_beep m.jiffies m.beeper }
obey m backspace ch attr = command_bs m
obey m line_feed ch attr = command_cr (command_lf m)
obey m form_feed ch attr = command_lf m
obey m carriage_return ch attr = command_cr m
obey m delete ch attr = command_del m
obey m visible ch attr = put_char m ch attr

-- The body of the loop of `console_write`.
unfoldable pub write_char : Machine → (ch attr : ℕ) → Machine
write_char m ch attr = obey m (class ch) ch attr

unfoldable pub write_from : (count : ℕ) → Machine → (buf attr : ℕ) → Machine
write_from zero m buf attr = m
write_from (suc count) m buf attr =
    write_from count (write_char m (m.memory buf) attr) (buf + 1) attr

-- The number of bytes and the machine; `flags` carries the attribute.
unfoldable pub console_write : Machine → (buf count flags : ℕ) → ℕ × Machine
console_write m buf count flags =
    let m' = set_cursor_addr (write_from count (record m { irq = false }) buf (flags % 256)) in
    (count, record m' { irq = m.irq })

unfoldable pub console_clear : Machine → Machine
console_clear m =
    let c : Console = record {
      screen_base = cga_mem_base;
      cursor_addr = cga_mem_base;
      cursor_x = 0;
      cursor_y = 0;
    } in
    let m' = set_cursor_addr (set_screen_base (record m { console = c })) in
    record m' { memory = erase 0x2000 m.memory cga_mem_base }
