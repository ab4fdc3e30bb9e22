-- ===== src/Ata.antt =====
-- src/kernel/ata.c: waiting for a drive, the choice of a sector, and the strings of a drive. A bus is
-- what was written to its ports, the last first, and what its alternate status port gives in order.
pub mod Select
pub mod Waiting
pub mod Words
mod Tests
use txos.Base.{
  ℕ, zero, suc, ◌+◌, ◌-◌, ◌/◌, ◌%◌, ◌^◌, bit_and, bit_or, List, [], ◌∷◌, ◌==◌, if◌then◌else◌,
  update, Outcome, ok, out_of_fuel,
}
use txos.Strings.{Memory}

abbrev pub io_feature : ℕ
io_feature = 1

abbrev pub io_secnr : ℕ
io_secnr = 2

abbrev pub io_lba_low : ℕ
io_lba_low = 3

abbrev pub io_lba_mid : ℕ
io_lba_mid = 4

abbrev pub io_lba_high : ℕ
io_lba_high = 5

abbrev pub io_device : ℕ
io_device = 6

abbrev pub sr_err : ℕ
sr_err = 0x01

abbrev pub sr_bsy : ℕ
sr_bsy = 0x80

abbrev pub master_selector : ℕ
master_selector = 0b11100000

abbrev pub slave_selector : ℕ
slave_selector = 0b11110000

-- `ata_disk_t`, of which `ptr` is the address
pub record Disk : Type 0 where
  pub ptr : ℕ
  pub selector : ℕ

-- the parts of `ata_bus_t` that the choice of a disk uses
pub record Bus : Type 0 where
  pub iobase : ℕ
  pub active : ℕ
  pub written : List (ℕ × ℕ)

-- `outb(bus->iobase + port, byte)`
abbrev pub outb : (port byte : ℕ) → Bus → Bus
outb port byte bus = record bus { written = (bus.iobase + port, byte) ∷ bus.written }

-- The result, and what the status port gives next; a drive that gives nothing more is waited for.
unfoldable pub ata_busy_wait : (mask : ℕ) → (states : List ℕ) → Outcome (ℕ × List ℕ)
ata_busy_wait mask [] = out_of_fuel
ata_busy_wait mask (state ∷ states) =
    let again = ata_busy_wait mask states in
    if bit_and state sr_err == 0
    then if bit_and state sr_bsy == 0
      then if bit_and state mask == mask then ok (0, states) else again
      else again
    else ok (sr_err, states)

unfoldable pub ata_select_disk : Disk → Bus → Bus
ata_select_disk disk bus = record (outb io_device disk.selector bus) { active = disk.ptr }

unfoldable pub ata_select_sector : Disk → (lba count : ℕ) → Bus → Bus
ata_select_sector disk lba count bus =
    let bus = outb io_feature 0 bus in
    let bus = outb io_secnr count bus in
    let bus = outb io_lba_low (lba % 2 ^ 8) bus in
    let bus = outb io_lba_mid (lba / 2 ^ 8 % 2 ^ 8) bus in
    let bus = outb io_lba_high (lba / 2 ^ 16 % 2 ^ 8) bus in
    let bus = outb io_device (bit_or disk.selector (lba / 2 ^ 24 % 2 ^ 4)) bus in
    record bus { active = disk.ptr }

-- the loop of `ata_swap_words` over `pairs` pairs of bytes
unfoldable pub swap_pairs : (pairs : ℕ) → Memory → (buf : ℕ) → Memory
swap_pairs zero m buf = m
swap_pairs (suc pairs) m buf =
    swap_pairs pairs (update (update m buf (m (buf + 1))) (buf + 1) (m buf)) (buf + 2)

-- `len` is not 0.
unfoldable pub ata_swap_words : Memory → (buf len : ℕ) → Memory
ata_swap_words m buf len = update (swap_pairs ((len + 1) / 2) m buf) (buf + len - 1) 0
