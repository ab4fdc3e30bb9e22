-- ===== src/Ata/Tests.antt =====
-- The slave disk of the first bus, and a string of four bytes.
use txos.Base.{◌/◌, ◌^◌, ◌≡◌, refl, inr, arith, [], ok, ◌∷◌}
use txos.Ata.{
  Disk, Bus, ata_select_disk, ata_select_sector, ata_swap_words, swap_pairs, ata_busy_wait,
}
use txos.Ata.Select.{register, sector, ata_select_sector_lem}
use txos.Strings.{Memory}

abbrev slave : Disk
slave = record { ptr = 0x500; selector = 0xf0 }

abbrev bus : Bus
bus = record { iobase = 0x1f0; active = 0; written = [] }

abbrev selected : Bus
selected = ata_select_sector slave 70000 8 (ata_select_disk slave bus)

-- busy, then ready, then with data
waits_for_data : ata_busy_wait 0x08 (0x80 ∷ 0x40 ∷ 0x48 ∷ 0x40 ∷ []) ≡ ok (0, 0x40 ∷ [])
unfolding ata_busy_wait
waits_for_data = refl

ata_select_sector_lem_example :
    (sector selected ≡ 70000)
    × (register selected.written 0x1f2 ≡ 8)
    × (register selected.written 0x1f6 / 2 ^ 4 ≡ 15)
    × (register selected.written 0x1f7 ≡ register (ata_select_disk slave bus).written 0x1f7)
    × (selected.active ≡ 0x500)
unfolding ata_select_disk
ata_select_sector_lem_example =
    ata_select_sector_lem slave 70000 8 7 (ata_select_disk slave bus) (inr refl) (omega arith)

abbrev serial : Memory
serial = λ p. p

exchanged : ata_swap_words serial 100 4 100 ≡ 101
unfolding ata_swap_words swap_pairs
exchanged = refl

ended : ata_swap_words serial 100 4 103 ≡ 0
unfolding ata_swap_words swap_pairs
ended = refl
