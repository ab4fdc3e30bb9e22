-- ===== src/Ata/Select.antt =====
-- The sector that a drive has in its registers after `ata_select_sector`.
use txos.Base.{
  ℕ, ◌+◌, ◌*◌, ◌/◌, ◌%◌, ◌^◌, ◌<◌, ◌≡◌, ◌⊎◌, inl, inr, refl, arith, Bool, true, List, [], ◌∷◌,
  bit_or, ◌==◌, ◌&&◌, if◌then◌else◌, tabulated, tabulated_case, leb,
}
use txos.Ata.{
  Disk, Bus, io_feature, io_secnr, io_lba_low, io_lba_mid, io_lba_high, io_device, master_selector,
  slave_selector, ata_select_sector,
}

-- the byte last written to a port, 0 if none was
unfoldable pub register : List (ℕ × ℕ) → (port : ℕ) → ℕ
register [] port = 0
register ((written, byte) ∷ before) port =
    let older = register before port in if written == port then byte else older

-- the sector in the registers of the drive
abbrev pub sector : Bus → ℕ
sector bus =
    register bus.written (bus.iobase + io_lba_low)
    + register bus.written (bus.iobase + io_lba_mid) * 2 ^ 8
    + register bus.written (bus.iobase + io_lba_high) * 2 ^ 16
    + register bus.written (bus.iobase + io_device) % 2 ^ 4 * 2 ^ 24

abbrev selectors_free : ℕ → Bool
selectors_free x =
    (bit_or master_selector x == master_selector + x)
    && (bit_or slave_selector x == slave_selector + x)

selectors_table : tabulated selectors_free 16 ≡ true
unfolding tabulated
selectors_table = refl

bit_or-selector :
    (selector x : ℕ)
    → (selector ≡ master_selector) ⊎ (selector ≡ slave_selector)
    → x < 16
    → bit_or selector x ≡ selector + x
bit_or-selector selector x is small =
    let free : selectors_free x ≡ true = tabulated_case selectors_free small selectors_table in
    elim is [ inl master ↦ rw master (ground arith) | inr slave ↦ rw slave (ground arith) ]

register-offset :
    (base written byte port : ℕ) (before : List (ℕ × ℕ))
    → register ((base + written, byte) ∷ before) (base + port)
      ≡ (if written == port then byte else register before (base + port))
unfolding register
register-offset base written byte port before = ground arith

register-ata_select_sector :
    (disk : Disk) (lba count port : ℕ) (bus : Bus)
    → register (ata_select_sector disk lba count bus).written (bus.iobase + port) ≡ (
        if io_device == port
        then bit_or disk.selector (lba / 2 ^ 24 % 2 ^ 4)
        else if io_lba_high == port
        then lba / 2 ^ 16 % 2 ^ 8
        else if io_lba_mid == port
        then lba / 2 ^ 8 % 2 ^ 8
        else if io_lba_low == port
        then lba % 2 ^ 8
        else if io_secnr == port
        then count
        else if io_feature == port
        then 0
        else register bus.written (bus.iobase + port))
unfolding ata_select_sector
register-ata_select_sector disk lba count port bus = simp register-offset

-- For a master or slave disk and a sector below 2^28, the registers of the drive hold after
-- ata_select_sector just that sector, the count of sectors, and a device byte whose upper half is that
-- of the selector; no register outside the feature, count, address and device ports is written, and
-- the disk is the active one of the bus.
pub ata_select_sector_lem :
    (disk : Disk) (lba count port : ℕ) (bus : Bus)
    → (disk.selector ≡ master_selector) ⊎ (disk.selector ≡ slave_selector)
    → lba < 2 ^ 28
    → let bus' = ata_select_sector disk lba count bus in
      (sector bus' ≡ lba)
      × (register bus'.written (bus.iobase + io_secnr) ≡ count)
      × (register bus'.written (bus.iobase + io_device) / 2 ^ 4 ≡ disk.selector / 2 ^ 4)
      × (register bus'.written (bus.iobase + port) ≡ (
          if leb io_feature port && leb port io_device
          then register bus'.written (bus.iobase + port)
          else register bus.written (bus.iobase + port)))
      × (bus'.active ≡ disk.ptr)
unfolding ata_select_sector
ata_select_sector_lem disk lba count port bus is small =
    let device : bit_or disk.selector (lba / 2 ^ 24 % 2 ^ 4)
        ≡ disk.selector + lba / 2 ^ 24 % 2 ^ 4 =
      bit_or-selector disk.selector (lba / 2 ^ 24 % 2 ^ 4) is (omega arith) in
    let held = λ (port : ℕ). register-ata_select_sector disk lba count port bus in
    (
      rw (held io_lba_low, held io_lba_mid, held io_lba_high, held io_device, device) (omega arith),
      held io_secnr,
      rw (held io_device, device)
          (elim is [ inl master ↦ rw master (omega arith) | inr slave ↦ rw slave (omega arith) ]),
      rw (held port) (ground arith),
      refl,
    )
