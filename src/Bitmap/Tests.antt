-- ===== src/Bitmap/Tests.antt =====
-- A map of 16 bits from bit 100 on, and the theorems at it.
use txos.Base.{ℕ, ◌≡◌, refl, [], ◌∷◌, arith, ok, false, ◌||◌, not, ◌&&◌, ◌==◌, test_bit, set_bit}
use txos.Bitmap.{
  Bitmap, eof, bitmap_init, bitmap_contains, bitmap_set, bitmap_insert, bitmap_remove,
  bitmap_insert_nbits,
}
use txos.Bitmap.Valid.{IsValid, used, bitmap_init-IsValid, bitmap_contains-used}
use txos.Bitmap.Update.{bitmap_set_lem}
use txos.Bitmap.Scan.{first_fit, answer, free_run}
use txos.Bitmap.Insert.{Marked, bitmap_insert_nbits_lem, bitmap_insert_nbits-eof}

-- 0b11001101 and 0b00000001: bits 101, 104, 105 and those from 109 on are free
abbrev map : Bitmap
map = record { bits = 0xcd ∷ 0x01 ∷ []; size = 2; offset = 100; length = 116 }

map-IsValid : IsValid map
map-IsValid = record {
  storage = omega arith;
  bytes = omega arith;
  span = refl;
  small = omega arith;
}

two_bits : bitmap_insert_nbits map 2 ≡ ok (104, record map { bits = 0xfd ∷ 0x01 ∷ [] })
unfolding bitmap_insert_nbits bitmap_contains bitmap_set bitmap_insert test_bit set_bit
two_bits = refl

eight_bits : bitmap_insert_nbits map 8 ≡ ok (eof, map)
unfolding bitmap_insert_nbits bitmap_contains test_bit
eight_bits = refl

bitmap_init-IsValid_example :
    (map' : Bitmap) × (bitmap_init (7 ∷ 7 ∷ 7 ∷ []) 2 100 ≡ ok map')
    × IsValid map'
    × (map'.offset ≡ 100)
    × (map'.length ≡ 116)
    × ((j : ℕ) → used map' j ≡ false)
bitmap_init-IsValid_example =
    bitmap_init-IsValid (7 ∷ 7 ∷ 7 ∷ []) 2 100 (omega arith) (omega arith) (omega arith)

bitmap_contains-used_example : bitmap_contains map 101 ≡ ok (used map 101)
bitmap_contains-used_example = bitmap_contains-used 101 map-IsValid

bitmap_set_lem_example :
    (inserted removed : Bitmap) × (bitmap_insert map 101 ≡ ok inserted)
    × (bitmap_remove map 101 ≡ ok removed)
    × IsValid inserted
    × IsValid removed
    × ((j : ℕ)
        → (used inserted j ≡ ((101 == j) || used map j))
          × (used removed j ≡ (not (101 == j) && used map j)))
bitmap_set_lem_example = bitmap_set_lem 101 map-IsValid refl

bitmap_insert_nbits_lem_example :
    (map' : Bitmap) × (bitmap_insert_nbits map 2 ≡ ok (answer (first_fit 15 map 2 100), map'))
    × Marked map (first_fit 15 map 2 100) 2 map'
bitmap_insert_nbits_lem_example = bitmap_insert_nbits_lem 2 map-IsValid (omega arith)

bitmap_insert_nbits-eof_example : free_run map 108 8 ≡ false
bitmap_insert_nbits-eof_example =
    bitmap_insert_nbits-eof 8 108 map-IsValid (omega arith) eight_bits (omega arith) (omega arith)
