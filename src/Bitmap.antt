-- ===== src/Bitmap.antt =====
-- src/lib/bitmap.c: bit sets over bytes, numbered from an offset. `bits` is the caller's buffer; an
-- access beyond it halts. The shifts and remainders by 8 pick the byte and the bit in it.
pub mod Valid
pub mod Update
pub mod Scan
pub mod Insert
mod Tests
use txos.Base.{
  ℕ, zero, suc, ◌+◌, ◌-◌, ◌*◌, ◌/◌, ◌%◌, Bool, true, false, not, ◌&&◌, List, [], ◌∷◌, Outcome, ok,
  halt, ◌>>=◌, ◌>>◌, assert, from_option, get_elem?, set, ◌==◌, ltb, leb, if◌then◌else◌, test_bit,
  set_bit, clear_bit,
}
use txos.Stdlib.{word}

pub record Bitmap : Type 0 where
  pub bits : List ℕ
  pub size : ℕ
  pub offset : ℕ
  pub length : ℕ

-- `EOF` as a `size_t`
abbrev pub eof : ℕ
eof = word - 1

pub bitmap_new : List ℕ → (size offset : ℕ) → Bitmap
bitmap_new bits size offset = record {
  bits = bits;
  size = size;
  offset = offset;
  length = (offset + size * 8) % word;
}

-- `memset(bits, 0, count)` of lib/string.c, over a buffer
clear : List ℕ → ℕ → Outcome (List ℕ)
clear bits zero = ok bits
clear [] (suc count) = halt
clear (x ∷ bits) (suc count) = do rest ← clear bits count; ok (0 ∷ rest)

pub bitmap_init : List ℕ → (size offset : ℕ) → Outcome Bitmap
unfolding clear bitmap_new
bitmap_init bits size offset = do cleared ← clear bits size; ok (bitmap_new cleared size offset)

-- `index >= map->offset && index < map->length`
abbrev pub in_range : Bitmap → ℕ → Bool
in_range map index = leb map.offset index && ltb index map.length

unfoldable pub bitmap_contains : Bitmap → ℕ → Outcome Bool
bitmap_contains map index = do
  assert (in_range map index)
  let i = index - map.offset
  byte ← from_option (get_elem? map.bits (i / 8))
  ok (test_bit byte (i % 8))

unfoldable pub bitmap_set : Bitmap → ℕ → Bool → Outcome Bitmap
bitmap_set map index value = do
  assert (in_range map index)
  let i = index - map.offset
  byte ← from_option (get_elem? map.bits (i / 8))
  let byte' = if value then set_bit byte (i % 8) else clear_bit byte (i % 8)
  ok (record map { bits = set map.bits (i / 8) byte' })

unfoldable pub bitmap_insert : Bitmap → ℕ → Outcome Bitmap
bitmap_insert map index = bitmap_set map index true

unfoldable pub bitmap_remove : Bitmap → ℕ → Outcome Bitmap
bitmap_remove map index = bitmap_set map index false

-- The first loop of `bitmap_insert_nbits`: the start of the first `n` free bits in a row, or EOF.
pub scan : (bits_left : ℕ) → Bitmap → (n next_bit counter : ℕ) → Outcome ℕ
scan zero map n next_bit counter = ok eof
scan (suc bits_left) map n next_bit counter = do
  taken ← bitmap_contains map next_bit
  let counter' = if taken then 0 else counter + 1
  let next_bit' = (next_bit + 1) % word
  let rest = scan bits_left map n next_bit' counter'
  if counter' == n then ok (next_bit' - counter') else rest

-- Its second loop: the bits from `next_bit` on are set.
pub insert_run : (counter : ℕ) → Bitmap → ℕ → Outcome Bitmap
insert_run zero map next_bit = ok map
insert_run (suc counter) map next_bit = do
  map' ← bitmap_insert map next_bit
  insert_run counter map' ((next_bit + 1) % word)

pub bitmap_insert_nbits : Bitmap → ℕ → Outcome (ℕ × Bitmap)
unfolding scan insert_run
bitmap_insert_nbits map n = do
  start ← scan (map.size * 8 % word) map n map.offset 0
  let marked = (do map' ← insert_run n map start; ok (start, map'))
  if start == eof then ok (eof, map) else marked
