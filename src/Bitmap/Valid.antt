-- ===== src/Bitmap/Valid.antt =====
-- The invariant of a bitmap, the set of bits that it stands for, and the reading of a bit.
use txos.Base.{
  ℕ, zero, suc, ◌+◌, ◌-◌, ◌*◌, ◌/◌, ◌%◌, ◌≤◌, ◌<◌, ◌≡◌, refl, Bool, false, ◌&&◌, List, [], ◌∷◌, ok,
  halt, arith, get_elem?-eq-get_or, get_or, length, AllBelow, if◌then◌else◌, test_bit,
  test_bit-zero, ap,
}
use txos.Stdlib.{word}
use txos.Bitmap.{Bitmap, bitmap_new, bitmap_init, clear, in_range, bitmap_contains}

-- The buffer holds `size` bytes, and no bit number reaches EOF.
pub record IsValid (map : Bitmap) : Type 0 where
  pub storage : map.size ≤ length map.bits
  pub bytes : AllBelow 256 map.bits
  pub span : map.length ≡ map.offset + map.size * 8
  pub small : map.length < word

-- whether a bit of the map is set; no bit outside the range is
unfoldable pub used : Bitmap → ℕ → Bool
used map j =
    let i = j - map.offset in in_range map j && test_bit (get_or map.bits (i / 8) 0) (i % 8)

-- `bitmap_contains` says whether a bit is in the set; outside the range its assertion fails.
pub bitmap_contains-used :
    {map : Bitmap} (j : ℕ)
    → IsValid map
    → bitmap_contains map j ≡ (if in_range map j then ok (used map j) else halt)
unfolding bitmap_contains used
bitmap_contains-used {map} j v =
    ground (arith, get_elem?-eq-get_or map.bits ((j - map.offset) / 8) 0)

-- the first `count` bytes zero
abbrev zeroed : ℕ → List ℕ → List ℕ
zeroed zero bits = bits
zeroed (suc count) [] = []
zeroed (suc count) (x ∷ bits) = 0 ∷ zeroed count bits

clear-zeroed :
    (bits : List ℕ) (count : ℕ) → count ≤ length bits → clear bits count ≡ ok (zeroed count bits)
unfolding clear
clear-zeroed bits zero h = refl
clear-zeroed [] (suc count) h = absurd (omega arith)
clear-zeroed (x ∷ bits) (suc count) h = rw (clear-zeroed bits count (omega arith))

length-zeroed : (count : ℕ) (bits : List ℕ) → length (zeroed count bits) ≡ length bits
length-zeroed zero bits = refl
length-zeroed (suc count) [] = refl
length-zeroed (suc count) (x ∷ bits) = ap suc (length-zeroed count bits)

AllBelow-zeroed : (count : ℕ) (bits : List ℕ) → AllBelow 256 bits → AllBelow 256 (zeroed count bits)
AllBelow-zeroed zero bits h = h
AllBelow-zeroed (suc count) [] h = h
AllBelow-zeroed (suc count) (x ∷ bits) h = (omega arith, AllBelow-zeroed count bits h.1)

get_or-zeroed : (count : ℕ) (bits : List ℕ) (i : ℕ) → i < count → get_or (zeroed count bits) i 0 ≡ 0
get_or-zeroed zero bits i h = absurd (omega arith)
get_or-zeroed (suc count) [] i h = refl
get_or-zeroed (suc count) (x ∷ bits) zero h = refl
get_or-zeroed (suc count) (x ∷ bits) (suc i) h = get_or-zeroed count bits i (omega arith)

-- `bitmap_init` over a buffer of `size` bytes at least succeeds with a valid map of the `size * 8`
-- bits from `offset` on, none of which is set.
pub bitmap_init-IsValid :
    (bits : List ℕ) (size offset : ℕ)
    → size ≤ length bits
    → AllBelow 256 bits
    → offset + size * 8 < word
    → (map : Bitmap) × (bitmap_init bits size offset ≡ ok map)
      × IsValid map
      × (map.offset ≡ offset)
      × (map.length ≡ offset + size * 8)
      × ((j : ℕ) → used map j ≡ false)
unfolding bitmap_init used
bitmap_init-IsValid bits size offset room bytes fits = (
  bitmap_new (zeroed size bits) size offset,
  rw (clear-zeroed bits size room),
  record {
    storage = omega (arith, length-zeroed size bits);
    bytes = AllBelow-zeroed size bits bytes;
    span = omega arith;
    small = omega arith;
  },
  refl,
  omega arith,
  λ j. ground (arith, get_or-zeroed size bits ((j - offset) / 8), test_bit-zero ((j - offset) % 8)),
)
