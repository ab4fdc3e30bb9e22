-- ===== src/Bitmap/Update.antt =====
-- `bitmap_insert` and `bitmap_remove` change one bit of the set.
use txos.Base.{
  ℕ, ◌-◌, ◌/◌, ◌%◌, ◌<◌, ◌≡◌, Bool, true, false, not, ◌&&◌, ◌||◌, ok, arith, get_elem?-eq-get_or,
  get_or, set, AllBelow-set, AllBelow-get_or, length-set, get_or-set_self, get_or-set_ne, ◌==◌,
  if◌then◌else◌, set_bit, clear_bit, test_bit-set_bit, test_bit-clear_bit, set_bit-lt, clear_bit-lt,
  Bool-cases, inl, inr,
}
use txos.Bitmap.{Bitmap, in_range, bitmap_set, bitmap_insert, bitmap_remove}
use txos.Bitmap.Valid.{IsValid, used}

-- the map with bit `index` at `value`
abbrev pub updated : Bitmap → ℕ → Bool → Bitmap
updated map index value =
    let i = index - map.offset in
    let byte = get_or map.bits (i / 8) 0 in
    let byte' = if value then set_bit byte (i % 8) else clear_bit byte (i % 8) in
    record map { bits = set map.bits (i / 8) byte' }

module _ {map : Bitmap} (index : ℕ) (v : IsValid map) where
  abbrev place : ℕ
  place = index - map.offset

  byte-lt : get_or map.bits (place / 8) 0 < 256
  byte-lt = AllBelow-get_or 256 map.bits (place / 8) 0 v.bytes (omega arith)

  module _ (inside : in_range map index ≡ true) where
    pub bitmap_set-ok : (value : Bool) → bitmap_set map index value ≡ ok (updated map index value)
    unfolding bitmap_set
    bitmap_set-ok value =
        ground (arith, v.storage, v.span, get_elem?-eq-get_or map.bits (place / 8) 0)

    pub updated-IsValid : (value : Bool) → IsValid (updated map index value)
    updated-IsValid true = record {
      storage = omega (
        arith,
        v.storage,
        length-set map.bits (place / 8) (set_bit (get_or map.bits (place / 8) 0) (place % 8)),
      );
      bytes =
          AllBelow-set 256 map.bits (place / 8) _ v.bytes
            (set_bit-lt _ (place % 8) byte-lt (omega arith));
      span = v.span;
      small = v.small;
    }
    updated-IsValid false = record {
      storage = omega (
        arith,
        v.storage,
        length-set map.bits (place / 8) (clear_bit (get_or map.bits (place / 8) 0) (place % 8)),
      );
      bytes =
          AllBelow-set 256 map.bits (place / 8) _ v.bytes
            (clear_bit-lt _ (place % 8) byte-lt (omega arith));
      span = v.span;
      small = v.small;
    }

    byte_at-updated :
        (value : Bool) (i : ℕ)
        → get_or (updated map index value).bits i 0 ≡ (
            if place / 8 == i
            then (if value
                then set_bit (get_or map.bits i 0) (place % 8)
                else clear_bit (get_or map.bits i 0) (place % 8))
            else get_or map.bits i 0)
    byte_at-updated value i = elim (Bool-cases (place / 8 == i)) [
      | inl same ↦
          let e : i ≡ place / 8 = ground arith in
          let here : (place / 8 == place / 8) ≡ true = ground arith in
          rw (e, here)
            (get_or-set_self map.bits (place / 8) _ 0 (ground (arith, v.storage, v.span)))
      | inr other ↦ rw other (get_or-set_ne map.bits (place / 8) i _ 0 (ground arith))
    ]

    pub used-updated :
        (value : Bool) (j : ℕ)
        → used (updated map index value) j ≡ (if index == j then value else used map j)
    unfolding used
    used-updated true j =
        let i = j - map.offset in
        let small = AllBelow-get_or 256 map.bits (i / 8) 0 v.bytes (omega arith) in
        rw (byte_at-updated true (i / 8))
          (ground (arith, test_bit-set_bit (get_or map.bits (i / 8) 0) (place % 8) (i % 8) small))
    used-updated false j =
        let i = j - map.offset in
        let small = AllBelow-get_or 256 map.bits (i / 8) 0 v.bytes (omega arith) in
        rw (byte_at-updated false (i / 8))
          (ground (arith, test_bit-clear_bit (get_or map.bits (i / 8) 0) (place % 8) (i % 8) small))

-- In the range `bitmap_insert` and `bitmap_remove` succeed, keep the map valid with its range, and
-- set or clear that bit alone.
pub bitmap_set_lem :
    {map : Bitmap} (index : ℕ)
    → IsValid map
    → in_range map index ≡ true
    → (inserted removed : Bitmap) × (bitmap_insert map index ≡ ok inserted)
      × (bitmap_remove map index ≡ ok removed)
      × IsValid inserted
      × IsValid removed
      × ((j : ℕ)
          → (used inserted j ≡ ((index == j) || used map j))
            × (used removed j ≡ (not (index == j) && used map j)))
unfolding bitmap_insert bitmap_remove
bitmap_set_lem {map} index v inside = (
  updated map index true,
  updated map index false,
  bitmap_set-ok index v inside true,
  bitmap_set-ok index v inside false,
  updated-IsValid index v inside true,
  updated-IsValid index v inside false,
  λ j. (
    ground (arith, used-updated index v inside true j),
    ground (arith, used-updated index v inside false j),
  ),
)
