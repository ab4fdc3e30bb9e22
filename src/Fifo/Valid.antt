-- ===== src/Fifo/Valid.antt =====
-- The representation invariant of `fifo_t`.
use native.Mathlib.Decide.{dec_lt}
use native.Mathlib.Nat.{mod-eq_of_lt, mod-eq-sub-mod}
use txos.Base.{
  ℕ, suc, ◌+◌, ◌-◌, ◌≤◌, ◌<◌, ◌≡◌, ◌≢◌, List, ok, halt, arith, length, length-set, ltb, leb,
  if◌then◌else◌, get_elem?-eq-get_or, get_or, set, ◌==◌,
}
use txos.Stdlib.{word}
use txos.Fifo.{
  Fifo, fifo_index_next, fifo_init, fifo_full, fifo_empty, fifo_get, fifo_put, make_room,
  store_byte,
}

-- Two cells at least, all of them in the array, both indices in range, and no index sum wraps.
pub record IsValid (f : Fifo) : Type 0 where
  pub room : 2 ≤ f.len
  pub storage : f.len ≤ length f.buf
  pub small : f.len < word
  pub head_in : f.head < f.len
  pub tail_in : f.tail < f.len

-- an index below `2 * len`, brought back into the ring
abbrev pub wrap : ℕ → ℕ → ℕ
wrap len k = if ltb k len then k else k - len

-- In range the next index is the sum, brought back once.
pub fifo_index_next-wrap :
    (f : Fifo) (i : ℕ) → f.len < word → i < f.len → fifo_index_next f i ≡ wrap f.len (i + 1)
unfolding fifo_index_next
fifo_index_next-wrap f i small h = elim (dec_lt (i + 1) f.len) [
  | yes p ↦ ground (arith, mod-eq_of_lt {n = i + 1} {m = word} (omega arith), mod-eq_of_lt p)
  | no p ↦ ground (
    arith,
    mod-eq_of_lt {n = i + 1} {m = word} (omega arith),
    mod-eq-sub-mod {n = i + 1} {m = f.len} (omega arith),
    mod-eq_of_lt {n = i + 1 - f.len} {m = f.len} (omega arith),
  )
]

-- the number of bytes held
abbrev pub count : Fifo → ℕ
count f = if leb f.head f.tail then f.tail - f.head else f.len + f.tail - f.head

pub fifo_init-IsValid :
    (buf : List ℕ) (len : ℕ) → 2 ≤ len → len ≤ length buf → len < word → IsValid (fifo_init buf len)
unfolding fifo_init
fifo_init-IsValid buf len h k w = omega arith

pub fifo_full-count : {f : Fifo} → IsValid f → fifo_full f ≡ (count f == f.len - 1)
unfolding fifo_full
fifo_full-count {f} v = ground (arith, fifo_index_next-wrap f f.tail v.small v.tail_in)

pub fifo_empty-count : {f : Fifo} → IsValid f → fifo_empty f ≡ (count f == 0)
unfolding fifo_empty
fifo_empty-count {f} v = ground arith

-- the queue without its oldest byte
abbrev pub dropped : Fifo → Fifo
dropped f = record f { head = wrap f.len (f.head + 1) }

pub dropped-IsValid : {f : Fifo} → IsValid f → IsValid (dropped f)
dropped-IsValid v = ground arith

pub count-dropped : {f : Fifo} → IsValid f → count f ≢ 0 → count (dropped f) + 1 ≡ count f
count-dropped {f} v ne = ground arith

pub fifo_get-ok :
    {f : Fifo} → IsValid f → count f ≢ 0 → fifo_get f ≡ ok (get_or f.buf f.head 0, dropped f)
unfolding fifo_get
fifo_get-ok {f} v ne =
    ground
      (arith, fifo_index_next-wrap f f.head v.small v.head_in, get_elem?-eq-get_or f.buf f.head 0)

pub fifo_get-empty : {f : Fifo} → IsValid f → count f ≡ 0 → fifo_get f ≡ halt
unfolding fifo_get
fifo_get-empty {f} v e = ground arith

-- the queue with a byte more
abbrev pub stored : Fifo → ℕ → Fifo
stored f byte = record f { buf = set f.buf f.tail byte; tail = wrap f.len (f.tail + 1) }

pub stored-IsValid : {f : Fifo} (byte : ℕ) → IsValid f → IsValid (stored f byte)
stored-IsValid {f} byte v = ground (arith, length-set f.buf f.tail byte)

pub count-stored :
    {f : Fifo} (byte : ℕ) → IsValid f → count f + 1 < f.len → count (stored f byte) ≡ count f + 1
count-stored {f} byte v free = ground arith

store_byte-ok : {f : Fifo} (byte : ℕ) → IsValid f → store_byte f byte ≡ ok (stored f byte)
unfolding store_byte
store_byte-ok {f} byte v =
    ground
      (arith, fifo_index_next-wrap f f.tail v.small v.tail_in, get_elem?-eq-get_or f.buf f.tail 0)

-- what the loop of `fifo_put` leaves
abbrev pub roomy : Fifo → Fifo
roomy f = if count f == f.len - 1 then dropped f else f

make_room-step :
    {f : Fifo} (fuel : ℕ)
    → IsValid f
    → make_room (suc fuel) f ≡ (if count f == f.len - 1 then make_room fuel (dropped f) else ok f)
unfolding make_room
make_room-step {f} fuel v = ground (arith, fifo_full-count v, fifo_get-ok v)

make_room-ok : {f : Fifo} → IsValid f → make_room 2 f ≡ ok (roomy f)
make_room-ok {f} v =
    ground (arith, make_room-step 1 v, make_room-step 0 (dropped-IsValid v), count-dropped v)

pub roomy-IsValid : {f : Fifo} → IsValid f → IsValid (roomy f)
roomy-IsValid {f} v = ground (arith, dropped-IsValid v)

pub count-roomy : {f : Fifo} → IsValid f → count (roomy f) + 1 < f.len
count-roomy {f} v = ground arith

pub fifo_put-ok : {f : Fifo} (byte : ℕ) → IsValid f → fifo_put f byte ≡ ok (stored (roomy f) byte)
unfolding fifo_put
fifo_put-ok {f} byte v = rw (make_room-ok v) (store_byte-ok byte (roomy-IsValid v))
