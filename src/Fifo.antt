-- ===== src/Fifo.antt =====
-- src/lib/fifo.c: the byte queue of the keyboard, a ring whose free cell tells full from empty.
pub mod Queue
pub mod Valid
pub mod Refine
mod Tests
use txos.Base.{
  ℕ, zero, suc, ◌+◌, ◌%◌, Bool, List, Outcome, ok, halt, out_of_fuel, ◌>>=◌, ◌>>◌, assert, not,
  from_option, get_elem?, set, ◌==◌, if◌then◌else◌,
}
use txos.Stdlib.{word}

-- `fifo_t`; `buf` is the caller's array
pub record Fifo : Type 0 where
  pub buf : List ℕ
  pub len : ℕ
  pub head : ℕ
  pub tail : ℕ

pub fifo_index_next : Fifo → ℕ → ℕ
fifo_index_next fifo index = (index + 1) % word % fifo.len

pub fifo_init : List ℕ → ℕ → Fifo
fifo_init buf len = record { buf = buf; len = len; head = 0; tail = 0 }

pub fifo_full : Fifo → Bool
fifo_full fifo = fifo_index_next fifo fifo.tail == fifo.head

pub fifo_empty : Fifo → Bool
fifo_empty fifo = fifo.head == fifo.tail

-- the byte and the queue without it
pub fifo_get : Fifo → Outcome (ℕ × Fifo)
unfolding fifo_empty fifo_index_next
fifo_get fifo = do
  assert (not (fifo_empty fifo))
  byte ← from_option (get_elem? fifo.buf fifo.head)
  ok (byte, record fifo { head = fifo_index_next fifo fifo.head })

-- `while (fifo_full(fifo)) fifo_get(fifo);`
make_room : ℕ → Fifo → Outcome Fifo
unfolding fifo_full fifo_get
make_room zero fifo = out_of_fuel
make_room (suc fuel) fifo =
    let rest = (do (_, fifo') ← fifo_get fifo; make_room fuel fifo') in
    if fifo_full fifo then rest else ok fifo

-- A cell that the array does not have is not written.
store_byte : Fifo → ℕ → Outcome Fifo
unfolding fifo_index_next
store_byte fifo byte = do
  _ ← from_option (get_elem? fifo.buf fifo.tail)
  ok (record fifo { buf = set fifo.buf fifo.tail byte; tail = fifo_index_next fifo fifo.tail })

-- Two rounds of the loop are enough: one byte dropped makes room.
pub fifo_put : Fifo → ℕ → Outcome Fifo
unfolding make_room store_byte
fifo_put fifo byte = do fifo' ← make_room 2 fifo; store_byte fifo' byte
