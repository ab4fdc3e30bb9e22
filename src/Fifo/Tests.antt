-- ===== src/Fifo/Tests.antt =====
-- The queue at a small ring, and the theorems at its values.
use txos.Base.{◌≡◌, refl, List, [], ◌∷◌, arith, ok, halt}
use txos.Fifo.{Fifo, fifo_init, fifo_put, fifo_get}
use txos.Fifo.Valid.{IsValid}
use txos.Fifo.Queue
use txos.Fifo.Refine.{
  contents, Got, fifo_put_refines, fifo_get_refines, Op, put, get, run, run_queue, run-run_queue,
}

-- 8, then 9, round the end of three cells: the ring is full
abbrev full : Fifo
full = record { buf = 9 ∷ 7 ∷ 8 ∷ []; len = 3; head = 2; tail = 1 }

full-IsValid : IsValid full
full-IsValid = omega arith

-- A ring of one cell is full and empty at once: no byte can be put.
one_cell : fifo_put (fifo_init (0 ∷ []) 1) 5 ≡ halt
unfolding fifo_put fifo_init
one_cell = refl

fifo_put_refines_example :
    (g : Fifo) × (fifo_put full 5 ≡ ok g)
    × IsValid g
    × (g.len ≡ 3)
    × (contents g ≡ Queue.put 2 (contents full) 5)
fifo_put_refines_example = fifo_put_refines 5 full-IsValid

fifo_get_refines_example : Got (fifo_get full) (Queue.get (contents full))
fifo_get_refines_example = fifo_get_refines full-IsValid

abbrev script : List Op
script = put 5 ∷ get ∷ get ∷ put 6 ∷ get ∷ []

script_bytes : run full script ≡ ok (9 ∷ 5 ∷ 6 ∷ [])
unfolding run fifo_put fifo_get
script_bytes = refl

run-run_queue_example : run full script ≡ run_queue 2 (contents full) script
run-run_queue_example = run-run_queue script full-IsValid
