-- ===== src/Queue/Tests.antt =====
-- The queue at concrete arrays, and its theorems at inputs that meet their hypotheses.
use operating_systems_simula.Prelude.{◌≡◌, refl, some, List, [], ◌∷◌, arith, replicate}
use operating_systems_simula.Queue.{null, Queue, enqueue, dequeue}
use operating_systems_simula.Queue.Laws.{IsQueue}
use operating_systems_simula.Queue.Fifo.{Op, put, get, run, fifo_run, run-fifo_run}

abbrev two : Queue
two = record { proc = 7 ∷ 8 ∷ replicate 8 null; size = 2; slot = 5 }

two-IsQueue : IsQueue two
two-IsQueue = omega arith

dequeue-two : dequeue two ≡ (7, record { proc = 8 ∷ replicate 9 null; size = 1; slot = 5 })
unfolding dequeue
dequeue-two = refl

abbrev calls : List Op
calls = put 9 ∷ get ∷ get ∷ get ∷ get ∷ []

run-two : run two calls ≡ some (7 ∷ 8 ∷ 9 ∷ null ∷ [])
unfolding run enqueue dequeue
run-two = refl

run-fifo_run_example : run two calls ≡ fifo_run (7 ∷ 8 ∷ []) calls
run-fifo_run_example = run-fifo_run two calls two-IsQueue
