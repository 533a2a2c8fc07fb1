-- ===== src/Queue/Fifo.antt =====
-- Refinement: no sequence of calls tells the array of src/queue.c from a bounded list.
use operating_systems_simula.Prelude.{
  ◌≡◌, refl, inl, inr, Option, none, some, List, [], ◌∷◌, ◌++◌, arith, length, ltb, if◌then◌else◌,
  Bool-cases, cons_option, ◌>>=◌,
}
use operating_systems_simula.Queue.{Ptr, null, max_queue_size, Queue, enqueue, dequeue}
use operating_systems_simula.Queue.Laws.{
  IsQueue, contents, length-contents, enqueue-append, enqueue-full, dequeue-cons, dequeue-nil,
}

pub data Op : Type 0 where
  put : Ptr → Op
  get : Op

-- What a client of the array sees of its calls: the pointers that `dequeue` returns.
unfoldable pub run : Queue → List Op → Option (List Ptr)
run q [] = some []
run q (put p ∷ ops) = enqueue q p >>= λ r. run r ops
run q (get ∷ ops) = cons_option (dequeue q).0 (run (dequeue q).1 ops)

-- The same calls on a list of at most `max_queue_size` pointers, the oldest first.
unfoldable pub fifo_put : List Ptr → Ptr → Option (List Ptr)
fifo_put xs p = if ltb (length xs) max_queue_size then some (xs ++ (p ∷ [])) else none

unfoldable pub fifo_get : List Ptr → Ptr × List Ptr
fifo_get [] = (null, [])
fifo_get (x ∷ xs) = (x, xs)

unfoldable pub fifo_run : List Ptr → List Op → Option (List Ptr)
fifo_run xs [] = some []
fifo_run xs (put p ∷ ops) = fifo_put xs p >>= λ ys. fifo_run ys ops
fifo_run xs (get ∷ ops) = cons_option (fifo_get xs).0 (fifo_run (fifo_get xs).1 ops)

pub get_refines :
    (q : Queue)
    → IsQueue q
    → (fifo_get (contents q) ≡ ((dequeue q).0, contents (dequeue q).1)) × IsQueue (dequeue q).1
unfolding fifo_get
get_refines q v = elim (Bool-cases (ltb 0 q.size)) [
  | inl h ↦ let (e, w, _, _) = dequeue-cons q v (ground arith) in (rw e, w)
  | inr h ↦ let z : q.size ≡ 0 = ground arith in rw (dequeue-nil q z) (rw z, v)
]

-- Every sequence of calls gives what it gives on the list of the waiting pointers, and leaves the
-- array exactly where an eleventh pointer is put in.
pub run-fifo_run : (q : Queue) (ops : List Op) → IsQueue q → run q ops ≡ fifo_run (contents q) ops
unfolding run fifo_run fifo_put
run-fifo_run q [] v = refl
run-fifo_run q (get ∷ ops) v =
    let (e, w) = get_refines q v in rw (e, run-fifo_run (dequeue q).1 ops w)
run-fifo_run q (put p ∷ ops) v = elim (Bool-cases (ltb q.size max_queue_size)) [
  | inl h ↦
      let (r, e, w, c, _) = enqueue-append q p v (ground arith) in
      rw (e, length-contents q v, h, run-fifo_run r ops w, c)
  | inr h ↦ rw (enqueue-full q p (ground arith), length-contents q v, h)
]
