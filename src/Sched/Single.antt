-- ===== src/Sched/Single.antt =====
-- src/sched.c as compiled without MLQ_SCHED: `get_proc`, `put_proc` and `add_proc` on the two plain queues.
mod Tests
use operating_systems_simula.Prelude.{
  ℕ, ◌+◌, ◌<◌, ◌≡◌, refl, inl, inr, Option, some, none, List, [], ◌∷◌, arith, length, ltb,
  if◌then◌else◌, Bool-cases, cons_option, ◌>>=◌, ap, length-append,
}
use operating_systems_simula.Queue.{Ptr, max_queue_size, enqueue, dequeue}
use operating_systems_simula.Queue.Laws.{
  IsQueue, contents, length-contents, enqueue-append, enqueue-full,
}
use operating_systems_simula.Queue.Fifo.{fifo_put, fifo_get, get_refines}
use operating_systems_simula.Sched.{Sched}

-- `get_proc`
unfoldable pub get_ready : Sched → Ptr × Sched
get_ready s = let (p, q) = dequeue s.ready_queue in (p, record s { ready_queue = q })

-- `put_proc`
unfoldable pub put_run : Sched → Ptr → Option Sched
put_run s p = enqueue s.run_queue p >>= λ q. some (record s { run_queue = q })

-- `add_proc`
unfoldable pub add_ready : Sched → Ptr → Option Sched
add_ready s p = enqueue s.ready_queue p >>= λ q. some (record s { ready_queue = q })

pub data Call : Type 0 where
  get : Call
  put add : Ptr → Call

-- What the threads see of their calls: the processes that `get_proc` returns.
unfoldable pub calls : Sched → List Call → Option (List Ptr)
unfolding get_ready put_run add_ready
calls s [] = some []
calls s (get ∷ cs) = cons_option (get_ready s).0 (calls (get_ready s).1 cs)
calls s (put p ∷ cs) = put_run s p >>= λ t. calls t cs
calls s (add p ∷ cs) = add_ready s p >>= λ t. calls t cs

-- The same on the list of the processes that were added and the number of those that were put back:
-- which ones these are is forgotten.
unfoldable pub added_only : List Ptr → ℕ → List Call → Option (List Ptr)
added_only xs n [] = some []
added_only xs n (get ∷ cs) = cons_option (fifo_get xs).0 (added_only (fifo_get xs).1 n cs)
added_only xs n (put p ∷ cs) =
    let rest = added_only xs (n + 1) cs in if ltb n max_queue_size then rest else none
added_only xs n (add p ∷ cs) = fifo_put xs p >>= λ ys. added_only ys n cs

-- In the build without MLQ_SCHED, which is not the one that the repository configures: let both queues
-- be valid. Every sequence of calls then returns what the calls return on a list of the
-- processes that were added, in which a process that is put back never comes: `get_proc` takes from
-- one queue and `put_proc` puts in the other. The eleventh in either queue is written behind its array.
pub calls-added_only :
    (s : Sched) (cs : List Call)
    → IsQueue s.ready_queue
    → IsQueue s.run_queue
    → calls s cs ≡ added_only (contents s.ready_queue) s.run_queue.size cs
unfolding calls added_only fifo_put put_run add_ready get_ready
calls-added_only s [] v w = refl
calls-added_only s (get ∷ cs) v w =
    let (e, v') = get_refines s.ready_queue v in rw (e, calls-added_only (get_ready s).1 cs v' w)
calls-added_only s (put p ∷ cs) v w = elim (Bool-cases (ltb s.run_queue.size max_queue_size)) [
  | inl h ↦
      let (r, e, w', c, _) = enqueue-append s.run_queue p w (ground arith) in
      let grown : r.size ≡ s.run_queue.size + 1 = omega (
        arith,
        length-contents r w',
        length-contents s.run_queue w,
        ap length c,
        length-append (contents s.run_queue) (p ∷ []),
      ) in
      rw (put_run, e, calls-added_only (record s { run_queue = r }) cs v w', grown, h) refl
  | inr h ↦ rw (enqueue-full s.run_queue p (ground arith), h) refl
]
calls-added_only s (add p ∷ cs) v w = elim (Bool-cases (ltb s.ready_queue.size max_queue_size)) [
  | inl h ↦
      let (r, e, v', c, _) = enqueue-append s.ready_queue p v (ground arith) in
      rw
        (
          e,
          length-contents s.ready_queue v,
          h,
          calls-added_only (record s { ready_queue = r }) cs v' w,
          c,
        )
        refl
  | inr h ↦
      rw (enqueue-full s.ready_queue p (ground arith), length-contents s.ready_queue v, h) refl
]
