-- ===== src/Sched/Single/Tests.antt =====
-- The two plain queues at concrete calls.
use operating_systems_simula.Prelude.{◌≡◌, refl, some, List, [], ◌∷◌, arith}
use operating_systems_simula.Queue.{null, enqueue, dequeue}
use operating_systems_simula.Sched.Examples.{bare}
use operating_systems_simula.Sched.Single.{
  Call, get, put, add, get_ready, put_run, add_ready, calls, added_only, calls-added_only,
}

abbrev some_calls : List Call
some_calls = add 7 ∷ add 8 ∷ get ∷ put 7 ∷ get ∷ get ∷ []

-- Process 7 is put back, and does not come again.
calls-bare : calls bare some_calls ≡ some (7 ∷ 8 ∷ null ∷ [])
unfolding calls get_ready put_run add_ready enqueue dequeue
calls-bare = refl

calls-added_only_example : calls bare some_calls ≡ added_only [] 0 some_calls
calls-added_only_example = calls-added_only bare some_calls (omega arith) (omega arith)
