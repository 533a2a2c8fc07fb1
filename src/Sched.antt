-- ===== src/Sched.antt =====
-- src/sched.c and include/sched.h, as compiled with MLQ_SCHED: the multi-level ready queue.
-- One call is one step. Between calls the state is what the lock `queue_lock` protects.
pub mod Levels
pub mod Search
pub mod Dispatch
pub mod Put
pub mod Conserve
pub mod Examples
pub mod Single
mod Tests
use operating_systems_simula.Prelude.{
  ℕ, zero, suc, ◌+◌, ◌-◌, ◌*◌, ◌%◌, ◌^◌, Bool, true, false, ◌&&◌, not, Option, none, some, List, [],
  ◌∷◌, ltb, ◌==◌, if◌then◌else◌, get_or, set, ◌>>=◌,
}
use operating_systems_simula.Queue.{Ptr, null, Queue, empty, enqueue, dequeue}

abbrev pub max_prio : ℕ
max_prio = 140

-- The static queues. `ready_queue` and `run_queue` stay as the loader left them: no call of the
-- MLQ_SCHED build puts anything there.
pub record Sched : Type 0 where
  pub mlq_ready_queue : List Queue
  pub ready_queue : Queue
  pub run_queue : Queue

-- What stands outside the array, never reached below `max_prio`.
abbrev pub no_queue : Queue
no_queue = record { proc = []; size = 0; slot = 0 }

abbrev pub level : Sched → ℕ → Queue
level s prio = get_or s.mlq_ready_queue prio no_queue

abbrev pub put_level : Sched → ℕ → Queue → Sched
put_level s prio q = record s { mlq_ready_queue = set s.mlq_ready_queue prio q }

-- `for (prio = 0; prio < MAX_PRIO; prio++) if (!empty(…)) return 0;`, over the levels left.
unfoldable pub all_empty : List Queue → Bool
all_empty [] = true
all_empty (q ∷ qs) = empty q && all_empty qs

unfoldable pub queue_empty : Sched → Bool
unfolding all_empty
queue_empty s = all_empty s.mlq_ready_queue && (empty s.ready_queue && empty s.run_queue)

-- `for (i = 0; i < MAX_PRIO; i++)` of `init_scheduler`, from level `i` on.
unfoldable pub init_levels : ℕ → List Queue → List Queue
init_levels i [] = []
init_levels i (q ∷ qs) = record q { size = 0; slot = max_prio - i } ∷ init_levels (i + 1) qs

unfoldable pub init_scheduler : Sched → Sched
unfolding init_levels
init_scheduler s = record {
  mlq_ready_queue = init_levels 0 s.mlq_ready_queue;
  ready_queue = record (s.ready_queue) { size = 0 };
  run_queue = record (s.run_queue) { size = 0 };
}

unfoldable pub reset_levels : ℕ → List Queue → List Queue
reset_levels i [] = []
reset_levels i (q ∷ qs) = record q { slot = max_prio - i } ∷ reset_levels (i + 1) qs

unfoldable pub reset_slot : Sched → Sched
unfolding reset_levels
reset_slot s = record s { mlq_ready_queue = reset_levels 0 s.mlq_ready_queue }

-- A decrement of an `unsigned int`.
abbrev pub less_one : ℕ → ℕ
less_one n = (n + (2 ^ 32 - 1)) % 2 ^ 32

-- `proc = dequeue(…); slot--; break;`
unfoldable pub dispatch : Sched → ℕ → Ptr × Sched
dispatch s prio =
    let (p, q) = dequeue (level s prio) in
    (p, put_level s prio (record q { slot = less_one q.slot }))

-- What one turn of the loop of `get_mlq_proc` does: leave it, or go on at another level.
pub data Turn : Type 0 where
  leave : Ptr × Sched → Turn
  go_on : ℕ → Sched → Turn

-- The body of the loop at `prio_select = prio`, with the `++prio_select` that ends it.
unfoldable pub turn : ℕ → Sched → Turn
turn prio s =
    if empty (level s prio)
    then go_on (prio + 1) (if prio == max_prio - 1 then reset_slot s else s)
    else if ltb 0 (level s prio).slot
    then leave (dispatch s prio)
    else if prio == max_prio - 1
    then go_on (0 + 1) (reset_slot s)
    else go_on (prio + 1) s

-- The loop, on fuel; `none` means that the fuel ran out.
unfoldable pub select_loop : ℕ → ℕ → Sched → Option (Ptr × Sched)
select_loop zero prio s = none
select_loop (suc fuel) prio s = elim (ltb prio max_prio) [
  | false ↦ some (null, s)
  | true ↦ elim (turn prio s) [ leave out ↦ some out | go_on prio' s' ↦ select_loop fuel prio' s' ]
]

-- The search starts again at most once: `Dispatch.get_mlq_proc-Outcome`.
abbrev pub search_fuel : ℕ
search_fuel = 2 * max_prio + 1

unfoldable pub get_mlq_proc : Sched → Option (Ptr × Sched)
get_mlq_proc s = if queue_empty s then some (null, s) else select_loop search_fuel 0 s

-- A process as the scheduler sees it: its address and its `prio`. `put_mlq_proc` and `add_mlq_proc`
-- are the same code. A priority from `max_prio` on, or a full queue, writes out of an array: `none`.
unfoldable pub put_mlq_proc : Sched → Ptr → ℕ → Option Sched
put_mlq_proc s p prio =
    if ltb prio max_prio
    then (enqueue (level s prio) p >>= λ q. some (put_level s prio q))
    else none

unfoldable pub add_mlq_proc : Sched → Ptr → ℕ → Option Sched
add_mlq_proc s p prio =
    if ltb prio max_prio
    then (enqueue (level s prio) p >>= λ q. some (put_level s prio q))
    else none

unfoldable pub get_proc : Sched → Option (Ptr × Sched)
get_proc s = get_mlq_proc s

unfoldable pub put_proc : Sched → Ptr → ℕ → Option Sched
put_proc s p prio = put_mlq_proc s p prio

unfoldable pub add_proc : Sched → Ptr → ℕ → Option Sched
add_proc s p prio = add_mlq_proc s p prio
