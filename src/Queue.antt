-- ===== src/Queue.antt =====
-- src/queue.c and include/queue.h: the bounded array of process pointers of one priority level.
pub mod Laws
pub mod Fifo
mod Tests
use operating_systems_simula.Prelude.{
  ℕ, zero, suc, ◌+◌, ◌-◌, Bool, Option, none, some, List, ltb, ◌==◌, if◌then◌else◌, get_or, set,
}

-- A `struct pcb_t *`: processes are told apart by their addresses, and NULL is 0.
abbrev pub Ptr : Type 0
Ptr = ℕ

abbrev pub null : Ptr
null = 0

abbrev pub max_queue_size : ℕ
max_queue_size = 10

-- `struct queue_t`. `proc` has `max_queue_size` places.
pub record Queue : Type 0 where
  pub proc : List Ptr
  pub size : ℕ
  pub slot : ℕ

unfoldable pub empty : Queue → Bool
empty q = q.size == 0

-- The code writes `proc[size]` unchecked. A write behind the array is undefined behaviour: `none`.
unfoldable pub enqueue : Queue → Ptr → Option Queue
enqueue q p =
    if ltb q.size max_queue_size
    then some (record q { proc = set q.proc q.size p; size = q.size + 1 })
    else none

-- `for (i = 0; i < size - 1; i++) proc[i] = proc[i + 1];` by the rounds left and `i`.
unfoldable pub shift : ℕ → ℕ → List Ptr → List Ptr
shift zero i ps = ps
shift (suc n) i ps = shift n (i + 1) (set ps i (get_or ps (i + 1) null))

unfoldable pub dequeue : Queue → Ptr × Queue
unfolding empty shift
dequeue q = if empty q then (null, q) else (
  get_or q.proc 0 null,
  record q { proc = set (shift (q.size - 1) 0 q.proc) (q.size - 1) null; size = q.size - 1 },
)
