-- ===== src/Race/Calls.antt =====
-- Any number of calls of `get_mlq_proc`, and processes that are put in between, in any order of the
-- critical sections.
use mathlib.Core.List.{Mem}
use operating_systems_simula.Prelude.{ℕ, ◌≡◌, ◌≢◌, some, List, [], ◌∷◌, ◌++◌, ◌<◌}
use operating_systems_simula.Queue.{Ptr, null, max_queue_size}
use operating_systems_simula.Sched.{max_prio, Sched, level, put_mlq_proc}
use operating_systems_simula.Race.Queues.{IsQueues}
use operating_systems_simula.Sched.Conserve.{procs}
use operating_systems_simula.Os.Held.{running}
use operating_systems_simula.Race.{At, scanning, back, call_step}
use operating_systems_simula.Race.Section.{returned, AtLevel}

pub record Calls : Type 0 where
  pub sched : Sched
  pub calls : List At

unfoldable pub all_returned : List At → List Ptr
all_returned [] = []
all_returned (a ∷ calls) = returned a ++ all_returned calls

-- The processes that wait, and those that a call is about to hand on.
abbrev pub present : Calls → List Ptr
present c = procs c.sched ++ all_returned c.calls

-- A step, with the processes that it adds and those that it hands to a CPU: a call goes on; a CPU
-- takes what its call returns, and will call again; a CPU or the loader puts a process, where its
-- level has a place.
pub data Step : Calls → List Ptr → List Ptr → Calls → Type 0 where
  goes :
      (s : Sched) (before after : List At) (a : At)
      → Step
          (record { sched = s; calls = before ++ (a ∷ after) })
          []
          []
          (record { sched = (call_step s a).0; calls = before ++ ((call_step s a).1 ∷ after) })
  hands :
      (s : Sched) (before after : List At) (p : Ptr)
      → Step
          (record { sched = s; calls = before ++ (back p ∷ after) })
          []
          (running p)
          (record { sched = s; calls = before ++ (scanning 0 ∷ after) })
  puts :
      (s t : Sched) (calls : List At) (p : Ptr) (prio : ℕ)
      → p ≢ null
      → prio < max_prio
      → (level s prio).size < max_queue_size
      → put_mlq_proc s p prio ≡ some t
      → Step (record { sched = s; calls = calls }) (p ∷ []) [] (record { sched = t; calls = calls })

pub data Steps : Calls → List Ptr → List Ptr → Calls → Type 0 where
  here : (c : Calls) → Steps c [] [] c
  more :
      (c d e : Calls) (added added' handed handed' : List Ptr)
      → Step c added handed d
      → Steps d added' handed' e
      → Steps c (added ++ added') (handed ++ handed') e

unfoldable pub AtLevels : List At → Type 0
AtLevels [] = Unit {0}
AtLevels (a ∷ calls) = AtLevel a × AtLevels calls

pub record IsCalls (c : Calls) : Type 0 where
  pub sched : IsQueues c.sched
  pub real : ¬ Mem null (procs c.sched)
  pub levels : AtLevels c.calls
