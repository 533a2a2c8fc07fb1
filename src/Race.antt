-- ===== src/Race.antt =====
-- `get_mlq_proc` of src/sched.c as several CPUs call it at once: a step is one critical section under
-- `queue_lock`, or one read that the code makes without the lock.
pub mod Queues
pub mod Alone
pub mod Section
pub mod Calls
pub mod Order
pub mod Turns
mod Tests
use operating_systems_simula.Prelude.{
  ℕ, zero, suc, ◌+◌, ◌-◌, Bool, true, false, ◌&&◌, Option, none, some, List, [], ◌∷◌, ◌++◌, ltb,
  ◌==◌, if◌then◌else◌,
}
use operating_systems_simula.Queue.{Ptr, null, empty}
use operating_systems_simula.Sched.{max_prio, Sched, level, reset_slot, dispatch}

-- Where a call is: in the loop of `queue_empty` at a level; before the first section of a round at a
-- level; before the test of the slot; before the section that takes a process; before the one that gives
-- all slots again; or back with what it returns.
pub data At : Type 0 where
  scanning : ℕ → At
  checking : ℕ → At
  deciding : ℕ → At
  taking : ℕ → At
  resetting : At
  back : Ptr → At

-- One step of a call. A `slot` of 0 that is charged becomes 2 ^ 32 - 1.
unfoldable pub call_step : Sched → At → Sched × At
call_step s (scanning k) =
    if ltb k max_prio
    then (s, if empty (level s k) then scanning (k + 1) else checking 0)
    else (s, if empty s.ready_queue && empty s.run_queue then back null else checking 0)
call_step s (checking k) =
    if ltb k max_prio
    then (if empty (level s k)
        then (if k == max_prio - 1 then reset_slot s else s, checking (k + 1))
        else (s, deciding k))
    else (s, back null)
call_step s (deciding k) = (
  s,
  if ltb 0 (level s k).slot
      then taking k
      else if k == max_prio - 1
      then resetting
      else checking (k + 1),
)
call_step s (taking k) = ((dispatch s k).1, back (dispatch s k).0)
call_step s resetting = (reset_slot s, checking (0 + 1))
call_step s (back p) = (s, back p)
