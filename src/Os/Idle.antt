-- ===== src/Os/Idle.antt =====
-- When a CPU stops, and when it does not.
use operating_systems_simula.Prelude.{
  ℕ, zero, suc, ◌-◌, ◌<◌, ◌≡◌, ◌≢◌, refl, ap, Option, none, some, true, false, ne→==, eq→==, ◌>>=◌,
  NoneIn,
}
use operating_systems_simula.Queue.{null}
use operating_systems_simula.Queue.Laws.{contents}
use operating_systems_simula.Sched.{max_prio, level, queue_empty, reset_slot, get_proc}
use operating_systems_simula.Sched.Levels.{
  IsSched, runnable, waiting, level-reset_slot, queue_empty-false,
}
use operating_systems_simula.Sched.Search.{get-empty, get-last_empty}
use operating_systems_simula.Cpu.{Pcb, Junk}
use operating_systems_simula.Os.{
  Os, CpuState, Round, stop, next_slot, fetch, choose, check, proceed, cpu_round, store,
}

-- `n` rounds of one CPU while nothing else runs.
pub cpu_rounds : ℕ → ℕ → (ℕ → Junk) → Os → CpuState → Option Round
cpu_rounds zero time_slot junk os cpu = some (next_slot os cpu)
cpu_rounds (suc n) time_slot junk os cpu = cpu_round time_slot (junk n) os cpu >>= λ r. elim r [
  | stop os' ↦ some (stop os')
  | next_slot os' cpu' ↦ cpu_rounds n time_slot junk os' cpu'
]

fetch_empty :
    (os : Os) → IsSched os.sched → queue_empty os.sched ≡ true → fetch os ≡ some (null, os)
unfolding fetch get_proc
fetch_empty os v e = rw (get-empty os.sched v.levels e) refl

cpu_round_idle :
    (time_slot : ℕ) (junk : Junk) (os : Os) (cpu : CpuState)
    → IsSched os.sched
    → queue_empty os.sched ≡ true
    → cpu.proc ≡ null
    → cpu_round time_slot junk os cpu ≡ some (next_slot os cpu)
unfolding cpu_round choose
cpu_round_idle time_slot junk os cpu v e idle =
    rw (eq→== cpu.proc null idle, fetch_empty os v e) refl

-- A CPU without a process, where no process waits, never stops: every round leaves all as it was,
-- also after the loader is done.
pub cpu_rounds-never_stop :
    (n time_slot : ℕ) (junk : ℕ → Junk) (os : Os) (cpu : CpuState)
    → IsSched os.sched
    → queue_empty os.sched ≡ true
    → cpu.proc ≡ null
    → cpu_rounds n time_slot junk os cpu ≡ some (next_slot os cpu)
unfolding cpu_rounds
cpu_rounds-never_stop zero time_slot junk os cpu v e idle = refl
cpu_rounds-never_stop (suc n) time_slot junk os cpu v e idle =
    rw (cpu_round_idle time_slot (junk n) os cpu v e idle)
      (cpu_rounds-never_stop n time_slot junk os cpu v e idle)

-- A CPU stops while processes wait: where its process is at its end, the loader is done, all levels
-- with a process have spent their turns and level `MAX_PRIO - 1` is empty, it stops, and the processes
-- of each level still wait.
pub cpu_round-stops_early :
    (time_slot : ℕ) (junk : Junk) (os : Os) (cpu : CpuState) (pcb : Pcb) (k : ℕ)
    → IsSched os.sched
    → k < max_prio
    → os.done ≡ true
    → cpu.proc ≢ null
    → os.procs cpu.proc ≡ some pcb
    → pcb.pc ≡ pcb.code.size
    → waiting os.sched k ≡ true
    → NoneIn (runnable os.sched) 0 max_prio
    → waiting os.sched (max_prio - 1) ≡ false
    → (os' : Os) × (cpu_round time_slot junk os cpu ≡ some (stop os'))
      × (contents (level os'.sched k) ≡ contents (level os.sched k))
unfolding cpu_round choose check fetch get_proc proceed
cpu_round-stops_early time_slot junk os cpu pcb k v below done real here at_end waits spent last =
    let got = get-last_empty os.sched v.levels (queue_empty-false os.sched k waits) spent last in
    (
      record os { sched = reset_slot os.sched; procs = store os.procs cpu.proc none },
      rw (ne→== cpu.proc null real, here, eq→== pcb.pc pcb.code.size at_end, got, done) refl,
      ap contents (level-reset_slot os.sched k v.levels below),
    )
