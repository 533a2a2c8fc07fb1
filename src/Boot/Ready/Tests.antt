-- ===== src/Boot/Ready/Tests.antt =====
-- The first two rounds after the start: the loader adds a process, and a CPU takes it and runs it.
use mathlib.Core.Option.{some-injective}
use mathlib.Core.List.{Perm, Mem, not-mem-nil}
use operating_systems_simula.Prelude.{
  ◌+◌, ◌≡◌, refl, sym, ◌∙◌, subst, none, some, [], ◌∷◌, ◌++◌, arith, length, replicate, set, eq→==,
  ne→==, ℕ_discrete,
}
use operating_systems_simula.Queue.{enqueue, dequeue, empty, shift}
use operating_systems_simula.Sched.{
  level, put_level, dispatch, get_proc, get_mlq_proc, queue_empty, select_loop, turn, add_proc,
  add_mlq_proc, init_scheduler, init_levels,
}
use operating_systems_simula.Sched.Conserve.{procs}
use operating_systems_simula.Cpu.{Ran, run, execute}
use operating_systems_simula.Cpu.Examples.{loaded, junk, unset}
use operating_systems_simula.Memphy.{ok}
use operating_systems_simula.Os.{
  Os, CpuState, store, next_slot, cpu_round, choose, check, proceed, fetch,
}
use operating_systems_simula.Os.Load.{Job, Image, ld_round, prepared, admit}
use operating_systems_simula.Os.Choose.{ending}
use operating_systems_simula.Os.Rounds.{Runs}
use operating_systems_simula.Os.Threads.{
  Threads, on_cpus, held, Steps, here, more, adds, slot, Leveled, Valid,
}
use operating_systems_simula.Boot.{Config, Memories, rounds, jobs_of, boot, idle_cpu}
use operating_systems_simula.Boot.Ready.{IsConfig, on_cpus-idle, no_procs, boot-Steps}

abbrev memories : Memories
memories = record {
  before = λ k. record {
    storage = [];
    maxsz = 0;
    rdmflg = 0;
    cursor = 0;
    free_fp_list = [];
    used_fp_list = [];
  };
  storage = λ k size. [];
  garbage = λ k. [];
}

abbrev p0s : Job
p0s = record { start_time = 0; prio = 4 }

abbrev p1s : Job
p1s = record { start_time = 4; prio = 0 }

-- Two CPUs and two processes.
abbrev config : Config
config = record {
  time_slot = 6;
  num_cpus = 2;
  num_processes = 2;
  memramsz = 1024;
  memswpsz = 2048 ∷ 0 ∷ 0 ∷ 0 ∷ [];
  entries =
      record { path = "input/proc/p0s"; job = p0s }
      ∷ record { path = "input/proc/p1s"; job = p1s }
      ∷ [];
}

config-IsConfig : IsConfig config
unfolding jobs_of Leveled
config-IsConfig = record {
  time_slot = omega arith;
  few = omega arith;
  levels = (omega arith, (omega arith, tt));
}

abbrev image : Image
image = record { address = 7; pcb = loaded; mm = unset; area = 9; behind = [] }

abbrev booted : Os
booted = (boot memories config).threads.os

-- The loader has put the process into level 4.
abbrev loaded_os : Os
loaded_os = record booted {
  sched =
      put_level booted.sched 4
        (record (level booted.sched 4) { proc = set (level booted.sched 4).proc 0 7; size = 1 });
  procs = store booted.procs 7 (some (prepared image p0s));
}

first_round : ld_round 0 image booted (p0s ∷ p1s ∷ []) ≡ some (loaded_os, p1s ∷ [])
unfolding ld_round boot admit add_proc add_mlq_proc enqueue init_scheduler init_levels
first_round = refl

-- The CPU has taken it out, which costs the level a slot, and has run `calc`.
abbrev running_os : Os
running_os = record loaded_os {
  sched = (dispatch loaded_os.sched 4).1;
  procs = store loaded_os.procs 7 (some (record (prepared image p0s) { pc = 1 }));
}

abbrev busy_cpu : CpuState
busy_cpu = record { proc = 7; time_left = 5 }

first_run : (r : Ran) × (run junk loaded_os.devices (prepared image p0s) ≡ ok r)
unfolding run execute
first_run = (_, refl)

second_round : cpu_round 6 junk loaded_os idle_cpu ≡ some (next_slot running_os busy_cpu)
unfolding cpu_round choose check proceed run execute fetch get_proc get_mlq_proc queue_empty
    select_loop turn dispatch boot init_scheduler init_levels dequeue empty shift
second_round = refl

loaded-Runs : Runs junk loaded_os
unfolding boot
loaded-Runs p pcb h = elim (ℕ_discrete 7 p) [
  | yes e ↦
      subst (λ q. (r : Ran) × (run junk loaded_os.devices q ≡ ok r))
        (some-injective _ _ (sym (rw (eq→== 7 p e) refl) ∙ h)) first_run
  | no ne ↦ absurd (clash (sym (rw (ne→== 7 p ne) refl) ∙ h))
]
  where
    clash : none ≡ some pcb → ⊥
    clash e = cc

nothing_held : on_cpus (boot memories config).threads.cpus ++ procs booted.sched ≡ []
unfolding boot
nothing_held =
    let idle : on_cpus (replicate (rounds 2) idle_cpu) ≡ [] = on_cpus-idle (rounds 2) in
    rw (idle, no_procs) refl

fresh : ¬ Mem 7 (on_cpus (boot memories config).threads.cpus ++ procs booted.sched)
fresh m = not-mem-nil (subst (λ l. Mem 7 l) nothing_held m)

abbrev one_added : Threads
one_added = record { os = loaded_os; cpus = idle_cpu ∷ idle_cpu ∷ []; jobs = p1s ∷ [] }

abbrev one_runs : Threads
one_runs = record { os = running_os; cpus = busy_cpu ∷ idle_cpu ∷ []; jobs = p1s ∷ [] }

-- No process ends in these rounds: the CPU had none.
two_rounds :
    Steps 6 (boot memories config).threads (7 ∷ []) (ending loaded_os.procs 0 ++ []) one_runs
unfolding boot jobs_of
two_rounds =
    more (boot memories config).threads one_added one_runs (7 ∷ []) [] []
      (ending loaded_os.procs 0 ++ [])
      (adds booted loaded_os (idle_cpu ∷ idle_cpu ∷ []) p0s (p1s ∷ []) 0 image
        (λ e. omega (arith, e)) fresh (omega arith) first_round)
      (more one_added one_runs one_runs [] [] (ending loaded_os.procs 0) []
        (slot loaded_os running_os [] (idle_cpu ∷ []) idle_cpu busy_cpu (p1s ∷ []) junk loaded-Runs
          second_round)
        (here one_runs))

boot-Steps_example :
    Valid 6 one_runs
    × Perm (7 ∷ []) ((ending loaded_os.procs 0 ++ []) ++ held one_runs)
    × (length (ending loaded_os.procs 0 ++ []) + length (held one_runs) + 1 ≡ 2)
boot-Steps_example =
    boot-Steps memories config one_runs (7 ∷ []) (ending loaded_os.procs 0 ++ []) config-IsConfig
      (omega arith) two_rounds
