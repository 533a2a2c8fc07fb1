-- ===== src/Os/Tests.antt =====
-- A system with one process, and the theorems on its rounds at inputs that meet the hypotheses.
use mathlib.Core.Logic.Or
use mathlib.Core.HLevel.{⊥_prop}
use mathlib.Core.List.{Mem, Nodup-cons, Pairwise, eq-or-mem_of_mem-cons, not-mem-nil}
use operating_systems_simula.Prelude.{
  ◌<◌, ◌≡◌, ◌≢◌, refl, sym, ◌∙◌, subst, some, none, true, [], ◌∷◌, ◌++◌, arith, ◌==◌, if◌then◌else◌,
  ℕ_discrete, eq→==, ne→==, none_below-NoneIn,
}
use operating_systems_simula.Queue.{Ptr, empty}
use operating_systems_simula.Queue.Laws.{contents}
use operating_systems_simula.Sched.{max_prio, level, queue_empty}
use operating_systems_simula.Sched.Levels.{runnable}
use operating_systems_simula.Sched.Conserve.{procs, procs_of}
use operating_systems_simula.Sched.Examples.{bare, bare-IsSched, spent_zero, spent_zero-IsSched}
use operating_systems_simula.Memphy.{ok}
use operating_systems_simula.Cpu.{Ran, run, execute}
use operating_systems_simula.Cpu.Examples.{loaded, devices, junk}
use operating_systems_simula.Os.{
  Os, CpuState, Round, stop, next_slot, store, check, choose, proceed, cpu_round,
}
use operating_systems_simula.Os.Choose.{ending, ending-none}
use operating_systems_simula.Os.Load.{Image, ld_round}
use operating_systems_simula.Os.Threads.{
  Threads, on_cpus, slot, ends, Steps, here, more, InSlot, Leveled, Valid,
}
use operating_systems_simula.Os.Order.{Steps-Moved}
use operating_systems_simula.Os.Moves.{Moved}
use operating_systems_simula.Os.Held.{Stored, Held, running, running-null, running-some}
use operating_systems_simula.Os.Fetch.{IsOs}
use operating_systems_simula.Os.Rounds.{Runs, Accounted, left_after, cpu_round-Accounted}
use operating_systems_simula.Os.Idle.{cpu_rounds, cpu_rounds-never_stop, cpu_round-stops_early}

-- The process at address 5 is on the CPU, and its time slot is over.
abbrev os : Os
os = record {
  sched = bare;
  procs = λ p. if 5 == p then some loaded else none;
  devices = devices;
  done = true;
}

abbrev cpu : CpuState
cpu = record { proc = 5; time_left = 0 }

idle_queues : procs bare ≡ []
unfolding procs_of
idle_queues = refl

at_five : (p : Ptr) → Mem p (5 ∷ []) → p ≡ 5
at_five p m = elim (ℕ_discrete p 5) [
  | yes e ↦ e
  | no ne ↦ absurd (Or.elim ⊥_prop (eq-or-mem_of_mem-cons m) ne not-mem-nil)
]

five-Held : Held os.procs (5 ∷ [])
five-Held = record {
  stored = λ p m.
      let e = at_five p m in
      record {
        real = omega (arith, e);
        pcb = loaded;
        here = rw (eq→== 5 p (sym e)) refl;
        level = omega arith;
      };
  once = Nodup-cons.1 (not-mem-nil, Pairwise.nil);
  room = omega arith;
}

os-IsOs : IsOs os (running 5 ++ [])
os-IsOs = rw (running-some 5 (λ e. omega (arith, e))) (record {
  sched = bare-IsSched;
  held = subst (λ l. Held os.procs (5 ∷ l)) (sym idle_queues) five-Held;
})

first_run : (r : Ran) × (run junk devices loaded ≡ ok r)
unfolding run execute
first_run = (_, refl)

os-Runs : Runs junk os
os-Runs p pcb h = elim (ℕ_discrete 5 p) [
  | yes e ↦ subst (λ q. (r : Ran) × (run junk devices q ≡ ok r)) (same e) first_run
  | no ne ↦ absurd (nothing ne)
]
  where
    some_inj : some loaded ≡ some pcb → loaded ≡ pcb
    some_inj e = cc

    same : 5 ≡ p → loaded ≡ pcb
    same e = some_inj (sym (rw (eq→== 5 p e) refl) ∙ h)

    nothing : 5 ≢ p → ⊥
    nothing ne = clash (sym (rw (ne→== 5 p ne) refl) ∙ h)
      where
        clash : none ≡ some pcb → ⊥
        clash e = cc

cpu_round-Accounted_example :
    (round : Round) × (cpu_round 2 junk os cpu ≡ some round)
    × Accounted os cpu [] round
    × (left_after round < 2)
cpu_round-Accounted_example =
    cpu_round-Accounted 2 junk os cpu [] (omega arith) (omega arith) (omega arith) os-Runs os-IsOs

abbrev no_work : CpuState
no_work = record { proc = 0; time_left = 0 }

cpu_rounds-never_stop_example : cpu_rounds 3 2 (λ _. junk) os no_work ≡ some (next_slot os no_work)
unfolding queue_empty empty
cpu_rounds-never_stop_example =
    cpu_rounds-never_stop 3 2 (λ _. junk) os no_work bare-IsSched refl refl

-- Two processes wait at level 0, whose turns are spent.
abbrev crowded : Os
crowded = record os {
  sched = spent_zero;
  procs = λ p. if 5 == p then some (record loaded { pc = 3 }) else none;
}

cpu_round-stops_early_example :
    (os' : Os) × (cpu_round 2 junk crowded cpu ≡ some (stop os'))
    × (contents (level os'.sched 0) ≡ contents (level crowded.sched 0))
unfolding empty
cpu_round-stops_early_example =
    cpu_round-stops_early 2 junk crowded cpu (record loaded { pc = 3 }) 0 spent_zero-IsSched
      (omega arith) refl (omega arith) refl refl refl
      (none_below-NoneIn (runnable spent_zero) max_prio refl) refl

-- One CPU has an instruction left in its slot, another is idle; then the loader ends.
abbrev last_round : CpuState
last_round = record { proc = 5; time_left = 1 }

abbrev start_threads : Threads
start_threads = record { os = os; cpus = no_work ∷ last_round ∷ []; jobs = [] }

abbrev run_once : Os
run_once = record os { procs = store os.procs 5 (some (record loaded { pc = 1 })) }

abbrev end_threads : Threads
end_threads = record { os = record run_once { done = true }; cpus = no_work ∷ cpu ∷ []; jobs = [] }

start_threads-Valid : Valid 2 start_threads
unfolding on_cpus InSlot Leveled
start_threads-Valid = record {
  os = rw (running-null 0 refl) os-IsOs;
  slots = (omega arith, (omega arith, tt));
  levels = tt;
  room =
      rw (running-null 0 refl, running-some 5 (λ e. omega (arith, e)), idle_queues) (omega arith);
}

one_round : cpu_round 2 junk os last_round ≡ some (next_slot run_once cpu)
unfolding cpu_round choose check proceed run execute
one_round = refl

nothing_ends : ending os.procs 5 ≡ []
nothing_ends = ending-none os.procs 5 loaded-Stored (λ e. omega (arith, e))
  where
    loaded-Stored : Stored os.procs 5
    loaded-Stored = record {
      real = λ e. omega (arith, e);
      pcb = loaded;
      here = refl;
      level = omega arith;
    }

abbrev image : Image
image = record { address = 7; pcb = loaded; mm = loaded.mm; area = 9; behind = [] }

start_to_end : Steps 2 start_threads [] (ending os.procs 5 ++ []) end_threads
unfolding ld_round
start_to_end =
    more start_threads (record { os = run_once; cpus = no_work ∷ cpu ∷ []; jobs = [] }) end_threads
      [] [] (ending os.procs 5) []
      (slot os run_once (no_work ∷ []) [] last_round cpu [] junk os-Runs one_round)
      (more _ end_threads end_threads [] [] [] []
        (ends run_once (record run_once { done = true }) (no_work ∷ cpu ∷ []) [] 0 image refl)
        (here end_threads))

Steps-Moved_example : Moved 2 start_threads [] (ending os.procs 5 ++ []) end_threads
Steps-Moved_example =
    Steps-Moved 2 start_threads end_threads [] (ending os.procs 5 ++ []) (omega arith) (omega arith)
      start_threads-Valid start_to_end
