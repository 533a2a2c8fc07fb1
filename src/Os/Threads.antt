-- ===== src/Os/Threads.antt =====
-- The CPUs and the loader of src/os.c together: any order of their rounds.
use mathlib.Core.List.{Mem}
use operating_systems_simula.Prelude.{ℕ, ◌+◌, ◌≤◌, ◌<◌, ◌≡◌, ◌≢◌, some, List, [], ◌∷◌, ◌++◌, length}
use operating_systems_simula.Queue.{Ptr, null, max_queue_size}
use operating_systems_simula.Sched.{max_prio}
use operating_systems_simula.Sched.Conserve.{procs}
use operating_systems_simula.Cpu.{Junk}
use operating_systems_simula.Os.{Os, CpuState, stop, next_slot, cpu_round}
use operating_systems_simula.Os.Held.{running}
use operating_systems_simula.Os.Fetch.{IsOs}
use operating_systems_simula.Os.Choose.{ending}
use operating_systems_simula.Os.Rounds.{Runs}
use operating_systems_simula.Os.Load.{Job, Image, ld_round}

-- The CPUs that have not stopped, and the jobs that are not loaded.
pub record Threads : Type 0 where
  pub os : Os
  pub cpus : List CpuState
  pub jobs : List Job

unfoldable pub on_cpus : List CpuState → List Ptr
on_cpus [] = []
on_cpus (cpu ∷ cpus) = running cpu.proc ++ on_cpus cpus

-- The processes that run or wait.
abbrev pub held : Threads → List Ptr
held s = on_cpus s.cpus ++ procs s.os.sched

-- A round of one thread, with the processes that it adds and those that it frees. The instructions
-- that a CPU runs meet no fault, and `malloc` gives the loader an address that is not in use.
pub data Step (time_slot : ℕ) : Threads → List Ptr → List Ptr → Threads → Type 0 where
  slot :
      (os os' : Os) (before after : List CpuState) (cpu cpu' : CpuState) (jobs : List Job)
      (junk : Junk)
      → Runs junk os
      → cpu_round time_slot junk os cpu ≡ some (next_slot os' cpu')
      → Step time_slot
          (record { os = os; cpus = before ++ (cpu ∷ after); jobs = jobs })
          []
          (ending os.procs cpu.proc)
          (record { os = os'; cpus = before ++ (cpu' ∷ after); jobs = jobs })
  stops :
      (os os' : Os) (before after : List CpuState) (cpu : CpuState) (jobs : List Job) (junk : Junk)
      → Runs junk os
      → cpu_round time_slot junk os cpu ≡ some (stop os')
      → Step time_slot
          (record { os = os; cpus = before ++ (cpu ∷ after); jobs = jobs })
          []
          (ending os.procs cpu.proc)
          (record { os = os'; cpus = before ++ after; jobs = jobs })
  adds :
      (os os' : Os) (cpus : List CpuState) (job : Job) (jobs : List Job) (now : ℕ) (image : Image)
      → image.address ≢ null
      → ¬ Mem image.address (on_cpus cpus ++ procs os.sched)
      → job.start_time ≤ now
      → ld_round now image os (job ∷ jobs) ≡ some (os', jobs)
      → Step time_slot
          (record { os = os; cpus = cpus; jobs = job ∷ jobs })
          (image.address ∷ [])
          []
          (record { os = os'; cpus = cpus; jobs = jobs })
  waits :
      (os os' : Os) (cpus : List CpuState) (job : Job) (jobs jobs' : List Job) (now : ℕ)
      (image : Image)
      → now < job.start_time
      → ld_round now image os (job ∷ jobs) ≡ some (os', jobs')
      → Step time_slot
          (record { os = os; cpus = cpus; jobs = job ∷ jobs })
          []
          []
          (record { os = os'; cpus = cpus; jobs = jobs' })
  ends :
      (os os' : Os) (cpus : List CpuState) (jobs' : List Job) (now : ℕ) (image : Image)
      → ld_round now image os [] ≡ some (os', jobs')
      → Step time_slot
          (record { os = os; cpus = cpus; jobs = [] })
          []
          []
          (record { os = os'; cpus = cpus; jobs = jobs' })

-- Any number of rounds, with all that are added and all that are freed.
pub data Steps (time_slot : ℕ) : Threads → List Ptr → List Ptr → Threads → Type 0 where
  here : (s : Threads) → Steps time_slot s [] [] s
  more :
      (s t u : Threads) (added added' freed freed' : List Ptr)
      → Step time_slot s added freed t
      → Steps time_slot t added' freed' u
      → Steps time_slot s (added ++ added') (freed ++ freed') u

-- Every CPU has fewer slots left than a whole time slot.
unfoldable pub InSlot : ℕ → List CpuState → Type 0
InSlot time_slot [] = Unit {0}
InSlot time_slot (cpu ∷ cpus) = (cpu.time_left < time_slot) × InSlot time_slot cpus

unfoldable pub Leveled : List Job → Type 0
Leveled [] = Unit {0}
Leveled (job ∷ jobs) = (job.prio < max_prio) × Leveled jobs

-- The processes are held as they should be, and there is room for those to come.
pub record Valid (time_slot : ℕ) (s : Threads) : Type 0 where
  pub os : IsOs s.os (on_cpus s.cpus)
  pub slots : InSlot time_slot s.cpus
  pub levels : Leveled s.jobs
  pub room : length (held s) + length s.jobs ≤ max_queue_size
