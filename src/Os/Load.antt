-- ===== src/Os/Load.antt =====
-- src/os.c: the loop of the loader thread, `ld_routine`, from `load` on. A round is one step.
use operating_systems_simula.Prelude.{
  ℕ, ◌%◌, ◌^◌, true, Option, some, List, [], ◌∷◌, ltb, if◌then◌else◌, ◌>>=◌,
}
use operating_systems_simula.Queue.{Ptr}
use operating_systems_simula.Sched.{add_proc}
use operating_systems_simula.Vm.{Mm, init_mm}
use operating_systems_simula.Regions.{VmRg}
use operating_systems_simula.Cpu.{Pcb}
use operating_systems_simula.Os.{Os, store}

-- An entry of `ld_processes`.
pub record Job : Type 0 where
  pub start_time : ℕ
  pub prio : ℕ

-- What `load` and `malloc` give: the address of the process and what is loaded there, the memory that
-- `init_mm` sets up, the address of its dummy region, and what is left in `vm_freerg_list`, behind which
-- the dummy region is hung.
pub record Image : Type 0 where
  pub address : Ptr
  pub pcb : Pcb
  pub mm : Mm
  pub area : ℕ
  pub behind : List VmRg

-- The process that is added. `prio` is narrowed to an `uint32_t`.
abbrev pub prepared : Image → Job → Pcb
prepared image job = record (image.pcb) {
  prio = job.prio % 2 ^ 32;
  mm = init_mm image.area image.behind image.mm;
}

-- `init_mm(proc->mm, proc);` and `add_proc(proc);`
unfoldable pub admit : Os → Image → Job → Option Os
admit os image job = add_proc os.sched image.address (prepared image job).prio >>= λ s.
    some (record os { sched = s; procs = store os.procs image.address (some (prepared image job)) })

-- One round, with the jobs left, at the time `now`: all are loaded, the next is not due, or it is added.
unfoldable pub ld_round : ℕ → Image → Os → List Job → Option (Os × List Job)
ld_round now image os [] = some (record os { done = true }, [])
ld_round now image os (job ∷ jobs) =
    if ltb now job.start_time
    then some (os, job ∷ jobs)
    else (admit os image job >>= λ os'. some (os', jobs))
