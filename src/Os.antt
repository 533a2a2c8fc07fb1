-- ===== src/Os.antt =====
-- src/os.c: the loop of a CPU, `cpu_routine`. One round of the loop, up to its call of `next_slot`, is
-- one step on what the threads share.
pub mod Held
pub mod Fetch
pub mod Choose
pub mod Rounds
pub mod Idle
pub mod Load
pub mod Admit
pub mod Threads
pub mod Moves
pub mod Order
mod Tests
use operating_systems_simula.Prelude.{
  ℕ, ◌+◌, ◌-◌, ◌%◌, ◌^◌, Bool, Option, none, some, ◌==◌, if◌then◌else◌, ◌>>=◌,
}
use operating_systems_simula.Queue.{Ptr, null}
use operating_systems_simula.Sched.{Sched, get_proc, put_proc}
use operating_systems_simula.Memphy.{Outcome, ok, failed, fault}
use operating_systems_simula.Cpu.{Pcb, Devices, Junk, Ran, run}

-- What the threads share: the ready queue, the processes that are allocated, by their addresses, the
-- devices, and the flag `done` of the loader.
pub record Os : Type 0 where
  pub sched : Sched
  pub procs : Ptr → Option Pcb
  pub devices : Devices
  pub done : Bool

-- The local variables of `cpu_routine`; `time_left` is an `int`.
pub record CpuState : Type 0 where
  pub proc : Ptr
  pub time_left : ℕ

-- How a round ends: the CPU stops, or it waits for the next slot.
pub data Round : Type 0 where
  stop : Os → Round
  next_slot : Os → CpuState → Round

-- What the first part of a round leaves: an idle CPU that skips the rest, or one that goes on.
pub data Chosen : Type 0 where
  skip : Os → Chosen
  go : Os → CpuState → Chosen

abbrev pub store : (Ptr → Option Pcb) → Ptr → Option Pcb → Ptr → Option Pcb
store procs p content q = if p == q then content else procs q

-- `free(proc)`
abbrev pub release : Os → Ptr → Os
release os p = record os { procs = store os.procs p none }

-- `proc = get_proc();`
unfoldable pub fetch : Os → Option (Ptr × Os)
fetch os = get_proc os.sched >>= λ out. some (out.0, record os { sched = out.1 })

abbrev pub start : CpuState → Ptr × Os → Chosen
start cpu (p, os) = if p == null then skip os else go os (record cpu { proc = p })

abbrev pub go_with : ℕ → Ptr × Os → Chosen
go_with left (p, os) = go os (record { proc = p; time_left = left })

-- The check of a process that the CPU has.
unfoldable pub check : Os → CpuState → Pcb → Option Chosen
check os cpu pcb =
    if pcb.pc == pcb.code.size
    then (fetch (release os cpu.proc) >>= λ out. some (go_with 0 out))
    else if cpu.time_left == 0
    then (put_proc os.sched cpu.proc pcb.prio >>= λ s.
        fetch (record os { sched = s }) >>= λ out. some (go_with cpu.time_left out))
    else some (go os cpu)

-- `Check the status of current process`
unfoldable pub choose : Os → CpuState → Option Chosen
choose os cpu =
    if cpu.proc == null
    then (fetch os >>= λ out. some (start cpu out))
    else (os.procs cpu.proc >>= check os cpu)

-- `time_left--`
abbrev pub one_less : ℕ → ℕ
one_less left = (left + (2 ^ 32 - 1)) % 2 ^ 32

abbrev pub after_run : Os → Ptr → ℕ → Outcome Ran → Option Round
after_run os p left (ok r) = some (
    next_slot (record os { procs = store os.procs p (some r.proc); devices = r.devices })
      (record { proc = p; time_left = one_less left }))
after_run os p left failed = none
after_run os p left fault = none

-- `Recheck process status after loading new process`, and `Run current process`
unfoldable pub proceed : ℕ → Junk → Os → CpuState → Option Round
proceed time_slot junk os cpu =
    if cpu.proc == null
    then some (if os.done then stop os else next_slot os cpu)
    else (os.procs cpu.proc >>= λ pcb.
        after_run os cpu.proc (if cpu.time_left == 0 then time_slot else cpu.time_left)
          (run junk os.devices pcb))

abbrev pub carry_on : ℕ → Junk → CpuState → Chosen → Option Round
carry_on time_slot junk cpu (skip os) = some (next_slot os cpu)
carry_on time_slot junk cpu (go os cpu') = proceed time_slot junk os cpu'

-- The body of `while (1)`. `none` is a use of memory that is not there, or a write behind a queue.
unfoldable pub cpu_round : ℕ → Junk → Os → CpuState → Option Round
cpu_round time_slot junk os cpu = choose os cpu >>= carry_on time_slot junk cpu
