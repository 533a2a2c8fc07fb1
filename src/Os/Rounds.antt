-- ===== src/Os/Rounds.antt =====
-- A whole round of `cpu_routine`.
use mathlib.Core.List.{Perm, mem-cons_self}
use operating_systems_simula.Prelude.{
  ℕ, ◌^◌, ◌≤◌, ◌<◌, ◌≡◌, ◌≢◌, refl, sym, subst, inl, inr, Option, some, List, ◌++◌, arith, ne→==,
  eq→==, ℕ_discrete, ◌==◌, if◌then◌else◌, Bool-cases,
}
use operating_systems_simula.Queue.{Ptr, null}
use operating_systems_simula.Sched.{max_prio}
use operating_systems_simula.Sched.Conserve.{procs}
use operating_systems_simula.Memphy.{ok}
use operating_systems_simula.Cpu.{Pcb, Junk, Ran, run}
use operating_systems_simula.Cpu.Steps.{run-keeps_prio}
use operating_systems_simula.Os.{
  Os, CpuState, Chosen, skip, go, Round, stop, next_slot, store, one_less, proceed, carry_on,
  cpu_round,
}
use operating_systems_simula.Os.Held.{Stored, Held-write, running, running-some}
use operating_systems_simula.Os.Fetch.{IsOs}
use operating_systems_simula.Os.Choose.{ending, Passed, os_of, state_of, choose-Choice}

-- The state after a round; a CPU that has stopped runs nothing.
abbrev pub os_after : Round → Os
os_after (stop os) = os
os_after (next_slot os cpu) = os

abbrev pub proc_after : Round → Ptr
proc_after (stop os) = null
proc_after (next_slot os cpu) = cpu.proc

abbrev pub left_after : Round → ℕ
left_after (stop os) = 0
left_after (next_slot os cpu) = cpu.time_left

-- No instruction that a process may be at is a use of memory that is not there.
abbrev pub Runs : Junk → Os → Type 0
Runs junk os =
    (p : Ptr) (pcb : Pcb) → os.procs p ≡ some pcb → (r : Ran) × (run junk os.devices pcb ≡ ok r)

-- What the second part of a round answers: the process and what waits are as before.
pub record Proceeded (time_slot : ℕ) (os : Os) (cpu : CpuState) (others : List Ptr)
    (out : Option Round) : Type 0 where
  pub round : Round
  pub answer : out ≡ some round
  pub proc : proc_after round ≡ cpu.proc
  pub valid : IsOs (os_after round) (running cpu.proc ++ others)
  pub sched : (os_after round).sched ≡ os.sched
  pub left : left_after round < time_slot

module _ (time_slot : ℕ) (junk : Junk) (os : Os) (cpu : CpuState) (others : List Ptr)
    (slot : 0 < time_slot) (word : time_slot < 2 ^ 31) (left : cpu.time_left < time_slot)
    (runs : Runs junk os) (v : IsOs os (running cpu.proc ++ others)) where
  proceed_idle : cpu.proc ≡ null → Proceeded time_slot os cpu others (proceed time_slot junk os cpu)
  unfolding proceed
  proceed_idle e = elim (Bool-cases os.done) [
    | inl d ↦ record {
      round = stop os;
      answer = rw (eq→== cpu.proc null e, d) refl;
      proc = sym e;
      valid = v;
      sched = refl;
      left = slot;
    }
    | inr d ↦ record {
      round = next_slot os cpu;
      answer = rw (eq→== cpu.proc null e, d) refl;
      proc = refl;
      valid = v;
      sched = refl;
      left = left;
    }
  ]

  one_less-below : one_less (if cpu.time_left == 0 then time_slot else cpu.time_left) < time_slot
  one_less-below = elim (ℕ_discrete cpu.time_left 0) [
    | yes e ↦ rw (eq→== cpu.time_left 0 e) (omega arith)
    | no ne ↦ rw (ne→== cpu.time_left 0 ne) (omega arith)
  ]

  proceed_busy : cpu.proc ≢ null → Proceeded time_slot os cpu others (proceed time_slot junk os cpu)
  unfolding proceed
  proceed_busy real =
      let busy = subst (λ l. IsOs os (l ++ others)) (running-some cpu.proc real) v in
      let s : Stored os.procs cpu.proc = busy.held.stored cpu.proc mem-cons_self in
      let (r, ran) = runs cpu.proc s.pcb s.here in
      let level : r.proc.prio < max_prio =
        omega (arith, run-keeps_prio junk os.devices s.pcb r ran, s.level) in
      record {
        round =
            next_slot
              (record os { procs = store os.procs cpu.proc (some r.proc); devices = r.devices })
              (record {
                proc = cpu.proc;
                time_left = one_less (if cpu.time_left == 0 then time_slot else cpu.time_left);
              });
        answer = rw (ne→== cpu.proc null real, s.here, ran) refl;
        proc = refl;
        valid = record {
          sched = v.sched;
          held = Held-write os.procs cpu.proc r.proc _ level v.held;
        };
        sched = refl;
        left = one_less-below;
      }

  proceed-Proceeded : Proceeded time_slot os cpu others (proceed time_slot junk os cpu)
  proceed-Proceeded = elim (ℕ_discrete cpu.proc null) [
    | yes e ↦ proceed_idle e
    | no real ↦ proceed_busy real
  ]

-- What a round leaves: the process that the CPU runs, those of the other CPUs and those that wait are
-- the ones from before, but for one that is freed at the end of its program.
pub record Accounted (os : Os) (cpu : CpuState) (others : List Ptr) (round : Round) : Type 0 where
  pub valid : IsOs (os_after round) (running (proc_after round) ++ others)
  pub all_there : Perm ((running cpu.proc ++ others) ++ procs os.sched) (
      ending os.procs cpu.proc
      ++ ((running (proc_after round) ++ others) ++ procs (os_after round).sched))

module _ (time_slot : ℕ) (junk : Junk) (os : Os) (cpu : CpuState) (others : List Ptr) where
  carry_on-Accounted :
      (c : Chosen)
      → 0 < time_slot
      → time_slot < 2 ^ 31
      → cpu.time_left < time_slot
      → Runs junk os
      → Passed os (os_of c) cpu.proc (state_of cpu c).proc others
      → (state_of cpu c).time_left ≤ cpu.time_left
      → (round : Round) × (carry_on time_slot junk cpu c ≡ some round)
        × Accounted os cpu others round
        × (left_after round < time_slot)
  carry_on-Accounted (skip os') slot word left runs p less =
      (next_slot os' cpu, refl, record { valid = p.valid; all_there = p.accounted }, left)
  carry_on-Accounted (go os' cpu') slot word left runs p less =
      let runs' : Runs junk os' = λ q pcb h.
        subst (λ d. (r : Ran) × (run junk d pcb ≡ ok r)) (sym p.devices)
          (runs q pcb (p.from q pcb h)) in
      let k =
        proceed-Proceeded time_slot junk os' cpu' others slot word (omega arith) runs' p.valid in
      (
        k.round,
        k.answer,
        record { valid = rw k.proc k.valid; all_there = rw (k.proc, k.sched) p.accounted },
        k.left,
      )

  -- A round of a CPU ends without a fault where no more than ten processes are held, each once and at
  -- a level of the queue, and where their instructions meet no fault. No process is lost and none is
  -- held twice: a process that was on a CPU or waited is so still, but for one that the CPU had and
  -- that is at the end of its program; the state stays valid for the rounds of this and of the other
  -- CPUs. The rounds that the CPU has left for a process stay fewer than `time_slot`.
  pub cpu_round-Accounted :
      0 < time_slot
      → time_slot < 2 ^ 31
      → cpu.time_left < time_slot
      → Runs junk os
      → IsOs os (running cpu.proc ++ others)
      → (round : Round) × (cpu_round time_slot junk os cpu ≡ some round)
        × Accounted os cpu others round
        × (left_after round < time_slot)
  unfolding cpu_round
  cpu_round-Accounted slot word left runs v =
      let c = choose-Choice os cpu others v in
      let (round, e, accounted, less) =
        carry_on-Accounted c.chosen slot word left runs c.passed c.left in
      (round, rw (c.answer) e, accounted, less)
