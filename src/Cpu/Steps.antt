-- ===== src/Cpu/Steps.antt =====
-- What one call of `run` does to a process, and how a program comes to its end.
use operating_systems_simula.Prelude.{
  ℕ, Bool, Option, none, some, ◌+◌, ◌%◌, ◌^◌, ◌≤◌, ◌<◌, ◌≡◌, ◌≢◌, refl, ◌∙◌, ap, Bool-cases, leb,
  ltb, sym, inl, inr, ◌⊎◌, arith, le→leb, lt→leb, lt→ltb, length, get_or,
}
use operating_systems_simula.Memphy.{Outcome, ok, failed, fault}
use operating_systems_simula.Vm.{Caller}
use operating_systems_simula.Cpu.{
  Opcode, calc, alloc, free, read, write, other, Inst, Pcb, Devices, Junk, no_inst, settle,
  with_status, of_option, execute, Ran, caller_of, back, run,
}

abbrev pub inst_at : Pcb → ℕ → Inst
inst_at proc i = get_or proc.code.text i no_inst

-- The process is at an instruction of its program.
pub record Running (proc : Pcb) : Type 0 where
  pub inside : proc.pc < proc.code.size
  pub written : proc.code.size ≤ length proc.code.text
  pub word : proc.code.size < 2 ^ 32

settle-ne-failed : (old : Caller) (o : Outcome Caller) → settle old o ≢ failed
settle-ne-failed old (ok new) e = cc
settle-ne-failed old failed e = cc
settle-ne-failed old fault e = cc

with_status-ne-failed : (o : Option (Bool × Caller)) → with_status (of_option o) ≢ failed
with_status-ne-failed none e = cc
with_status-ne-failed (some (code, caller)) e = cc

execute-ne-failed :
    (junk : Junk) (op : Opcode) (ins : Inst) (caller : Caller) → execute junk op ins caller ≢ failed
unfolding execute
execute-ne-failed junk calc ins caller e = cc
execute-ne-failed junk alloc ins caller e = settle-ne-failed _ _ e
execute-ne-failed junk free ins caller e = with_status-ne-failed _ e
execute-ne-failed junk read ins caller e = settle-ne-failed _ _ e
execute-ne-failed junk write ins caller e = settle-ne-failed _ _ e
execute-ne-failed junk other ins caller e = cc

Outcome-cases {ℓ} :
    {A : Type ℓ} (o : Outcome A) → (o ≡ fault) ⊎ (o ≡ failed) ⊎ ((a : A) × (o ≡ ok a))
Outcome-cases (ok a) = inr (inr (a, refl))
Outcome-cases failed = inr (inl refl)
Outcome-cases fault = inl refl

pub run-step :
    (junk : Junk) (dev : Devices) (proc : Pcb)
    → Running proc
    → run junk dev proc
      ≡ back
          (record proc { pc = proc.pc + 1 })
          (execute junk (inst_at proc proc.pc).opcode (inst_at proc proc.pc) (caller_of dev proc))
unfolding run
run-step junk dev proc r =
    let next : (proc.pc + 1) % 2 ^ 32 ≡ proc.pc + 1 = omega (arith, r.inside, r.word) in
    rw
      (
        lt→leb proc.code.size proc.pc r.inside,
        lt→ltb proc.pc (length proc.code.text) (omega (arith, r.inside, r.written)),
        next,
      )
      refl

-- At the end of the program `run` returns 1 and changes nothing.
pub run-finished :
    (junk : Junk) (dev : Devices) (proc : Pcb)
    → proc.code.size ≤ proc.pc
    → run junk dev proc ≡ ok (record { stat = 1; devices = dev; proc = proc })
unfolding run
run-finished junk dev proc h = rw (le→leb proc.code.size proc.pc h) refl

prio_of : ℕ → Outcome Ran → ℕ
prio_of d (ok r) = r.proc.prio
prio_of d failed = d
prio_of d fault = d

back-keeps_prio :
    (proc : Pcb) (o : Outcome (ℕ × Caller)) → prio_of proc.prio (back proc o) ≡ proc.prio
unfolding prio_of
back-keeps_prio proc (ok (stat, caller)) = refl
back-keeps_prio proc failed = refl
back-keeps_prio proc fault = refl

run-prio_of :
    (junk : Junk) (dev : Devices) (proc : Pcb) → prio_of proc.prio (run junk dev proc) ≡ proc.prio
unfolding run prio_of
run-prio_of junk dev proc = elim (Bool-cases (leb proc.code.size proc.pc)) [
  | inl e ↦ rw e refl
  | inr e ↦ elim (Bool-cases (ltb proc.pc (length proc.code.text))) [
    | inl f ↦ rw (e, f) (back-keeps_prio (record proc { pc = (proc.pc + 1) % 2 ^ 32 }) _)
    | inr f ↦ rw (e, f) refl
  ]
]

-- No instruction changes the level of a process.
pub run-keeps_prio :
    (junk : Junk) (dev : Devices) (proc : Pcb) (r : Ran)
    → run junk dev proc ≡ ok r
    → r.proc.prio ≡ proc.prio
unfolding prio_of
run-keeps_prio junk dev proc r e = ap (prio_of proc.prio) (sym e) ∙ run-prio_of junk dev proc
