-- ===== src/Cpu.antt =====
-- src/cpu.c as compiled with MM_PAGING, with the process and its instructions of include/common.h.
-- One call of `run` is one step: nothing else runs on the memory of the process in between.
pub mod Steps
pub mod Program
pub mod Examples
use operating_systems_simula.Prelude.{
  ℕ, ◌+◌, ◌-◌, ◌%◌, ◌^◌, Bool, true, false, Option, none, some, List, ltb, leb, if◌then◌else◌,
  length, get_or,
}
use operating_systems_simula.Memphy.{Memphy, Outcome, ok, failed, fault}
use operating_systems_simula.Regions.{VmRg}
use operating_systems_simula.Vm.{Mm, Caller}
use operating_systems_simula.Vm.Area.{pgalloc, pgfree_data}
use operating_systems_simula.Vm.Transfer.{pgread, pgwrite}

-- `enum ins_opcode_t`; `other` is a number that names no opcode.
pub data Opcode : Type 0 where
  calc alloc free read write other : Opcode

-- `struct inst_t`
pub record Inst : Type 0 where
  pub opcode : Opcode
  pub arg_0 : ℕ
  pub arg_1 : ℕ
  pub arg_2 : ℕ

-- `struct code_seg_t`
pub record CodeSeg : Type 0 where
  pub text : List Inst
  pub size : ℕ

-- `struct pcb_t`. The devices behind `mram` and `active_mswp` are shared: they are arguments of `run`.
-- `mswp`, `page_table` and `bp` are not read with MM_PAGING, and left out.
pub record Pcb : Type 0 where
  pub pid : ℕ
  pub priority : ℕ
  pub prio : ℕ
  pub code : CodeSeg
  pub regs : List ℕ
  pub pc : ℕ
  pub mm : Mm

pub record Devices : Type 0 where
  pub mram : Memphy
  pub active_mswp : Memphy

-- What `malloc` and the stack hold: the address and the successor of a new region node, the frame
-- variable of `pg_getpage` and the byte of `pgread`.
pub record Junk : Type 0 where
  pub fresh : ℕ
  pub behind : List VmRg
  pub frame : ℕ
  pub byte : ℕ

abbrev pub no_inst : Inst
no_inst = record { opcode = other; arg_0 = 0; arg_1 = 0; arg_2 = 0 }

-- -1 as an `int`, and a `uint32_t` that is passed as a `BYTE`.
abbrev pub minus_one : ℕ
minus_one = 2 ^ 32 - 1

abbrev pub byte_of : ℕ → ℕ
byte_of x = x % 2 ^ 8

-- The `int` that a call returns beside the caller, for a call that returns 0 or -1.
abbrev pub status_of : Bool → ℕ
status_of true = 0
status_of false = minus_one

-- What a call leaves that returns 0 with a new state, or -1 with the old one.
abbrev pub settle : Caller → Outcome Caller → Outcome (ℕ × Caller)
settle old (ok new) = ok (0, new)
settle old failed = ok (minus_one, old)
settle old fault = fault

abbrev pub of_option {ℓ} : {A : Type ℓ} → Option A → Outcome A
of_option none = fault
of_option (some a) = ok a

abbrev pub first_of_read : Outcome (Caller × ℕ) → Outcome Caller
first_of_read (ok (caller, byte)) = ok caller
first_of_read failed = failed
first_of_read fault = fault

abbrev pub with_status : Outcome (Bool × Caller) → Outcome (ℕ × Caller)
with_status (ok (code, caller)) = ok (status_of code, caller)
with_status failed = failed
with_status fault = fault

-- The `switch` of `run`: `stat`, and the memory after it. The byte that is read goes nowhere. What
-- `print_pgtbl` and `MEMPHY_dump` do is output.
unfoldable pub execute : Junk → Opcode → Inst → Caller → Outcome (ℕ × Caller)
execute junk calc ins caller = ok (0, caller)
execute junk alloc ins caller = settle caller (of_option (pgalloc caller ins.arg_0 ins.arg_1))
execute junk free ins caller =
    with_status (of_option (pgfree_data junk.fresh junk.behind caller ins.arg_0))
execute junk read ins caller =
    settle caller (first_of_read (pgread junk.frame junk.byte caller ins.arg_0 ins.arg_1))
execute junk write ins caller =
    settle caller (pgwrite junk.frame caller (byte_of ins.arg_0) ins.arg_1 ins.arg_2)
execute junk other ins caller = ok (1, caller)

-- The state that a step ends in.
pub record Ran : Type 0 where
  pub stat : ℕ
  pub devices : Devices
  pub proc : Pcb

abbrev pub caller_of : Devices → Pcb → Caller
caller_of dev proc = record { mm = proc.mm; mram = dev.mram; active_mswp = dev.active_mswp }

abbrev pub back : Pcb → Outcome (ℕ × Caller) → Outcome Ran
back proc (ok (stat, caller)) = ok (record {
  stat = stat;
  devices = record { mram = caller.mram; active_mswp = caller.active_mswp };
  proc = record proc { mm = caller.mm };
})
back proc failed = failed
back proc fault = fault

-- `run`. The program counter is a `uint32_t`; an instruction behind `text` is a read out of range.
unfoldable pub run : Junk → Devices → Pcb → Outcome Ran
run junk dev proc =
    let ins = get_or proc.code.text proc.pc no_inst in
    if leb proc.code.size proc.pc
    then ok (record { stat = 1; devices = dev; proc = proc })
    else if ltb proc.pc (length proc.code.text)
    then back (record proc { pc = (proc.pc + 1) % 2 ^ 32 })
        (execute junk ins.opcode ins (caller_of dev proc))
    else fault
