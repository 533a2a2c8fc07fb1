-- ===== src/Loader/Runs.antt =====
-- A program from its file to its last instruction: `load` of src/loader.c, what `ld_routine` of src/os.c
-- sets up, and the calls of `run` of src/cpu.c.
mod Tests
use operating_systems_simula.Prelude.{ℕ, ◌+◌, ◌∙◌, List, [], ◌∷◌, length}
use operating_systems_simula.Vm.{Mm}
use operating_systems_simula.Vm.Regular.{Regular}
use operating_systems_simula.Cpu.{Inst, Pcb}
use operating_systems_simula.Cpu.Steps.{inst_at}
use operating_systems_simula.Cpu.Program.{IsPlain, asks}
use operating_systems_simula.Scanner.{Scanner}
use operating_systems_simula.Loader.{Before}
use operating_systems_simula.Loader.Print.{filled, IsInst}

-- The program has calculations and allocations only.
unfoldable pub ArePlain : List Inst → Type 0
ArePlain [] = Unit {0}
ArePlain (ins ∷ text) = IsPlain ins.opcode ins × ArePlain text

-- The bytes that it asks for.
unfoldable pub total : List Inst → ℕ
total [] = 0
total (ins ∷ text) = asks ins.opcode ins + total text

-- The process that `load` makes of the program.
abbrev pub loaded_as : Before → ℕ → ℕ → List Inst → Pcb
loaded_as before pid priority text = record (before.proc) {
  pid = pid;
  priority = priority;
  code = record { text = filled before.insts 0 text; size = length text };
  pc = 0;
}
