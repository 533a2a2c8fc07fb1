-- ===== src/Loader/Runs/Tests.antt =====
-- A program of a calculation and two allocations, from its file on.
use operating_systems_simula.Prelude.{[]}
use operating_systems_simula.Vm.Regular.{Regular}
use operating_systems_simula.Cpu.{no_inst}
use operating_systems_simula.Cpu.Examples.{loaded, unset}
use operating_systems_simula.Os.Load.{Job, Image}
use operating_systems_simula.Loader.{Before}

abbrev before : Before
before = record { proc = loaded; insts = λ i. no_inst; opcode = "" }

abbrev image : Image
image = record { address = 5; pcb = loaded; mm = unset; area = 7; behind = [] }

abbrev job : Job
job = record { start_time = 0; prio = 2 }
