-- ===== src/Cpu/Examples.antt =====
-- A small program and a new process that runs it, for the tests.
use operating_systems_simula.Prelude.{ℕ, ◌≡◌, List, [], ◌∷◌, replicate, length, length-replicate}
use operating_systems_simula.Pte.{paging_max_pgn}
use operating_systems_simula.Memphy.{Memphy}
use operating_systems_simula.Vm.{Mm, init_mm}
use operating_systems_simula.Vm.Paging.{paging_max_symtbl_sz}
use operating_systems_simula.Vm.Area.{no_region}
use operating_systems_simula.Cpu.{calc, alloc, Inst, Pcb, Devices, Junk, no_inst}

abbrev pub small_device : Memphy
small_device = record {
  storage = replicate 1024 0;
  maxsz = 1024;
  rdmflg = 1;
  cursor = 0;
  free_fp_list = 2 ∷ 3 ∷ [];
  used_fp_list = [];
}

abbrev pub devices : Devices
devices = record { mram = small_device; active_mswp = small_device }

abbrev pub unset : Mm
unset = record {
  pgd = replicate paging_max_pgn 0;
  mmap = [];
  symrgtbl = replicate paging_max_symtbl_sz no_region;
  fifo_pgn = [];
}

pub unset_pages : length unset.pgd ≡ paging_max_pgn
unset_pages = length-replicate {A = ℕ} paging_max_pgn 0

-- `calc`, then `alloc 300 0`, then `alloc 100 4`.
abbrev pub program : List Inst
program =
    record no_inst { opcode = calc }
    ∷ record no_inst { opcode = alloc; arg_0 = 300; arg_1 = 0 }
    ∷ record no_inst { opcode = alloc; arg_0 = 100; arg_1 = 4 }
    ∷ []

abbrev pub loaded : Pcb
loaded = record {
  pid = 1;
  priority = 0;
  prio = 2;
  code = record { text = program; size = 3 };
  regs = replicate 10 0;
  pc = 0;
  mm = init_mm 7 [] unset;
}

abbrev pub junk : Junk
junk = record { fresh = 8; behind = []; frame = 0; byte = 0 }
