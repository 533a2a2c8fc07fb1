-- ===== src/Loader/Tests.antt =====
-- Small program files, and the theorems on `load` at inputs that meet the hypotheses.
use operating_systems_simula.Prelude.{
  suc, ◌+◌, ◌%◌, ◌^◌, ◌≡◌, refl, some, List, [], ◌∷◌, arith, if◌then◌else◌, length, ltb,
}
use operating_systems_simula.Cpu.{calc, alloc, free, write, Inst, Pcb, no_inst}
use operating_systems_simula.Cpu.Examples.{loaded}
use operating_systems_simula.Scanner.{stored, numbers}
use operating_systems_simula.Scanner.Tokens.{Token, letters, digits, tokens, token_printer}
use operating_systems_simula.Loader.{
  done, exits, fault, Before, get_opcode, scan_opcode, load_text, load_code, load, opcode_places,
}
use operating_systems_simula.Loader.Print.{filled, IsInst, AreInsts, print_text, print, Names}
use operating_systems_simula.Loader.RoundTrip.{load-print, load-unknown}

abbrev before : Before
before = record { proc = loaded; insts = λ i. no_inst; opcode = "" }

abbrev program : List Inst
program =
    record no_inst { opcode = calc }
    ∷ record no_inst { opcode = alloc; arg_0 = 300; arg_1 = 4 }
    ∷ record { opcode = write; arg_0 = 100; arg_1 = 4; arg_2 = 20 }
    ∷ []

token_names : Names tokens token_printer
token_names = record { is_word = λ op ne. tt }

is_calc : IsInst (record no_inst { opcode = calc })
is_calc = record { known = λ e. cc; arg_0 = omega arith; arg_1 = omega arith; arg_2 = omega arith }

is_alloc : IsInst (record no_inst { opcode = alloc; arg_0 = 300; arg_1 = 4 })
is_alloc = record { known = λ e. cc; arg_0 = omega arith; arg_1 = omega arith; arg_2 = omega arith }

is_write : IsInst (record { opcode = write; arg_0 = 100; arg_1 = 4; arg_2 = 20 })
is_write = record { known = λ e. cc; arg_0 = omega arith; arg_1 = omega arith; arg_2 = omega arith }

program-AreInsts : AreInsts program
unfolding AreInsts
program-AreInsts = (is_calc, (is_alloc, (is_write, tt)))

load-print_example :
    load tokens before 7 (some (print tokens token_printer 1 program []))
    ≡ done (
      (7 + 1) % 2 ^ 32,
      record loaded {
        pid = 7;
        priority = 1;
        code = record { text = filled before.insts 0 program; size = length program };
        pc = 0;
      },
    )
load-print_example =
    load-print tokens token_printer token_names before 7 1 program [] (omega arith) (omega arith)
      program-AreInsts

load-unknown_example :
    load tokens before 7 (
      some (
        token_printer.put_number 1 (
          token_printer.put_number
            (length program + suc 0)
            (print_text tokens token_printer program (token_printer.put_word "jump" [])))))
    ≡ (if ltb opcode_places (stored "jump") then fault else exits)
unfolding get_opcode
load-unknown_example =
    load-unknown tokens token_printer token_names before 7 1 0 program "jump" [] (omega arith)
      (omega arith) program-AreInsts tt refl

-- A word of ten letters does not fit.
long_word : load tokens before 7 (some (digits 1 ∷ digits 1 ∷ letters "deallocate" ∷ [])) ≡ fault
unfolding load load_code load_text scan_opcode numbers
long_word = refl

-- A file of two instructions.
abbrev two_insts : List Token
two_insts = digits 1 ∷ digits 2 ∷ letters "calc" ∷ letters "free" ∷ digits 3 ∷ []

abbrev two_loaded : Pcb
two_loaded = record loaded {
  pid = 7;
  priority = 1;
  code = record {
    text = record no_inst { opcode = calc } ∷ record no_inst { opcode = free; arg_0 = 3 } ∷ [];
    size = 2;
  };
  pc = 0;
}
