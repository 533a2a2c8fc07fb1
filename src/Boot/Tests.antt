-- ===== src/Boot/Tests.antt =====
-- A small configuration, and the theorems on the start of the program at inputs that meet the hypotheses.
use Prim.Native.String.{String}
use operating_systems_simula.Prelude.{suc, ◌≡◌, refl, some, [], ◌∷◌, arith}
use operating_systems_simula.Timer.Progress.{started}
use operating_systems_simula.Os.Threads.{held, Leveled, Valid}
use operating_systems_simula.Scanner.{ints}
use operating_systems_simula.Scanner.Tokens.{letters, digits, tokens, token_printer}
use operating_systems_simula.Loader.{done, fault}
use operating_systems_simula.Boot.{
  Before, Memories, rounds, jobs_of, entry, read_config, read_entries, read_sizes, boot,
}
use operating_systems_simula.Boot.Print.{
  Line, Setup, entries_of, config_of, print_ints, print_line, print_lines,
}
use operating_systems_simula.Boot.Ready.{IsConfig, boot-Valid}

abbrev before : Before
before = record { start_time = λ i. 0; prio = λ i. 0; name = λ i. "" }

abbrev p0s : Line
p0s = record { name = "p0s"; job = record { start_time = 0; prio = 4 } }

abbrev p1s : Line
p1s = record { name = "p1s"; job = record { start_time = 4; prio = 0 } }

-- Two CPUs, a time slot of 6, and two processes.
abbrev setup : Setup
setup = record {
  time_slot = 6;
  num_cpus = 2;
  memramsz = 2048;
  memswpsz = 16777216 ∷ 0 ∷ 0 ∷ 0 ∷ [];
  lines = p0s ∷ p1s ∷ [];
}

-- Ninety letters.
abbrev long_name : String
long_name =
    "abcdefghijklmnopqrstuvwxyzabcdefghijklmnopqrstuvwxyzabcdefghijklmnopqrstuvwxyzabcdefghijkl"

abbrev long_line : Line
long_line = record { name = long_name; job = record { start_time = 1; prio = 1 } }

-- The second name is too long for its path.
long_path :
    read_config tokens before (
      some (
        print_ints tokens token_printer (6 ∷ 2 ∷ 2 ∷ []) (
          print_ints tokens token_printer
            (2048 ∷ 1 ∷ 0 ∷ 0 ∷ 0 ∷ [])
            (print_lines tokens token_printer (p0s ∷ long_line ∷ []) []))))
    ≡ fault
unfolding read_config read_entries read_sizes ints entry print_ints print_lines print_line
long_path = refl

-- The file ends before the priority of the second process: it stays what `malloc` left.
short_file :
    read_config tokens before (
      some (
        digits 6
        ∷ digits 2
        ∷ digits 1
        ∷ digits 2048
        ∷ digits 1
        ∷ digits 2
        ∷ digits 3
        ∷ digits 4
        ∷ digits 9
        ∷ letters "p0s"
        ∷ []))
    ≡ done (record {
      time_slot = 6;
      num_cpus = 2;
      num_processes = 1;
      memramsz = 2048;
      memswpsz = 1 ∷ 2 ∷ 3 ∷ 4 ∷ [];
      entries = record { path = "input/proc/p0s"; job = record { start_time = 9; prio = 0 } } ∷ [];
    })
unfolding read_config read_entries read_sizes ints entry
short_file = refl

abbrev memories : Memories
memories = record {
  before = λ k. record {
    storage = [];
    maxsz = 0;
    rdmflg = 0;
    cursor = 0;
    free_fp_list = [];
    used_fp_list = [];
  };
  storage = λ k size. [];
  garbage = λ k. [];
}

setup-IsConfig : IsConfig (config_of setup)
unfolding entries_of jobs_of Leveled
setup-IsConfig = record {
  time_slot = omega arith;
  few = omega arith;
  levels = (omega arith, (omega arith, tt));
}

boot-Valid_example :
    Valid 6 (boot memories (config_of setup)).threads
    × (held (boot memories (config_of setup)).threads ≡ [])
    × ((boot memories (config_of setup)).timer ≡ started (suc (rounds 2)))
boot-Valid_example = boot-Valid memories (config_of setup) setup-IsConfig
