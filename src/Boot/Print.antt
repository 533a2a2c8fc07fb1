-- ===== src/Boot/Print.antt =====
-- Configuration files, and what `read_config` makes of them.
use Prim.Native.String.{String, ◌++◌ as str_append}
use operating_systems_simula.Prelude.{
  ℕ, ◌^◌, ◌<◌, ◌≡◌, refl, ap, ◌∙◌, false, List, [], ◌∷◌, arith, length, ltb,
}
use operating_systems_simula.Os.Load.{Job}
use operating_systems_simula.Scanner.{Scanner, Printer, scan_then, stored, ints}
use operating_systems_simula.Boot.{Config, Entry, path_places, paging_max_mmswp}

-- A line of a process: the word that names its program, its start and its priority.
pub record Line : Type 0 where
  pub name : String
  pub job : Job

pub record Setup : Type 0 where
  pub time_slot : ℕ
  pub num_cpus : ℕ
  pub memramsz : ℕ
  pub memswpsz : List ℕ
  pub lines : List Line

unfoldable pub entries_of : List Line → List Entry
entries_of [] = []
entries_of (l ∷ ls) = record { path = str_append "input/proc/" l.name; job = l.job } ∷ entries_of ls

abbrev pub config_of : Setup → Config
config_of s = record {
  time_slot = s.time_slot;
  num_cpus = s.num_cpus;
  num_processes = length s.lines;
  memramsz = s.memramsz;
  memswpsz = s.memswpsz;
  entries = entries_of s.lines;
}

unfoldable pub AreInts : List ℕ → Type 0
AreInts [] = Unit {0}
AreInts (n ∷ ns) = (n < 2 ^ 31) × AreInts ns

module _ (sc : Scanner) (pr : Printer sc) where
  -- The word and its path fit in their hundred bytes, and the numbers are `unsigned long`s.
  pub record IsLine (l : Line) : Type 0 where
    pub is_word : pr.IsWord l.name
    pub name_fits : ltb path_places (stored l.name) ≡ false
    pub path_fits : ltb path_places (stored (str_append "input/proc/" l.name)) ≡ false
    pub start_time : l.job.start_time < 2 ^ 64
    pub prio : l.job.prio < 2 ^ 64

  unfoldable pub AreLines : List Line → Type 0
  AreLines [] = Unit {0}
  AreLines (l ∷ ls) = IsLine l × AreLines ls

  pub record IsSetup (s : Setup) : Type 0 where
    pub time_slot : s.time_slot < 2 ^ 31
    pub num_cpus : s.num_cpus < 2 ^ 31
    pub few : length s.lines < 2 ^ 31
    pub memramsz : s.memramsz < 2 ^ 31
    pub swaps : length s.memswpsz ≡ paging_max_mmswp
    pub sizes : AreInts s.memswpsz
    pub lines : AreLines s.lines

  unfoldable pub print_ints : List ℕ → sc.File → sc.File
  print_ints [] f = f
  print_ints (n ∷ ns) f = pr.put_number n (print_ints ns f)

  unfoldable pub print_line : Line → sc.File → sc.File
  print_line l f = pr.put_number l.job.start_time (pr.put_word l.name (pr.put_number l.job.prio f))

  unfoldable pub print_lines : List Line → sc.File → sc.File
  unfolding print_line
  print_lines [] f = f
  print_lines (l ∷ ls) f = print_line l (print_lines ls f)

  -- The file: three numbers, the size of the RAM, the sizes of the swaps, and the lines.
  unfoldable pub print_config : Setup → sc.File → sc.File
  unfolding print_ints print_lines
  print_config s f =
      print_ints (s.time_slot ∷ s.num_cpus ∷ length s.lines ∷ [])
        (print_ints (s.memramsz ∷ []) (print_ints s.memswpsz (print_lines s.lines f)))

  pub ints-print :
      (ns olds : List ℕ) (f : sc.File)
      → length ns ≡ length olds
      → AreInts ns
      → ints sc (print_ints ns f) olds ≡ (ns, f)
  unfolding ints print_ints AreInts
  ints-print [] [] f e v = refl
  ints-print [] (o ∷ os) f e v = absurd (omega (arith, e))
  ints-print (n ∷ ns) [] f e v = absurd (omega (arith, e))
  ints-print (n ∷ ns) (o ∷ os) f e v =
      ap (λ r. scan_then r o os (λ g. ints sc g os)) (pr.int_read n (print_ints ns f) v.0)
      ∙ ap (λ r. (n ∷ r.0, r.1)) (ints-print ns os f (omega (arith, e)) v.1)
