-- ===== src/Boot.antt =====
-- src/os.c: `read_config`, and `main` up to the start of the threads.
pub mod Print
pub mod RoundTrip
pub mod Ready
mod Tests
use Prim.Native.String.{String, ◌++◌ as str_append}
use operating_systems_simula.Prelude.{
  ℕ, zero, suc, ◌+◌, ◌^◌, false, Option, none, some, List, [], ◌∷◌, ltb, if◌then◌else◌, get_or,
  replicate,
}
use operating_systems_simula.Queue.{Ptr, null, Queue, max_queue_size}
use operating_systems_simula.Sched.{max_prio, Sched, init_scheduler}
use operating_systems_simula.Memphy.{Memphy, init_memphy}
use operating_systems_simula.Timer.{Device, Timer, attach_event, start_timer}
use operating_systems_simula.Os.{Os, CpuState}
use operating_systems_simula.Os.Load.{Job}
use operating_systems_simula.Os.Threads.{Threads}
use operating_systems_simula.Scanner.{Scanner, stored, ints}
use operating_systems_simula.Loader.{Exit, done, exits, fault, ◌>>=◌}

abbrev pub paging_max_mmswp : ℕ
paging_max_mmswp = 4

-- The room of `path`, of an entry of `ld_processes.path` and of the word `proc`: 100 bytes each.
abbrev pub path_places : ℕ
path_places = 100

-- An entry of `ld_processes`.
pub record Entry : Type 0 where
  pub path : String
  pub job : Job

-- The static variables that `read_config` fills. An `int` is given by its bit pattern.
pub record Config : Type 0 where
  pub time_slot : ℕ
  pub num_cpus : ℕ
  pub num_processes : ℕ
  pub memramsz : ℕ
  pub memswpsz : List ℕ
  pub entries : List Entry

-- What `malloc` and the stack hold before round `i`: the two arrays and the word `proc`.
pub record Before : Type 0 where
  pub start_time : ℕ → ℕ
  pub prio : ℕ → ℕ
  pub name : ℕ → String

-- The rounds of a loop up to an `int`: none where it is negative.
abbrev pub rounds : ℕ → ℕ
rounds n = if ltb n (2 ^ 31) then n else 0

-- `strcat(ld_processes.path[i], proc)`. A path that does not fit is written behind its memory.
unfoldable pub entry : ℕ → String → ℕ → Exit Entry
entry start name prio =
    let path = str_append "input/proc/" name in
    if ltb path_places (stored path)
    then fault
    else done (record { path = path; job = record { start_time = start; prio = prio } })

module _ (sc : Scanner) where
  -- `fscanf(file, "%lu %s %lu\n", …)` in round `i`, conversion by conversion: the first that fails is
  -- the last. A word that does not fit is written behind `proc`.
  abbrev pub entry_prio : Before → ℕ → ℕ → String → Option ℕ × sc.File → Exit (Entry × sc.File)
  entry_prio before i start name (none, f) = entry start name (before.prio i) >>= λ e. done (e, f)
  entry_prio before i start name (some prio, f) = entry start name prio >>= λ e. done (e, f)

  abbrev pub entry_name : Before → ℕ → ℕ → Option String × sc.File → Exit (Entry × sc.File)
  entry_name before i start (none, f) =
      entry start (before.name i) (before.prio i) >>= λ e. done (e, f)
  entry_name before i start (some name, f) =
      if ltb path_places (stored name) then fault else entry_prio before i start name (sc.long f)

  abbrev pub entry_start : Before → ℕ → Option ℕ × sc.File → Exit (Entry × sc.File)
  entry_start before i (none, f) =
      entry (before.start_time i) (before.name i) (before.prio i) >>= λ e. done (e, f)
  entry_start before i (some start, f) = entry_name before i start (sc.word f)

  -- `for (i = 0; i < num_processes; i++)`, by the rounds left and `i`.
  unfoldable pub read_entries : ℕ → Before → ℕ → sc.File → Exit (List Entry)
  read_entries zero before i f = done []
  read_entries (suc n) before i f = entry_start before i (sc.long f) >>= λ out.
      read_entries n before (i + 1) out.1 >>= λ entries. done (out.0 ∷ entries)

  -- One `fscanf(file, "%d", …)` for each swap.
  unfoldable pub read_sizes : ℕ → sc.File → List ℕ × sc.File
  read_sizes zero f = ([], f)
  read_sizes (suc n) f =
      let (size, g) = ints sc f (0 ∷ []) in
      let (sizes, h) = read_sizes n g in (get_or size 0 0 ∷ sizes, h)

  -- The static variables are 0 before. `none` is a file that cannot be opened.
  unfoldable pub read_config : Before → Option sc.File → Exit Config
  read_config before none = exits
  read_config before (some file) =
      let (head, f) = ints sc file (0 ∷ 0 ∷ 0 ∷ []) in
      let (ram, g) = ints sc f (0 ∷ []) in
      let (sizes, h) = read_sizes paging_max_mmswp g in
      read_entries (rounds (get_or head 2 0)) before 0 h >>= λ entries. done (record {
        time_slot = get_or head 0 0;
        num_cpus = get_or head 1 0;
        num_processes = get_or head 2 0;
        memramsz = get_or ram 0 0;
        memswpsz = sizes;
        entries = entries;
      })

-- The static queues before `init_scheduler`.
abbrev pub static_sched : Sched
static_sched = record {
  mlq_ready_queue =
      replicate max_prio (record { proc = replicate max_queue_size null; size = 0; slot = 0 });
  ready_queue = record { proc = replicate max_queue_size null; size = 0; slot = 0 };
  run_queue = record { proc = replicate max_queue_size null; size = 0; slot = 0 };
}

-- What device `k` is made of, RAM being 0 and swap `i` being `i + 1`: the variable before, what
-- `malloc` gives for a storage of a size, and what a last frame of the list leads to.
pub record Memories : Type 0 where
  pub before : ℕ → Memphy
  pub storage : ℕ → ℕ → List ℕ
  pub garbage : ℕ → List ℕ

abbrev pub make_memphy : Memories → ℕ → ℕ → Memphy
make_memphy m k size = init_memphy (m.garbage k) (m.storage k size) (m.before k) size 1

-- `for (sit = 0; sit < PAGING_MAX_MMSWP; sit++) init_memphy(&mswp[sit], …);` from device `k` on.
unfoldable pub make_swaps : Memories → ℕ → List ℕ → List Memphy
make_swaps m k [] = []
make_swaps m k (size ∷ sizes) = make_memphy m k size ∷ make_swaps m (k + 1) sizes

-- `attach_event` for each CPU, by the rounds left.
unfoldable pub attach_cpus : ℕ → List Device → List Device
attach_cpus zero devices = devices
attach_cpus (suc n) devices = attach_cpus n (attach_event devices)

-- What stands before the loops of the threads: `proc` is NULL and `time_left` is 0.
abbrev pub idle_cpu : CpuState
idle_cpu = record { proc = null; time_left = 0 }

-- What `main` has made when the threads start.
pub record Machine : Type 0 where
  pub threads : Threads
  pub timer : Timer
  pub paths : List String
  pub mswp : List Memphy

unfoldable pub jobs_of : List Entry → List Job
jobs_of [] = []
jobs_of (e ∷ es) = e.job ∷ jobs_of es

unfoldable pub paths_of : List Entry → List String
paths_of [] = []
paths_of (e ∷ es) = e.path ∷ paths_of es

-- `main` behind `read_config`.
unfoldable pub boot : Memories → Config → Machine
boot m c =
    let swaps = make_swaps m 1 c.memswpsz in
    record {
      threads = record {
        os = record {
          sched = init_scheduler static_sched;
          procs = λ p. none;
          devices = record {
            mram = make_memphy m 0 c.memramsz;
            active_mswp = get_or swaps 0 (m.before 1);
          };
          done = false;
        };
        cpus = replicate (rounds c.num_cpus) idle_cpu;
        jobs = jobs_of c.entries;
      };
      timer = start_timer (attach_event (attach_cpus (rounds c.num_cpus) []));
      paths = paths_of c.entries;
      mswp = swaps;
    }

-- `main` on the arguments behind the program's name, up to the start of the threads; `files` gives the
-- files that can be read. `none`: it returns 1.
unfoldable pub main :
    (sc : Scanner)
    → Before
    → Memories
    → (String → Option sc.File)
    → List String
    → Exit (Option Machine)
main sc before m files [] = done none
main sc before m files (arg ∷ []) =
    let path = str_append "input/" arg in
    if ltb path_places (stored path)
    then fault
    else (read_config sc before (files path) >>= λ c. done (some (boot m c)))
main sc before m files (arg ∷ more ∷ args) = done none
