-- ===== src/Vm/Examples.antt =====
-- Small processes, for the tests.
use operating_systems_simula.Prelude.{
  ℕ, ◌≡◌, ◌≤◌, refl, [], ◌∷◌, arith, length, replicate, length-replicate,
}
use operating_systems_simula.Pte.{paging_max_pgn}
use operating_systems_simula.Memphy.{Memphy}
use operating_systems_simula.Vm.{VmArea, Mm, Caller, init_mm}
use operating_systems_simula.Vm.Area.{no_region}
use operating_systems_simula.Vm.Paging.{paging_max_symtbl_sz}
use operating_systems_simula.Regions.Count.{within, count}
use operating_systems_simula.Regions.Shape.{cons-ne-nil}
use operating_systems_simula.Vm.Owned.{held}
use operating_systems_simula.Vm.Regular.{Regular, new_area, held-replicate}

-- A random access device of four pages, two of them free.
abbrev pub device : Memphy
device = record {
  storage = replicate 1024 0;
  maxsz = 1024;
  rdmflg = 1;
  cursor = 0;
  free_fp_list = 2 ∷ 3 ∷ [];
  used_fp_list = 1 ∷ [];
}

pub device_size : length device.storage ≡ 1024
device_size = length-replicate {A = ℕ} 1024 0

abbrev pub blank : Mm
blank = record {
  pgd = replicate paging_max_pgn 0;
  mmap = [];
  symrgtbl = replicate paging_max_symtbl_sz no_region;
  fifo_pgn = [];
}

pub blank_pages : length blank.pgd ≡ paging_max_pgn
blank_pages = length-replicate {A = ℕ} paging_max_pgn 0

abbrev pub new_process : Caller
new_process = record { mm = init_mm 7 [] blank; mram = device; active_mswp = device }

-- A process whose region 0 holds the bytes from 0 to 300.
abbrev pub grown_area : VmArea
grown_area = record (new_area 7) { sbrk = 300; vm_end = 512 }

abbrev pub grown_process : Caller
grown_process = record new_process {
  mm = record blank {
    mmap = grown_area ∷ [];
    symrgtbl = record { start = 0; end = 300 } ∷ replicate 29 no_region;
  };
}

pub grown-Regular : Regular grown_process grown_area []
unfolding count held
grown-Regular = record {
  area = record { first = refl; aligned = omega arith; table = blank_pages };
  table = refl;
  on_bus = omega arith;
  shape = record {
    distinct = (tt, tt);
    ordered = (omega arith, tt);
    below = (omega arith, tt);
    nonempty = λ e. cons-ne-nil _ _ e;
  };
  disjoint = record {
    apart = λ x. omega (arith, held-replicate x 29, nothing x, at_most_once x);
    below = λ x h. omega (arith, held-replicate x 29, nothing x, none_behind x h);
  };
}
  where
    nothing : (x : ℕ) → within x 0 0 ≡ 0
    nothing x = ground arith

    at_most_once : (x : ℕ) → within x 0 300 ≤ 1
    at_most_once x = ground arith

    none_behind : (x : ℕ) → 300 ≤ x → within x 0 300 ≡ 0
    none_behind x h = ground arith
