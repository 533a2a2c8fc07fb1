-- ===== src/Vm/Tests.antt =====
-- Small processes, and the theorems on their memory at inputs that meet the hypotheses.
use operating_systems_simula.Prelude.{
  ℕ, zero, suc, ◌+◌, ◌-◌, ◌*◌, ◌%◌, ◌^◌, ◌≡◌, ◌≢◌, ◌≤◌, ◌<◌, refl, true, some, [], ◌∷◌, arith, ◌==◌,
  if◌then◌else◌, length, get_or, set, get_or-replicate, replicate,
}
use operating_systems_simula.Pte.{
  paging_fpn, paging_swp, paging_page_present, paging_max_pgn, paging_pgn,
}
use operating_systems_simula.Memphy.{ok}
use operating_systems_simula.Vm.{VmArea, Mm, Caller, vmap_page_range}
use operating_systems_simula.Vm.Area.{no_region, pgalloc, pgfree_data}
use operating_systems_simula.Vm.Paging.{paging_max_symtbl_sz, pg_getpage}
use operating_systems_simula.Regions.{scan}
use operating_systems_simula.Regions.Count.{within}
use operating_systems_simula.Vm.Transfer.{address, pgread, pgwrite}
use operating_systems_simula.Vm.Owned.{region_of}
use operating_systems_simula.Vm.Map.{Mapped, vmap_page_range-Mapped}
use operating_systems_simula.Vm.Online.{Online, frame, cell_of}
use operating_systems_simula.Vm.Victim.{here}
use operating_systems_simula.Vm.SwapIn.{entry, Ready, SwappedIn, pg_getpage-SwappedIn}
use operating_systems_simula.Vm.Alloc.{Allocated, pgalloc-Allocated}
use operating_systems_simula.Vm.Regular.{
  Regular, new_area, init_mm-Regular, pgalloc-Regular, pgfree_data-Regular,
}
use operating_systems_simula.Vm.Bytes.{Accessible, pgread-pgwrite, pgwrite-past_end}
use operating_systems_simula.Vm.Examples.{
  device, device_size, blank, blank_pages, new_process, grown_area, grown_process, grown-Regular,
}

pgalloc-Regular_example :
    (out : Caller) × (vma' : VmArea) × (pgalloc new_process 300 4 ≡ some out)
    × ((region_of out 4).end ≡ (region_of out 4).start + 300)
    × ((j : ℕ) → 4 ≢ j → region_of out j ≡ region_of new_process j)
    × (vma'.sbrk ≤ (new_area 7).sbrk + 300)
    × Regular out vma' []
pgalloc-Regular_example =
    pgalloc-Regular new_process (new_area 7) [] 4 300
      (init_mm-Regular 7 blank device device blank_pages refl) (omega arith) (omega arith)
      (omega arith)

-- A process with two pages in RAM, in frames 1 and 3.
abbrev online_process : Caller
online_process = record {
  mm = record blank {
    pgd = (2 ^ 31 + 1) ∷ (2 ^ 31 + 3) ∷ [];
    mmap = record (new_area 7) { sbrk = 400; vm_end = 512 } ∷ [];
    symrgtbl =
        record { start = 0; end = 300 }
        ∷ record { start = 300; end = 400 }
        ∷ replicate 28 no_region;
  };
  mram = device;
  active_mswp = device;
}

low-Online : Online online_process 5
unfolding paging_fpn paging_page_present paging_pgn
low-Online = record {
  on_bus = omega arith;
  listed = omega arith;
  is_word = omega arith;
  present = omega arith;
  backed = omega (arith, device_size);
}

high-Online : Online online_process 300
unfolding paging_fpn paging_page_present paging_pgn
high-Online = record {
  on_bus = omega arith;
  listed = omega arith;
  is_word = omega arith;
  present = omega arith;
  backed = omega (arith, device_size);
}

frames_apart : paging_pgn 5 ≢ paging_pgn 300 → frame online_process 5 ≢ frame online_process 300
unfolding paging_fpn paging_pgn
frames_apart h = omega arith

small_table : length online_process.mm.symrgtbl ≡ paging_max_symtbl_sz
small_table = refl

low-Accessible : Accessible online_process.mm 0
low-Accessible = record {
  vma = record (new_area 7) { sbrk = 400; vm_end = 512 };
  more = [];
  first = refl;
  table = small_table;
  listed = omega arith;
  in_order = omega arith;
  on_bus = omega arith;
}

high-Accessible : Accessible online_process.mm 1
high-Accessible = record {
  vma = record (new_area 7) { sbrk = 400; vm_end = 512 };
  more = [];
  first = refl;
  table = small_table;
  listed = omega arith;
  in_order = omega arith;
  on_bus = omega arith;
}

pgread-pgwrite_example :
    (before : ℕ) × (after : Caller) × (pgread 0 9 online_process 1 0 ≡ ok (online_process, before))
    × (pgwrite 0 online_process 65 0 5 ≡ ok after)
    × (pgread 0 9 after 1 0
        ≡ ok (
          after,
          if address online_process.mm 0 5 == address online_process.mm 1 0 then 65 else before,
        ))
pgread-pgwrite_example =
    pgread-pgwrite 0 9 65 online_process 0 5 1 0 (omega arith) low-Accessible (omega arith)
      high-Accessible (omega arith) low-Online high-Online frames_apart

pgwrite-past_end_example :
    (pgwrite 0 online_process 65 0 (300 - 0)
      ≡ ok (record online_process {
        mram = record device { storage = set device.storage (cell_of online_process 300) 65 };
      }))
    × (within 300 0 300 ≡ 0)
pgwrite-past_end_example =
    pgwrite-past_end 0 65 online_process 0 (omega arith) low-Accessible high-Online

-- A process with its page 0 in frame 1 of RAM and its page 1 in frame 0 of swap.
abbrev swapped_process : Caller
swapped_process = record online_process {
  mm = record (online_process.mm) { pgd = (2 ^ 31 + 1) ∷ (2 ^ 30 + 0) ∷ []; fifo_pgn = 0 ∷ [] };
}

swapped-Ready : Ready swapped_process 1 0 2 (3 ∷ [])
unfolding paging_fpn paging_swp paging_page_present
swapped-Ready = record {
  listed = omega arith;
  absent = refl;
  victim = here (omega arith) (omega arith);
  words = (omega arith, omega arith);
  free_frames = refl;
  fresh = omega arith;
  narrow = omega arith;
  random = (omega arith, omega arith);
  ram_frame = omega (arith, device_size);
  swap_frames = (omega (arith, device_size), omega (arith, device_size));
}

pg_getpage-SwappedIn_example :
    (out : Caller) × (fpn : ℕ) × (pg_getpage 0 swapped_process 1 ≡ ok (out, fpn))
    × SwappedIn swapped_process 1 0 2 (3 ∷ []) out
    × (fpn ≡ paging_swp (entry swapped_process 1) % 2 ^ 8 * 2 ^ 5 + entry swapped_process 1 % 2 ^ 5)
pg_getpage-SwappedIn_example = pg_getpage-SwappedIn 0 swapped_process 1 0 2 (3 ∷ []) swapped-Ready

blank_words : (i : ℕ) → get_or blank.pgd i 0 < 2 ^ 32
blank_words i = rw (get_or-replicate {A = ℕ} paging_max_pgn i 0) (omega arith)

low_frames : (i : ℕ) → get_or (2 ∷ 3 ∷ []) i 0 < 2 ^ 13
low_frames zero = omega arith
low_frames (suc zero) = omega arith
low_frames (suc (suc i)) = omega arith

low_swaps : (i : ℕ) → get_or (2 ∷ []) i 0 < 2 ^ 21
low_swaps zero = omega arith
low_swaps (suc i) = omega arith

vmap_page_range-Mapped_example :
    (out : Mm) × (vmap_page_range blank 512 (2 ∷ 3 ∷ []) (2 ∷ []) ≡ some out)
    × Mapped blank (paging_pgn 512) (2 ∷ 3 ∷ []) (2 ∷ []) out
unfolding paging_pgn
vmap_page_range-Mapped_example =
    vmap_page_range-Mapped blank 512 (2 ∷ 3 ∷ []) (2 ∷ []) blank_words low_frames low_swaps
      (omega (arith, blank_pages))

pgfree_data-Regular_example :
    (out : Caller) × (vma' : VmArea) × (pgfree_data 8 [] grown_process 0 ≡ some (true, out))
    × (region_of out 0 ≡ no_region)
    × ((j : ℕ) → 0 ≢ j → region_of out j ≡ region_of grown_process j)
    × Regular out vma' []
unfolding scan
pgfree_data-Regular_example =
    pgfree_data-Regular 8 [] grown_process grown_area [] 0 grown-Regular (omega arith)
      (omega arith, tt) tt

pgalloc-Allocated_example :
    (out : Caller) × (pgalloc grown_process 2000 1 ≡ some out)
    × Allocated grown_process grown_area [] 1 2000 out
pgalloc-Allocated_example =
    pgalloc-Allocated grown_process grown_area [] 1 2000
      (record { first = refl; aligned = omega arith; table = blank_pages }) (omega arith)
      (omega arith) (omega arith) (omega arith, tt)
