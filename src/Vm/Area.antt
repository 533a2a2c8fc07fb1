-- ===== src/Vm/Area.antt =====
-- src/mm-vm.c: the areas of a process, and how regions of them are allocated and freed.
use operating_systems_simula.Prelude.{
  ℕ, ◌+◌, ◌-◌, ◌*◌, ◌/◌, ◌^◌, Bool, true, false, ◌||◌, Option, none, some, List, [], ◌∷◌, ltb, ◌==◌,
  if◌then◌else◌, ◌>>=◌, length, get_or, set,
}
use operating_systems_simula.Pte.{paging_pagesz}
use operating_systems_simula.Regions.{
  VmRg, Region, add_ulong, ulong_of_int, get_free_vmrg_area, enlist_vm_freerg_list,
}
use operating_systems_simula.Vm.{VmArea, Mm, Caller, sub_ulong, int_of_ulong, vm_map_ram}
use operating_systems_simula.Vm.Paging.{get_vma_by_num, get_symrg_byid}

-- `PAGING_PAGE_ALIGNSZ` of an `unsigned long`.
abbrev pub align_ulong : ℕ → ℕ
align_ulong sz = add_ulong sz (paging_pagesz - 1) / paging_pagesz * paging_pagesz

-- `get_vma_by_num` gives the first area or NULL: a change through its pointer is one to the first.
abbrev pub put_first : VmArea → List VmArea → List VmArea
put_first vma [] = []
put_first vma (first ∷ rest) = vma ∷ rest

abbrev pub put_vma : Caller → VmArea → Caller
put_vma caller vma = record caller {
  mm = record (caller.mm) { mmap = put_first vma caller.mm.mmap };
}

-- `symrgtbl[rgid]`; outside the table it is undefined.
abbrev pub no_region : Region
no_region = record { start = 0; end = 0 }

abbrev pub get_symrg : Caller → ℕ → Option Region
get_symrg caller rgid =
    if ltb rgid (length caller.mm.symrgtbl)
    then some (get_or caller.mm.symrgtbl rgid no_region)
    else none

abbrev pub put_symrg : Caller → ℕ → Region → Option Caller
put_symrg caller rgid rg =
    if ltb rgid (length caller.mm.symrgtbl)
    then some
        (record caller { mm = record (caller.mm) { symrgtbl = set caller.mm.symrgtbl rgid rg } })
    else none

-- The new region and the area with its break moved up. `alignedsz` is not used.
unfoldable pub get_vm_area_node_at_brk : VmArea → ℕ → Region × VmArea
get_vm_area_node_at_brk cur_vma size =
    let top = add_ulong cur_vma.sbrk (ulong_of_int size) in
    (record { start = cur_vma.sbrk; end = top }, record cur_vma { sbrk = top })

-- It returns 0 for all arguments.
unfoldable pub validate_overlap_vm_area : Mm → ℕ → ℕ → ℕ → Bool
validate_overlap_vm_area mm vmaid vmastart vmaend = true

-- `inc_amt / PAGING_PAGESZ` as the number of rounds that it gives: a negative `int` gives none.
abbrev pub page_rounds : ℕ → ℕ
page_rounds inc_amt = if ltb inc_amt (2 ^ 31) then inc_amt / paging_pagesz else 0

-- `false` is the return of -1.
unfoldable pub inc_vma_limit : Caller → ℕ → ℕ → Option (Bool × Caller)
inc_vma_limit caller vmaid origin_size = do
  cur_vma ← get_vma_by_num caller.mm vmaid
  let grown = add_ulong (ulong_of_int origin_size) cur_vma.sbrk
  let inc_amt = int_of_ulong (sub_ulong (align_ulong grown) (align_ulong cur_vma.sbrk))
  let incnumpage = page_rounds inc_amt
  let area = (get_vm_area_node_at_brk cur_vma origin_size).0
  let moved = (get_vm_area_node_at_brk cur_vma origin_size).1
  let old_end = int_of_ulong cur_vma.vm_end
  let ended : VmArea = record moved { vm_end = add_ulong cur_vma.vm_end (ulong_of_int inc_amt) }
  if validate_overlap_vm_area caller.mm vmaid area.start area.end
      then vm_map_ram (put_vma caller ended) old_end incnumpage
      else some (false, put_vma caller moved)

-- The region from `old_sbrk` to `old_sbrk + size`, which is an `int` sum, with its wrap.
abbrev pub brk_region : ℕ → ℕ → Region
brk_region old_sbrk size = record {
  start = ulong_of_int old_sbrk;
  end = ulong_of_int (int_of_ulong (old_sbrk + size));
}

-- The new region does not fit in the current page.
abbrev pub exceeds : VmArea → ℕ → Bool
exceeds cur_vma size =
    ltb (align_ulong cur_vma.sbrk) (add_ulong (ulong_of_int size) cur_vma.sbrk)
    || cur_vma.sbrk == cur_vma.vm_end

-- The result of `inc_vma_limit` is not looked at.
unfoldable pub move_brk : Caller → ℕ → VmArea → ℕ → Option Caller
move_brk caller vmaid cur_vma size =
    if exceeds cur_vma size
    then (inc_vma_limit caller vmaid size >>= λ (_, grown). some grown)
    else some
        (put_vma caller (record cur_vma { sbrk = add_ulong cur_vma.sbrk (ulong_of_int size) }))

-- The part of `__alloc` behind the search of the free list.
unfoldable pub alloc_at_brk : Caller → ℕ → ℕ → ℕ → Option Caller
alloc_at_brk caller vmaid rgid size = do
  cur_vma ← get_vma_by_num caller.mm vmaid
  caller' ← move_brk caller vmaid cur_vma size
  put_symrg caller' rgid (brk_region (int_of_ulong cur_vma.sbrk) size)

-- What follows the search of the free list, whose result is the last argument.
unfoldable pub place_region :
    Caller → VmArea → ℕ → ℕ → ℕ → Option Region × List VmRg → Option Caller
place_region caller cur_vma vmaid rgid size (some found, rgs) =
    put_symrg (put_vma caller (record cur_vma { vm_freerg_list = rgs })) rgid found
place_region caller cur_vma vmaid rgid size (none, rgs) =
    alloc_at_brk (put_vma caller (record cur_vma { vm_freerg_list = rgs })) vmaid rgid size

-- `__alloc`: it returns 0 for all arguments; `*alloc_addr` is read by no caller.
unfoldable pub alloc : Caller → ℕ → ℕ → ℕ → Option Caller
alloc caller vmaid rgid size = do
  cur_vma ← get_vma_by_num caller.mm vmaid
  place_region caller cur_vma vmaid rgid size (get_free_vmrg_area cur_vma.vm_freerg_list size)

-- `__free`: `false` is the return of -1. `fresh` and `garbage` are what `malloc` gives for a new node
-- of the free list. The result of `enlist_vm_freerg_list` is not looked at.
unfoldable pub free : ℕ → List VmRg → Caller → ℕ → Option (Bool × Caller)
free fresh garbage caller rgid = elim (get_symrg_byid rgid) [
  | none ↦ some (false, caller)
  | some place ↦ do
    rgnode ← get_symrg caller place
    cur_vma ← get_vma_by_num caller.mm 0
    (_, rgs) ← enlist_vm_freerg_list fresh garbage cur_vma.vm_freerg_list rgnode
    caller' ← put_symrg (put_vma caller (record cur_vma { vm_freerg_list = rgs })) place no_region
    some (true, caller')
]

unfoldable pub pgalloc : Caller → ℕ → ℕ → Option Caller
pgalloc proc size reg_index = alloc proc 0 reg_index size

unfoldable pub pgfree_data : ℕ → List VmRg → Caller → ℕ → Option (Bool × Caller)
pgfree_data fresh garbage proc reg_index = free fresh garbage proc reg_index
