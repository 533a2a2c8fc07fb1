-- ===== src/Vm/Transfer.antt =====
-- src/mm-vm.c: reading and writing a byte of a region, and giving the frames of a process back.
use operating_systems_simula.Prelude.{
  ℕ, zero, suc, ◌+◌, Option, none, some, ltb, ◌==◌, if◌then◌else◌, length, get_or,
}
use operating_systems_simula.Pte.{paging_fpn, paging_swp, paging_page_present, paging_max_pgn}
use operating_systems_simula.Memphy.{Outcome, ok, failed, fault, put_freefp}
use operating_systems_simula.Regions.{add_ulong, ulong_of_int}
use operating_systems_simula.Vm.{Mm, Caller, sub_ulong, int_of_ulong}
use operating_systems_simula.Vm.Paging.{get_vma_by_num, get_symrg_byid, pg_getval, pg_setval}
use operating_systems_simula.Vm.Area.{no_region}

-- `currg->rg_start + offset`, as the `int` that it is passed as.
abbrev pub address : Mm → ℕ → ℕ → ℕ
address mm place offset =
    int_of_ulong (add_ulong (get_or mm.symrgtbl place no_region).start (ulong_of_int offset))

-- `__read`: the caller after it and `*data`, which is `old` before. `failed` is the return of -1; what
-- `pg_getval` returns is not looked at.
unfoldable pub read : ℕ → Caller → ℕ → ℕ → ℕ → ℕ → Outcome (Caller × ℕ)
read garbage caller vmaid rgid offset old = elim (get_symrg_byid rgid) [
  | none ↦ failed
  | some place ↦ elim (get_vma_by_num caller.mm vmaid) [
    | none ↦ failed
    | some _ ↦
        if ltb place (length caller.mm.symrgtbl)
        then elim (pg_getval garbage caller (address caller.mm place offset) old) [
          | ok out ↦ ok out
          | failed ↦ ok (caller, old)
          | fault ↦ fault
        ]
        else fault
  ]
]

-- `__write`
unfoldable pub write : ℕ → Caller → ℕ → ℕ → ℕ → ℕ → Outcome Caller
write garbage caller vmaid rgid offset value = elim (get_symrg_byid rgid) [
  | none ↦ failed
  | some place ↦ elim (get_vma_by_num caller.mm vmaid) [
    | none ↦ failed
    | some _ ↦
        if ltb place (length caller.mm.symrgtbl)
        then elim (pg_setval garbage caller (address caller.mm place offset) value) [
          | ok out ↦ ok out
          | failed ↦ ok caller
          | fault ↦ fault
        ]
        else fault
  ]
]

-- `int size_rg = rg_end - rg_start`, which the comparison with `offset` reads as an unsigned word.
abbrev pub size_rg : Mm → ℕ → ℕ
size_rg mm place =
    let rg = get_or mm.symrgtbl place no_region in int_of_ulong (sub_ulong rg.end rg.start)

-- The caller after the call and the byte that was read, which the code only prints. `data` is what
-- the variable holds on the stack.
unfoldable pub pgread : ℕ → ℕ → Caller → ℕ → ℕ → Outcome (Caller × ℕ)
pgread garbage stack proc source offset =
    if ltb source (length proc.mm.symrgtbl)
    then (if ltb (size_rg proc.mm source) offset
        then failed
        else read garbage proc 0 source offset stack)
    else fault

unfoldable pub pgwrite : ℕ → Caller → ℕ → ℕ → ℕ → Outcome Caller
pgwrite garbage proc byte destination offset =
    if ltb destination (length proc.mm.symrgtbl)
    then (if ltb (size_rg proc.mm destination) offset
        then failed
        else write garbage proc 0 destination offset byte)
    else fault

-- `for (pagenum = 0; pagenum < PAGING_MAX_PGN; pagenum++)`, by the rounds left. The return is 0;
-- `none` is a read behind the page table.
unfoldable pub release_loop : ℕ → ℕ → Caller → Option Caller
release_loop zero pagenum caller = some caller
release_loop (suc n) pagenum caller =
    let pte : ℕ = get_or caller.mm.pgd pagenum 0 in
    let released : Caller =
      if paging_page_present pte == 0
      then record caller { mram = put_freefp caller.mram (paging_fpn pte) }
      else record caller { active_mswp = put_freefp caller.active_mswp (paging_swp pte) } in
    let rest = release_loop n (pagenum + 1) released in
    if ltb pagenum (length caller.mm.pgd) then rest else none

unfoldable pub free_pcb_memph : Caller → Option Caller
unfolding release_loop
free_pcb_memph caller = release_loop paging_max_pgn 0 caller
