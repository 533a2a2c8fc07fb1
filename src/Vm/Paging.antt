-- ===== src/Vm/Paging.antt =====
-- src/mm-vm.c: page replacement, and reading and writing the memory of a process.
use operating_systems_simula.Prelude.{
  ℕ, ◌+◌, ◌^◌, ◌&&◌, Option, none, some, List, [], ◌∷◌, ltb, ◌==◌, if◌then◌else◌, length, get_or,
  set,
}
use operating_systems_simula.Bits.{shl, nbits}
use operating_systems_simula.Pte.{
  pte_set_fpn, pte_set_swap, paging_fpn, paging_swp, paging_page_present, paging_pgn, paging_offst,
  paging_pagesz,
}
use operating_systems_simula.Memphy.{
  Memphy, Outcome, ok, failed, fault, get_freefp, memphy_read, memphy_write,
}
use operating_systems_simula.Memphy.Copy.{swap_cp_page}
use operating_systems_simula.Vm.{VmArea, Mm, Caller, enlist_pgn_node}

abbrev pub paging_max_symtbl_sz : ℕ
paging_max_symtbl_sz = 30

-- `get_vma_by_num`. The loop never moves `vmait`, so that it runs to the end of the list unless
-- `vmaid` is 0 or below (an `int` from 2 ^ 31 on).
unfoldable pub vma_walk : ℕ → List VmArea → Option VmArea
vma_walk vmaid [] = none
vma_walk vmaid (pvma ∷ rest) = if ltb 0 vmaid then vma_walk vmaid rest else some pvma

unfoldable pub get_vma_by_num : Mm → ℕ → Option VmArea
unfolding vma_walk
get_vma_by_num mm vmaid = vma_walk (if ltb vmaid (2 ^ 31) then vmaid else 0) mm.mmap

-- The place of the region in `symrgtbl`, or NULL. The place `paging_max_symtbl_sz` is let through.
unfoldable pub get_symrg_byid : ℕ → Option ℕ
get_symrg_byid rgid =
    if ltb rgid (2 ^ 31) && ltb rgid (paging_max_symtbl_sz + 1) then some rgid else none

-- The first page of the list that is present. A page number outside the table is a read out of range.
unfoldable pub find_victim_page : List ℕ → List ℕ → Outcome ℕ
find_victim_page pgd [] = failed
find_victim_page pgd (pgn ∷ rest) =
    let later = find_victim_page pgd rest in
    if ltb pgn (length pgd)
    then (if paging_page_present (get_or pgd pgn 0) == 0 then later else ok pgn)
    else fault

-- The result of `MEMPHY_get_freefp` is not looked at: with no free frame in swap, `swpfpn` is what
-- was on the stack, `garbage`.
abbrev pub swap_frame : ℕ → Memphy → ℕ × Memphy
swap_frame garbage mswp = elim (get_freefp mswp) [ none ↦ (garbage, mswp) | some got ↦ got ]

-- The page table after the victim went to `swpfpn` and the page took its frame.
abbrev pub exchange : List ℕ → ℕ → ℕ → ℕ → ℕ → List ℕ
exchange pgd pgn vicpgn vicfpn swpfpn =
    let pgd' = set pgd vicpgn (pte_set_swap (get_or pgd vicpgn 0) 0 swpfpn) in
    set pgd' pgn (pte_set_fpn (get_or pgd' pgn 0) vicfpn)

-- The two copies and what follows them, with the victim and the free frame of swap that were found;
-- `pte` is the entry as it was read at the start.
unfoldable pub swap_pages : Caller → ℕ → ℕ → ℕ → ℕ × Memphy → Outcome (Caller × ℕ)
unfolding enlist_pgn_node
swap_pages caller pgn pte vicpgn (swpfpn, mswp) =
    let mm : Mm = caller.mm in
    let vicfpn : ℕ = paging_fpn (get_or mm.pgd vicpgn 0) in
    elim (swap_cp_page caller.mram vicfpn mswp swpfpn) [
      | ok (mram1, mswp1) ↦ elim (swap_cp_page mswp1 (paging_swp pte) mram1 vicfpn) [
        | ok (mswp2, mram2) ↦ ok (
          record {
            mm = record mm {
              pgd = exchange mm.pgd pgn vicpgn vicfpn swpfpn;
              fifo_pgn = enlist_pgn_node mm.fifo_pgn pgn;
            };
            mram = mram2;
            active_mswp = mswp2;
          },
          paging_fpn pte,
        )
        | failed ↦ failed
        | fault ↦ fault
      ]
      | failed ↦ failed
      | fault ↦ fault
    ]

-- The caller after the call and `*fpn`; `failed` is the return of -1.
unfoldable pub pg_getpage : ℕ → Caller → ℕ → Outcome (Caller × ℕ)
pg_getpage garbage caller pgn =
    let pte : ℕ = get_or caller.mm.pgd pgn 0 in
    if ltb pgn (length caller.mm.pgd)
    then (if paging_page_present pte == 0
        then elim (find_victim_page caller.mm.pgd caller.mm.fifo_pgn) [
          | ok vicpgn ↦ swap_pages caller pgn pte vicpgn (swap_frame garbage caller.active_mswp)
          | failed ↦ failed
          | fault ↦ fault
        ]
        else ok (caller, paging_fpn pte))
    else fault

-- `(fpn << PAGING_ADDR_FPN_LOBIT) + off`
abbrev pub phyaddr : ℕ → ℕ → ℕ
phyaddr fpn addr = shl fpn (nbits paging_pagesz) + paging_offst addr

-- `old` is what `*data` holds before; a read that fails leaves it, and is not looked at.
unfoldable pub pg_getval : ℕ → Caller → ℕ → ℕ → Outcome (Caller × ℕ)
pg_getval garbage caller addr old = elim (pg_getpage garbage caller (paging_pgn addr)) [
  | ok (caller', fpn) ↦ elim (memphy_read caller'.mram (phyaddr fpn addr)) [
    | ok (mram, value) ↦ ok (record caller' { mram = mram }, value)
    | failed ↦ ok (caller', old)
    | fault ↦ fault
  ]
  | failed ↦ failed
  | fault ↦ fault
]

unfoldable pub pg_setval : ℕ → Caller → ℕ → ℕ → Outcome Caller
pg_setval garbage caller addr value = elim (pg_getpage garbage caller (paging_pgn addr)) [
  | ok (caller', fpn) ↦ elim (memphy_write caller'.mram (phyaddr fpn addr) value) [
    | ok mram ↦ ok (record caller' { mram = mram })
    | failed ↦ ok caller'
    | fault ↦ fault
  ]
  | failed ↦ failed
  | fault ↦ fault
]
