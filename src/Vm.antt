-- ===== src/Vm.antt =====
-- src/mm.c: the memory of a process, and how pages are mapped to frames of the devices.
pub mod FindMin
pub mod Delist
pub mod PrintTable
pub mod Examples
pub mod Grant
pub mod Map
pub mod Paging
pub mod Online
pub mod Victim
pub mod Exchange
pub mod SwapIn
pub mod Area
pub mod Grow
pub mod Owned
pub mod Brk
pub mod Alloc
pub mod Free
pub mod Disjoint
pub mod Regular
pub mod Bytes
pub mod Release
mod Tests
pub mod Transfer
use operating_systems_simula.Prelude.{
  ℕ, zero, suc, ◌+◌, ◌-◌, ◌*◌, ◌/◌, ◌%◌, ◌^◌, Bool, true, false, Option, none, some, List, [], ◌∷◌,
  ltb, leb, ◌==◌, if◌then◌else◌, ◌>>=◌, length, get_or, set,
}
use operating_systems_simula.Pte.{pte_set_fpn, pte_set_swap, paging_pgn}
use operating_systems_simula.Memphy.{Memphy, get_freefp, put_usedfp}
use operating_systems_simula.Regions.{VmRg, Region, init_vm_rg, enlist_vm_rg_node}

-- An `unsigned long` difference, and an `unsigned long` that is stored in an `int`.
abbrev pub sub_ulong : ℕ → ℕ → ℕ
sub_ulong a b = (a + 2 ^ 64 - b) % 2 ^ 64

abbrev pub int_of_ulong : ℕ → ℕ
int_of_ulong x = x % 2 ^ 32

-- `struct vm_area_struct`. `vm_mm` is never read.
pub record VmArea : Type 0 where
  pub vm_id : ℕ
  pub vm_start : ℕ
  pub vm_end : ℕ
  pub sbrk : ℕ
  pub vm_freerg_list : List VmRg

-- `struct mm_struct`. `mmap` lists the areas along `vm_next`; `symrgtbl` has 30 places, whose
-- `rg_next` is never read.
pub record Mm : Type 0 where
  pub pgd : List ℕ
  pub mmap : List VmArea
  pub symrgtbl : List Region
  pub fifo_pgn : List ℕ

-- What the memory functions use of the calling `struct pcb_t`, with the two devices behind it.
pub record Caller : Type 0 where
  pub mm : Mm
  pub mram : Memphy
  pub active_mswp : Memphy

-- `before` holds what `malloc` left in the struct, the table of pages and the list of the new area:
-- `pgd`, `symrgtbl` and `fifo_pgn` are not set, and the dummy region goes before that list.
unfoldable pub init_mm : (fresh : ℕ) (garbage : List VmRg) (before : Mm) → Mm
unfolding init_vm_rg enlist_vm_rg_node
init_mm fresh garbage before =
    let vma : VmArea = record {
      vm_id = 1;
      vm_start = 0;
      vm_end = 0;
      sbrk = 0;
      vm_freerg_list = enlist_vm_rg_node garbage (init_vm_rg fresh 0 0);
    } in
    record before { mmap = vma ∷ [] }

unfoldable pub enlist_pgn_node : List ℕ → ℕ → List ℕ
enlist_pgn_node plist pgn = pgn ∷ plist

-- The devices, and the two lists that `alloc_pages_range` builds.
pub record Grab : Type 0 where
  pub mram : Memphy
  pub active_mswp : Memphy
  pub frm_lst : List ℕ
  pub frm_lst_swap : List ℕ

-- `for (pgit = 0; pgit < req_pgnum; pgit++)`, by the rounds left. `false` is the return of -3000;
-- the frames that were taken by then stay taken.
unfoldable pub grab_loop : ℕ → Grab → Bool × Grab
grab_loop zero g = (true, g)
grab_loop (suc n) g = elim (get_freefp g.mram) [
  | some (fpn, mram) ↦
      grab_loop n (record g { mram = put_usedfp mram fpn; frm_lst = fpn ∷ g.frm_lst })
  | none ↦ elim (get_freefp g.active_mswp) [
    | some (fpn, mswp) ↦
        grab_loop n
          (record g { active_mswp = put_usedfp mswp fpn; frm_lst_swap = fpn ∷ g.frm_lst_swap })
    | none ↦ (false, g)
  ]
]

unfoldable pub alloc_pages_range : Memphy → Memphy → ℕ → Bool × Grab
unfolding grab_loop
alloc_pages_range mram mswp req_pgnum =
    grab_loop req_pgnum
      (record { mram = mram; active_mswp = mswp; frm_lst = []; frm_lst_swap = [] })

-- A write of a page table entry; outside the table it is undefined.
abbrev pub put_pte : List ℕ → ℕ → (ℕ → ℕ) → Option (List ℕ)
put_pte pgd pgn f = if ltb pgn (length pgd) then some (set pgd pgn (f (get_or pgd pgn 0))) else none

-- The two loops of `vmap_page_range`, at `page = pgn + pgit`; `set_pte` is what they do to an entry.
-- `pgit` goes up before the page is put in `fifo_pgn`.
unfoldable pub map_loop :
    (ℕ → ℕ → ℕ) → List ℕ → ℕ → List ℕ → List ℕ → Option (ℕ × (List ℕ × List ℕ))
unfolding enlist_pgn_node
map_loop set_pte [] page pgd fifo = some (page, (pgd, fifo))
map_loop set_pte (fpn ∷ frames) page pgd fifo = do
  pgd' ← put_pte pgd page (λ pte. set_pte pte fpn)
  map_loop set_pte frames (page + 1) pgd' (enlist_pgn_node fifo (page + 1))

-- `pgnum` and `ret_rg` are not used.
unfoldable pub vmap_page_range : Mm → ℕ → List ℕ → List ℕ → Option Mm
unfolding map_loop
vmap_page_range mm addr frames frm_lst_swap = do
  (page, (pgd, fifo)) ← map_loop pte_set_fpn frames (paging_pgn addr) mm.pgd mm.fifo_pgn
  (_, (pgd', fifo')) ← map_loop (λ pte fpn. pte_set_swap pte 0 fpn) frm_lst_swap page pgd fifo
  some (record mm { pgd = pgd'; fifo_pgn = fifo' })

-- `false` is the return of -1, with the frames that were taken lost.
unfoldable pub vm_map_ram : Caller → ℕ → ℕ → Option (Bool × Caller)
unfolding alloc_pages_range vmap_page_range
vm_map_ram caller mapstart incpgnum =
    let got = alloc_pages_range caller.mram caller.active_mswp incpgnum in
    let caller' : Caller = record caller { mram = got.1.mram; active_mswp = got.1.active_mswp } in
    elim (got.0) [
      | false ↦ some (false, caller')
      | true ↦
          (vmap_page_range caller.mm mapstart got.1.frm_lst got.1.frm_lst_swap >>= λ mm.
          some (true, record caller' { mm = mm }))
    ]
