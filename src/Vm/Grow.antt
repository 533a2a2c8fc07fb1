-- ===== src/Vm/Grow.antt =====
-- `vm_map_ram` and `inc_vma_limit`: how the limits of an area move, and when frames run out.
use operating_systems_simula.Prelude.{
  ℕ, ◌+◌, ◌-◌, ◌*◌, ◌/◌, ◌^◌, ◌≤◌, ◌<◌, ◌≡◌, ◌≢◌, refl, sym, ◌∙◌, ap, Bool, true, false, some, List,
  ◌∷◌, arith, leb, lt→ltb, length, Bool-cases, inl, inr,
}
use operating_systems_simula.Pte.{paging_max_pgn, paging_pgn, pte_set_fpn, pte_set_swap}
use operating_systems_simula.Pte.Laws.{paging_pgn_lem}
use operating_systems_simula.Memphy.Frames.{range}
use operating_systems_simula.Regions.{add_ulong, ulong_of_int}
use operating_systems_simula.Vm.{
  VmArea, Mm, Caller, sub_ulong, int_of_ulong, alloc_pages_range, vmap_page_range, vm_map_ram,
}
use operating_systems_simula.Vm.Grant.{back_onto, alloc_pages_range-Granted}
use operating_systems_simula.Vm.Map.{map_loop-Stretch}
use operating_systems_simula.Vm.Paging.{vma_walk, get_vma_by_num}
use operating_systems_simula.Vm.Area.{
  align_ulong, put_first, put_vma, page_rounds, inc_vma_limit, get_vm_area_node_at_brk,
  validate_overlap_vm_area,
}

-- How many pages hold the first `n` bytes.
abbrev pub pages_up : ℕ → ℕ
pages_up n = (n + 255) / 256

-- The free frames of both devices.
abbrev pub free_frames : Caller → ℕ
free_frames caller = length caller.mram.free_fp_list + length caller.active_mswp.free_fp_list

-- What `vm_map_ram` keeps: all but the page table and the list of its pages, and those too where it
-- fails. It fails where the devices have fewer than `n` free frames.
pub record MapsRam (caller : Caller) (n : ℕ) (code : Bool) (out : Caller) : Type 0 where
  pub enough : code ≡ leb n (free_frames caller)
  pub mmap : out.mm.mmap ≡ caller.mm.mmap
  pub symrgtbl : out.mm.symrgtbl ≡ caller.mm.symrgtbl
  pub size : length out.mm.pgd ≡ length caller.mm.pgd
  pub unmapped : code ≡ false → out.mm ≡ caller.mm

vmap_page_range-some :
    (mm : Mm) (addr : ℕ) (frames swaps : List ℕ)
    → paging_pgn addr + length frames + length swaps ≤ length mm.pgd
    → (pgd : List ℕ) × (fifo : List ℕ) × (vmap_page_range mm addr frames swaps
        ≡ some (record mm { pgd = pgd; fifo_pgn = fifo }))
      × (length pgd ≡ length mm.pgd)
unfolding vmap_page_range
vmap_page_range-some mm addr frames swaps room =
    let behind : ℕ = paging_pgn addr + length frames in
    let listed : List ℕ = back_onto (range (paging_pgn addr + 1) (length frames)) mm.fifo_pgn in
    let (pgd, e, s) =
      map_loop-Stretch pte_set_fpn frames (paging_pgn addr) mm.pgd mm.fifo_pgn (omega arith) in
    let (pgd', e', s') =
      map_loop-Stretch (λ pte fpn. pte_set_swap pte 0 fpn) swaps behind pgd listed
        (omega (arith, s.size)) in
    (
      pgd',
      back_onto (range (behind + 1) (length swaps)) listed,
      rw e (rw e' refl),
      s'.size ∙ s.size,
    )

pub vm_map_ram-MapsRam :
    (caller : Caller) (mapstart n : ℕ)
    → paging_pgn mapstart + n ≤ length caller.mm.pgd
    → (code : Bool) × (out : Caller) × (vm_map_ram caller mapstart n ≡ some (code, out))
      × MapsRam caller n code out
unfolding vm_map_ram
vm_map_ram-MapsRam caller mapstart n room =
    let got = alloc_pages_range caller.mram caller.active_mswp n in
    let g = alloc_pages_range-Granted caller.mram caller.active_mswp n in
    let devices : Caller = record caller { mram = got.1.mram; active_mswp = got.1.active_mswp } in
    elim (Bool-cases got.0) [
      | inl all ↦
          let (pgd, fifo, e, size) =
            vmap_page_range-some caller.mm mapstart got.1.frm_lst got.1.frm_lst_swap
              (omega (arith, g.all all)) in
          (
            true,
            record devices { mm = record (caller.mm) { pgd = pgd; fifo_pgn = fifo } },
            rw (all, vm_map_ram) (rw e refl),
            record {
              enough = sym all ∙ g.enough;
              mmap = refl;
              symrgtbl = refl;
              size = size;
              unmapped = λ c. absurd (true_ne c);
            },
          )
      | inr short ↦ (
        false,
        devices,
        rw (short, vm_map_ram) refl,
        record {
          enough = sym short ∙ g.enough;
          mmap = refl;
          symrgtbl = refl;
          size = refl;
          unmapped = λ c. refl;
        },
      )
    ]
  where
    true_ne : true ≢ false
    true_ne e = cc

pub align_ulong_lem : (n : ℕ) → n ≤ 2 ^ 22 → align_ulong n ≡ pages_up n * 256
align_ulong_lem n h = omega arith

pub ulong_of_int_lem : (n : ℕ) → n < 2 ^ 31 → ulong_of_int n ≡ n
ulong_of_int_lem n h = rw (lt→ltb n (2 ^ 31) h) refl

pub get_vma_by_num-first :
    (mm : Mm) (vma : VmArea) (more : List VmArea)
    → mm.mmap ≡ vma ∷ more
    → get_vma_by_num mm 0 ≡ some vma
unfolding get_vma_by_num
get_vma_by_num-first mm vma more e = ap (vma_walk 0) e

pub put_first-cons :
    (vma first : VmArea) (more areas : List VmArea)
    → areas ≡ first ∷ more
    → put_first vma areas ≡ vma ∷ more
put_first-cons vma first more areas e = ap (put_first vma) e

-- The first area of the process with its pages: `vm_end` is `sbrk` rounded up to whole pages.
pub record Area (caller : Caller) (vma : VmArea) (more : List VmArea) : Type 0 where
  pub first : caller.mm.mmap ≡ vma ∷ more
  pub aligned : vma.vm_end ≡ pages_up vma.sbrk * 256
  pub table : length caller.mm.pgd ≡ paging_max_pgn

abbrev pub grown_area : VmArea → ℕ → VmArea
grown_area vma size = record vma {
  sbrk = vma.sbrk + size;
  vm_end = pages_up (vma.sbrk + size) * 256;
}

-- The pages that `size` more bytes behind a break at `brk` need.
abbrev pub new_pages : ℕ → ℕ → ℕ
new_pages brk size = pages_up (brk + size) - pages_up brk

-- `inc_amt`, as the code computes it.
abbrev amount : ℕ → ℕ → ℕ
amount brk size =
    int_of_ulong (sub_ulong (align_ulong (add_ulong (ulong_of_int size) brk)) (align_ulong brk))

-- The numbers that `inc_vma_limit` computes, on a bus of 22 bits.
module _ (brk size : ℕ) (fits : brk + size ≤ 2 ^ 22) where
  int_size : ulong_of_int size ≡ size
  int_size = ulong_of_int_lem size (omega arith)

  amount_lem : amount brk size ≡ new_pages brk size * 256
  amount_lem = rw int_size (omega arith)

  sbrk_lem : add_ulong brk (ulong_of_int size) ≡ brk + size
  sbrk_lem = rw int_size (omega arith)

  end_lem :
      (end : ℕ)
      → end ≡ pages_up brk * 256
      → add_ulong end (ulong_of_int (amount brk size)) ≡ pages_up (brk + size) * 256
  end_lem end e =
      let small : new_pages brk size * 256 < 2 ^ 31 = omega arith in
      rw (amount_lem, ulong_of_int_lem (new_pages brk size * 256) small) (omega arith)

  rounds_lem : page_rounds (amount brk size) ≡ new_pages brk size
  rounds_lem =
      let small : new_pages brk size * 256 < 2 ^ 31 = omega arith in
      rw (amount_lem, lt→ltb (new_pages brk size * 256) (2 ^ 31) small) (omega arith)

-- From `caller` to `out` the first area grew by `size` bytes; its new pages were mapped if `ok` is
-- `true`, which is where there were enough free frames. Else no page table entry changed.
pub record Grown (caller : Caller) (vma : VmArea) (more : List VmArea) (size : ℕ) (ok : Bool)
    (out : Caller) : Type 0 where
  pub area : Area out (grown_area vma size) more
  pub symrgtbl : out.mm.symrgtbl ≡ caller.mm.symrgtbl
  pub enough : ok ≡ leb (new_pages vma.sbrk size) (free_frames caller)
  pub unmapped : ok ≡ false → out.mm.pgd ≡ caller.mm.pgd

module _ (caller : Caller) (vma : VmArea) (more : List VmArea) (a : Area caller vma more) (size : ℕ)
    (fits : vma.sbrk + size ≤ 2 ^ 22) where
  inc_vma_limit-map :
      inc_vma_limit caller 0 size
      ≡ vm_map_ram (put_vma caller (grown_area vma size)) vma.vm_end (new_pages vma.sbrk size)
  unfolding inc_vma_limit get_vm_area_node_at_brk validate_overlap_vm_area
  inc_vma_limit-map =
      let p = sbrk_lem vma.sbrk size fits in
      let q = end_lem vma.sbrk size fits vma.vm_end a.aligned in
      let r : int_of_ulong vma.vm_end ≡ vma.vm_end = omega (arith, a.aligned) in
      let s = rounds_lem vma.sbrk size fits in
      rw (get_vma_by_num-first caller.mm vma more a.first, inc_vma_limit)
        (λ i. vm_map_ram (put_vma caller (record vma { sbrk = p i; vm_end = q i })) (r i) (s i))

  room : paging_pgn vma.vm_end + new_pages vma.sbrk size ≤ length caller.mm.pgd
  room = omega (arith, a.aligned, a.table, paging_pgn_lem vma.vm_end (omega (arith, a.aligned)))

  -- `inc_vma_limit` ends well on a bus of 22 bits, and moves the break and the end of the area also
  -- where it returns -1 for want of frames.
  pub inc_vma_limit-Grown :
      (ok : Bool) × (out : Caller) × (inc_vma_limit caller 0 size ≡ some (ok, out))
      × Grown caller vma more size ok out
  inc_vma_limit-Grown =
      let (ok, out, e, m) =
        vm_map_ram-MapsRam (put_vma caller (grown_area vma size)) vma.vm_end
          (new_pages vma.sbrk size) room in
      (
        ok,
        out,
        inc_vma_limit-map ∙ e,
        record {
          area = record {
            first = m.mmap ∙ put_first-cons (grown_area vma size) vma more caller.mm.mmap a.first;
            aligned = refl;
            table = m.size ∙ a.table;
          };
          symrgtbl = m.symrgtbl;
          enough = m.enough;
          unmapped = λ c. ap (λ mm. mm.pgd) (m.unmapped c);
        },
      )
