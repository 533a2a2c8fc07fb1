-- ===== src/Pte.antt =====
-- The page table entries and addresses of include/mm.h, and the PTE functions of src/mm.c.
pub mod Laws
pub mod Round
mod Tests
use operating_systems_simula.Prelude.{
  ℕ, ◌-◌, ◌^◌, bit_and, ◌==◌, if◌then◌else◌, ◌*◌, Option, none, some,
}
use operating_systems_simula.Bits.{
  bit, div_round_up, shr, genmask, nbits, set_bit, clr_bit, set_val, get_val,
}

abbrev pub paging_cpu_bus_width : ℕ
paging_cpu_bus_width = 22

abbrev pub paging_pagesz : ℕ
paging_pagesz = 256

abbrev pub paging_max_pgn : ℕ
paging_max_pgn = div_round_up (bit paging_cpu_bus_width) paging_pagesz

abbrev pub paging_pte_present_mask : ℕ
paging_pte_present_mask = bit 31

abbrev pub paging_pte_swapped_mask : ℕ
paging_pte_swapped_mask = bit 30

abbrev pub paging_pte_dirty_mask : ℕ
paging_pte_dirty_mask = bit 28

abbrev pub paging_pte_fpn_mask : ℕ
paging_pte_fpn_mask = genmask 12 0

abbrev pub paging_pte_swptyp_mask : ℕ
paging_pte_swptyp_mask = genmask 4 0

abbrev pub paging_pte_swpoff_mask : ℕ
paging_pte_swpoff_mask = genmask 25 5

-- Not 0 where the page is in RAM.
unfoldable pub paging_page_present : ℕ → ℕ
paging_page_present pte = bit_and pte paging_pte_present_mask

unfoldable pub paging_fpn : ℕ → ℕ
unfolding get_val
paging_fpn pte = get_val pte paging_pte_fpn_mask 0

unfoldable pub paging_swp : ℕ → ℕ
paging_swp pte = shr (bit_and pte paging_pte_swpoff_mask) 5

-- The page number and the offset of an address; the bit positions come from `nbits`.
unfoldable pub paging_offst : ℕ → ℕ
unfolding get_val nbits
paging_offst x = get_val x (genmask (nbits paging_pagesz - 1) 0) 0

unfoldable pub paging_pgn : ℕ → ℕ
unfolding get_val nbits
paging_pgn x =
    get_val x (genmask (paging_cpu_bus_width - 1) (nbits paging_pagesz)) (nbits paging_pagesz)

-- `PAGING_PAGE_ALIGNSZ`, without the wrap of the type that its argument has.
abbrev pub paging_page_alignsz : ℕ → ℕ
paging_page_alignsz sz = div_round_up sz paging_pagesz * paging_pagesz

-- A function that updates `*pte` returns the new entry. `pte_set_swap` and `pte_set_fpn` return 0.
unfoldable pub pte_set_swap : ℕ → ℕ → ℕ → ℕ
pte_set_swap pte swptyp swpoff =
    let cleared = clr_bit pte paging_pte_present_mask in
    let swapped = set_bit cleared paging_pte_swapped_mask in
    let typed = set_val swapped swptyp paging_pte_swptyp_mask 0 in
    set_val typed swpoff paging_pte_swpoff_mask 5

unfoldable pub pte_set_fpn : ℕ → ℕ → ℕ
pte_set_fpn pte fpn =
    let present = set_bit pte paging_pte_present_mask in
    let cleared = clr_bit present paging_pte_swapped_mask in
    set_val cleared fpn paging_pte_fpn_mask 0

-- `none` is the return of -1, which leaves the entry as it was.
unfoldable pub init_pte : ℕ → ℕ → ℕ → ℕ → ℕ → ℕ → ℕ → Option ℕ
init_pte pte pre fpn drt swp swptyp swpoff =
    if pre == 0
    then some pte
    else if swp == 0
    then (if fpn == 0
        then none
        else some (
            set_val
              (clr_bit (clr_bit (set_bit pte paging_pte_present_mask) paging_pte_swapped_mask)
                paging_pte_dirty_mask)
              fpn paging_pte_fpn_mask 0))
    else some (
        set_val
          (set_val
            (clr_bit (set_bit (clr_bit pte paging_pte_present_mask) paging_pte_swapped_mask)
              paging_pte_dirty_mask)
            swptyp paging_pte_swptyp_mask 0)
          swpoff paging_pte_swpoff_mask 5)
