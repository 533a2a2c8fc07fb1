-- ===== src/Pte/Round.antt =====
-- What is written into a page table entry is read back, and how addresses are taken apart.
use operating_systems_simula.Prelude.{
  ℕ, ◌+◌, ◌*◌, ◌/◌, ◌%◌, ◌^◌, ◌<◌, ◌≡◌, ◌≢◌, some, none, arith, ◌==◌, if◌then◌else◌,
}
use operating_systems_simula.Bits.{clr_bit}
use operating_systems_simula.Pte.{
  paging_page_present, paging_fpn, paging_swp, paging_offst, paging_pgn, pte_set_swap, pte_set_fpn,
  init_pte, paging_pte_dirty_mask, paging_pagesz, paging_max_pgn,
}
use operating_systems_simula.Pte.Laws.{
  paging_page_present_lem, paging_fpn_lem, paging_swp_lem, paging_offst_lem, paging_pgn_lem,
  pte_set_fpn_lem, pte_set_swap_lem, init_online, init_swapped,
}

-- After `pte_set_fpn` the entry is a 32-bit word that reads as present, with the frame number that
-- was stored, if that has at most 13 bits; the bits 13 to 29 are those of the old entry.
pub pte_set_fpn-reads :
    (pte fpn : ℕ)
    → pte < 2 ^ 32
    → fpn < 2 ^ 13
    → (paging_page_present (pte_set_fpn pte fpn) ≢ 0)
      × (paging_fpn (pte_set_fpn pte fpn) ≡ fpn)
      × (pte_set_fpn pte fpn / 2 ^ 13 % 2 ^ 17 ≡ pte / 2 ^ 13 % 2 ^ 17)
      × (pte_set_fpn pte fpn < 2 ^ 32)
pte_set_fpn-reads pte fpn h k =
    let r : ℕ = pte_set_fpn pte fpn in
    let e : r ≡ 2 ^ 31 + pte / 2 ^ 13 % 2 ^ 17 * 2 ^ 13 + fpn % 2 ^ 13 =
      pte_set_fpn_lem pte fpn h in
    let fits : r < 2 ^ 32 = omega arith in
    omega (arith, paging_page_present_lem r fits, paging_fpn_lem r fits)

-- After `pte_set_swap` the entry is a 32-bit word that reads as not present, with the swap offset
-- that was stored, if that has at most 21 bits; the bits 26 to 29 are those of the old entry.
pub pte_set_swap-reads :
    (pte typ off : ℕ)
    → pte < 2 ^ 32
    → off < 2 ^ 21
    → (paging_page_present (pte_set_swap pte typ off) ≡ 0)
      × (paging_swp (pte_set_swap pte typ off) ≡ off)
      × (pte_set_swap pte typ off / 2 ^ 26 % 2 ^ 4 ≡ pte / 2 ^ 26 % 2 ^ 4)
      × (pte_set_swap pte typ off < 2 ^ 32)
pte_set_swap-reads pte typ off h k =
    let r : ℕ = pte_set_swap pte typ off in
    let e : r ≡ 2 ^ 30 + pte / 2 ^ 26 % 2 ^ 4 * 2 ^ 26 + off % 2 ^ 21 * 2 ^ 5 + typ % 2 ^ 5 =
      pte_set_swap_lem pte typ off h in
    let fits : r < 2 ^ 32 = omega arith in
    omega (arith, paging_page_present_lem r fits, paging_swp_lem r fits)

-- The frame number that is read from an entry of a swapped page is made of its swap offset and
-- swap type: it is no frame number.
pub paging_fpn-pte_set_swap :
    (pte typ off : ℕ)
    → pte < 2 ^ 32
    → typ < 2 ^ 5
    → off < 2 ^ 8
    → paging_fpn (pte_set_swap pte typ off) ≡ off * 2 ^ 5 + typ
paging_fpn-pte_set_swap pte typ off h t k =
    let r : ℕ = pte_set_swap pte typ off in
    let e : r ≡ 2 ^ 30 + pte / 2 ^ 26 % 2 ^ 4 * 2 ^ 26 + off % 2 ^ 21 * 2 ^ 5 + typ % 2 ^ 5 =
      pte_set_swap_lem pte typ off h in
    let fits : r < 2 ^ 32 = omega arith in omega (arith, paging_fpn_lem r fits)

-- `init_pte` sets an entry up as `pte_set_fpn` or `pte_set_swap` do after the dirty bit is cleared;
-- it refuses frame 0, and leaves the entry of a page that is not present alone.
pub init_pte_lem :
    (pte pre fpn drt swp typ off : ℕ)
    → pte < 2 ^ 32
    → init_pte pte pre fpn drt swp typ off ≡ (
        if pre == 0
        then some pte
        else if swp == 0
        then if fpn == 0 then none else some (pte_set_fpn (clr_bit pte paging_pte_dirty_mask) fpn)
        else some (pte_set_swap (clr_bit pte paging_pte_dirty_mask) typ off))
unfolding init_pte
init_pte_lem pte pre fpn drt swp typ off h = rw (init_online pte fpn h, init_swapped pte typ off h)

-- An address of the 22-bit bus is its page number and its offset in that page, and is put together
-- again by a shift and a sum.
pub paging_pgn-offst :
    (addr : ℕ)
    → addr < 2 ^ 22
    → (paging_pgn addr * paging_pagesz + paging_offst addr ≡ addr)
      × (paging_pgn addr < paging_max_pgn)
      × (paging_offst addr < paging_pagesz)
paging_pgn-offst addr h =
    omega (arith, paging_pgn_lem addr (omega arith), paging_offst_lem addr (omega arith))
