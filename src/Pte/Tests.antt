-- ===== src/Pte/Tests.antt =====
-- The entries and addresses at concrete words.
use operating_systems_simula.Prelude.{◌/◌, ◌%◌, ◌^◌, ◌<◌, ◌≡◌, ◌≢◌, refl, arith}
use operating_systems_simula.Bits.{clr_bit, set_val, set_bit}
use operating_systems_simula.Pte.{
  paging_page_present, paging_fpn, paging_pgn, pte_set_swap, pte_set_fpn,
}
use operating_systems_simula.Pte.Round.{pte_set_fpn-reads}

entry_of_frame_one : pte_set_fpn 0 1 ≡ 0x80000001
unfolding pte_set_fpn set_val set_bit clr_bit
entry_of_frame_one = refl

entry_of_swap_three : pte_set_swap 0x80000001 0 3 ≡ 0x40000060
unfolding pte_set_swap set_val set_bit clr_bit
entry_of_swap_three = refl

page_of_address : paging_pgn 0x1234 ≡ 0x12
unfolding paging_pgn
page_of_address = refl

pte_set_fpn-reads_example :
    (paging_page_present (pte_set_fpn 0x40000060 5) ≢ 0)
    × (paging_fpn (pte_set_fpn 0x40000060 5) ≡ 5)
    × (pte_set_fpn 0x40000060 5 / 2 ^ 13 % 2 ^ 17 ≡ 0x40000060 / 2 ^ 13 % 2 ^ 17)
    × (pte_set_fpn 0x40000060 5 < 2 ^ 32)
pte_set_fpn-reads_example = pte_set_fpn-reads 0x40000060 5 (omega arith) (omega arith)
