-- ===== src/Vm/PrintTable/Tests.antt =====
-- `print_pgtbl` of a process with two pages, and of one range of a table.
use operating_systems_simula.Prelude.{◌-◌, ◌^◌, ◌<◌, ◌≡◌, refl, none, some, [], ◌∷◌, take}
use operating_systems_simula.Pte.{paging_max_pgn}
use operating_systems_simula.Vm.Examples.{grown_process, grown_area, grown-Regular}
use operating_systems_simula.Vm.PrintTable.{print_rows, print_pgtbl, numbered, print_pgtbl-numbered}

two_of_three : print_rows 2 1 (5 ∷ 6 ∷ 7 ∷ []) ≡ some ((4, 6) ∷ (8, 7) ∷ [])
unfolding print_rows
two_of_three = refl

-- A fourth entry is not there.
four_of_three : print_rows 4 0 (5 ∷ 6 ∷ 7 ∷ []) ≡ none
unfolding print_rows
four_of_three = refl

print_pgtbl-numbered_example :
    (2 < paging_max_pgn
      → print_pgtbl grown_process 0 (2 ^ 32 - 1) ≡ some (take 2 (numbered 0 grown_process.mm.pgd)))
    × (2 ≡ paging_max_pgn → print_pgtbl grown_process 0 (2 ^ 32 - 1) ≡ some [])
print_pgtbl-numbered_example = print_pgtbl-numbered grown_process grown_area [] grown-Regular
