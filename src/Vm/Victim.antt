-- ===== src/Vm/Victim.antt =====
-- `find_victim_page` of src/mm-vm.c: the first page of the list that is in RAM.
use operating_systems_simula.Prelude.{ℕ, ◌<◌, ◌≡◌, ◌≢◌, ◌∙◌, List, ◌∷◌, arith, length, get_or}
use operating_systems_simula.Pte.{paging_page_present}
use operating_systems_simula.Memphy.{ok}
use operating_systems_simula.Vm.Paging.{find_victim_page}

-- `pgn` is a page of the list that is present, and no page before it in the list is.
pub data Victim (pgd : List ℕ) (pgn : ℕ) : List ℕ → Type 0 where
  here :
      {rest : List ℕ}
      → pgn < length pgd
      → paging_page_present (get_or pgd pgn 0) ≢ 0
      → Victim pgd pgn (pgn ∷ rest)
  later :
      {first : ℕ} {rest : List ℕ}
      → first < length pgd
      → paging_page_present (get_or pgd first 0) ≡ 0
      → Victim pgd pgn rest
      → Victim pgd pgn (first ∷ rest)

find_victim_page-here :
    (pgd : List ℕ) (pgn : ℕ) (rest : List ℕ)
    → pgn < length pgd
    → paging_page_present (get_or pgd pgn 0) ≢ 0
    → find_victim_page pgd (pgn ∷ rest) ≡ ok pgn
unfolding find_victim_page
find_victim_page-here pgd pgn rest h present = ground arith

find_victim_page-later :
    (pgd : List ℕ) (first : ℕ) (rest : List ℕ)
    → first < length pgd
    → paging_page_present (get_or pgd first 0) ≡ 0
    → find_victim_page pgd (first ∷ rest) ≡ find_victim_page pgd rest
unfolding find_victim_page
find_victim_page-later pgd first rest h absent = ground arith

pub find_victim_page-Victim :
    {pgd : List ℕ} {pgn : ℕ} {fifo : List ℕ}
    → Victim pgd pgn fifo
    → find_victim_page pgd fifo ≡ ok pgn
find_victim_page-Victim {pgd} {pgn = pgn} (here {rest} h p) = find_victim_page-here pgd pgn rest h p
find_victim_page-Victim {pgd} (later {first} {rest} h p v) =
    find_victim_page-later pgd first rest h p ∙ find_victim_page-Victim v

pub Victim-present :
    {pgd : List ℕ} {pgn : ℕ} {fifo : List ℕ}
    → Victim pgd pgn fifo
    → (pgn < length pgd) × (paging_page_present (get_or pgd pgn 0) ≢ 0)
Victim-present (here h p) = (h, p)
Victim-present (later h p v) = Victim-present v
