-- ===== src/Vm/Exchange.antt =====
-- The page table after `pg_getpage` of src/mm-vm.c has exchanged two pages.
use operating_systems_simula.Prelude.{
  ℕ, ◌<◌, ◌≡◌, ◌≢◌, sym, ◌∙◌, ap, List, arith, length, get_or, set, length-set, get_or-set_self,
  get_or-set_ne,
}
use operating_systems_simula.Pte.{pte_set_fpn, pte_set_swap}
use operating_systems_simula.Vm.Paging.{exchange}

-- The table after an exchange of two pages of it.
module _ (pgd : List ℕ) (pgn vic vicfpn swpfpn : ℕ) (ne : pgn ≢ vic) (h : pgn < length pgd)
    (k : vic < length pgd) where
  abbrev pub victim_out : ℕ
  victim_out = pte_set_swap (get_or pgd vic 0) 0 swpfpn

  pub exchange-pgn :
      get_or (exchange pgd pgn vic vicfpn swpfpn) pgn 0 ≡ pte_set_fpn (get_or pgd pgn 0) vicfpn
  exchange-pgn =
      get_or-set_self (set pgd vic victim_out) pgn
        (pte_set_fpn (get_or (set pgd vic victim_out) pgn 0) vicfpn) 0
        (omega (arith, length-set pgd vic victim_out))
      ∙ ap (λ t. pte_set_fpn t vicfpn) (get_or-set_ne pgd vic pgn victim_out 0 (λ e. ne (sym e)))

  pub exchange-vic : get_or (exchange pgd pgn vic vicfpn swpfpn) vic 0 ≡ victim_out
  exchange-vic =
      get_or-set_ne (set pgd vic victim_out) pgn vic
        (pte_set_fpn (get_or (set pgd vic victim_out) pgn 0) vicfpn) 0 ne
      ∙ get_or-set_self pgd vic victim_out 0 k

  pub exchange-ne :
      (j : ℕ) → j ≢ pgn → j ≢ vic → get_or (exchange pgd pgn vic vicfpn swpfpn) j 0 ≡ get_or pgd j 0
  exchange-ne j np nv =
      get_or-set_ne (set pgd vic victim_out) pgn j
        (pte_set_fpn (get_or (set pgd vic victim_out) pgn 0) vicfpn) 0 (λ e. np (sym e))
      ∙ get_or-set_ne pgd vic j victim_out 0 (λ e. nv (sym e))
