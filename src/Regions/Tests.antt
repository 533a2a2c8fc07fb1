-- ===== src/Regions/Tests.antt =====
-- Free lists, and the theorems on them at inputs that meet their hypotheses.
use operating_systems_simula.Prelude.{◌≡◌, ◌≢◌, refl, ◌⊎◌, true, none, some, List, [], ◌∷◌, arith}
use operating_systems_simula.Regions.{
  VmRg, Region, scan, Enlisted, get_free_vmrg_area, enlist_vm_freerg_list,
}
use operating_systems_simula.Regions.Scan.{follows}
use operating_systems_simula.Regions.FirstFit.{Full, Cut, get_free_vmrg_area-Cut}
use operating_systems_simula.Regions.Enlist.{
  Joined, Mergeable, touching, enlist-Joined, enlist-fault,
}

-- Free bytes from 0 to 100, and from 300 to 350.
abbrev low_rg : VmRg
low_rg = record { addr = 1; rg_start = 0; rg_end = 100 }

abbrev high_rg : VmRg
high_rg = record { addr = 2; rg_start = 300; rg_end = 350 }

abbrev two : List VmRg
two = low_rg ∷ (high_rg ∷ [])

abbrev two_turned : List VmRg
two_turned = high_rg ∷ (low_rg ∷ [])

-- The gap between the two.
abbrev gap : Region
gap = record { start = 100; end = 300 }

get_free_vmrg_area-Cut_example :
    ((get_free_vmrg_area two 40 ≡ (none, two)) × Full 40 two)
    ⊎ ((found : Region) × (rgs' : List VmRg) × (get_free_vmrg_area two 40 ≡ (some found, rgs'))
        × Cut two 40 found rgs')
get_free_vmrg_area-Cut_example =
    get_free_vmrg_area-Cut two 40 (omega arith) (omega arith) (omega arith, (omega arith, tt))

two_nonempty : two ≢ []
two_nonempty e = cc

enlist-Joined_example :
    (code : Enlisted) × (rgs' : List VmRg) × (enlist_vm_freerg_list 9 [] two gap
      ≡ some (code, rgs'))
    × Joined gap two rgs'
unfolding scan follows
enlist-Joined_example =
    enlist-Joined 9 [] two gap ((omega arith, tt), (tt, tt)) (omega arith, (omega arith, tt))
      two_nonempty (omega arith) touches
  where
    touches : Mergeable two (touching gap two).above (touching gap two).below
    touches = refl

enlist-fault_example : enlist_vm_freerg_list 9 [] two_turned gap ≡ none
unfolding scan follows
enlist-fault_example =
    enlist-fault 9 [] two_turned gap high_rg low_rg ((omega arith, tt), (tt, tt)) (omega arith)
      touches turned
  where
    touches : touching gap two_turned ≡ record { above = some high_rg; below = some low_rg }
    touches = refl

    turned : follows 2 1 two_turned ≡ true
    turned = refl
