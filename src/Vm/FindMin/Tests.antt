-- ===== src/Vm/FindMin/Tests.antt =====
-- `find_min` on a small array with a negative element.
use operating_systems_simula.Prelude.{ℕ, ◌-◌, ◌^◌, ◌≡◌, refl, List, [], ◌∷◌}
use operating_systems_simula.Vm.FindMin.{find_loop, find_min}

abbrev four : List ℕ
four = 3 ∷ (2 ^ 32 - 5) ∷ 9 ∷ 9 ∷ []

find_min-four : find_min four 4 ≡ 2
unfolding find_min find_loop
find_min-four = refl
