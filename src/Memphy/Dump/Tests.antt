-- ===== src/Memphy/Dump/Tests.antt =====
-- The dump of a device with one used frame, and of one whose used frame is not there.
use operating_systems_simula.Prelude.{ℕ, ◌≡◌, refl, [], ◌∷◌, arith, replicate, length-replicate}
use operating_systems_simula.Memphy.{Memphy, ok, fault}
use operating_systems_simula.Memphy.Dump.{
  dump_cells, dump_frames, memphy_dump, AreInside, text_of, memphy_dump-text_of,
}

abbrev device : Memphy
device = record {
  storage = replicate 512 9;
  maxsz = 512;
  rdmflg = 1;
  cursor = 0;
  free_fp_list = 0 ∷ [];
  used_fp_list = 1 ∷ [];
}

frame-AreInside : AreInside device.storage device.used_fp_list
unfolding AreInside
frame-AreInside = (omega (arith, length-replicate {A = ℕ} 512 9), tt)

memphy_dump-text_of_example : memphy_dump device ≡ ok (text_of device.storage (1 ∷ []))
memphy_dump-text_of_example = memphy_dump-text_of device frame-AreInside

-- Of a device with less storage the dump reads behind it.
dump_behind : memphy_dump (record device { storage = 1 ∷ 2 ∷ 3 ∷ [] }) ≡ fault
unfolding memphy_dump dump_frames dump_cells
dump_behind = refl
