-- ===== src/Memphy/Tests.antt =====
-- Small devices, and the theorems on devices at inputs that meet their hypotheses.
use operating_systems_simula.Prelude.{ℕ, ◌≡◌, [], arith, length, replicate, length-replicate}
use operating_systems_simula.Pte.{paging_pagesz}
use operating_systems_simula.Memphy.{Memphy, ok}
use operating_systems_simula.Memphy.Copy.{swap_cp_page, Copied, swap_cp_page-Copied}

-- A random access device of 512 bytes.
abbrev device : Memphy
device = record {
  storage = replicate 512 0;
  maxsz = 512;
  rdmflg = 1;
  cursor = 0;
  free_fp_list = [];
  used_fp_list = [];
}

device_size : length device.storage ≡ 512
device_size = length-replicate {A = ℕ} 512 0

swap_cp_page-Copied_example :
    (out : Memphy) × (swap_cp_page device 1 device 0 ≡ ok (device, out))
    × Copied device 1 device 0 0 paging_pagesz out
swap_cp_page-Copied_example =
    swap_cp_page-Copied device 1 device 0 (omega arith) (omega arith) (omega (arith, device_size))
      (omega (arith, device_size))
