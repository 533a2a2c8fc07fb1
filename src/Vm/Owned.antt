-- ===== src/Vm/Owned.antt =====
-- The bytes that a process holds: those of its symbol table, and those of its free list.
use operating_systems_simula.Prelude.{
  ℕ, zero, suc, ◌+◌, ◌≤◌, ◌<◌, ◌≡◌, refl, some, List, [], ◌∷◌, arith, lt→ltb, length, get_or, set,
}
use operating_systems_simula.Regions.{Region}
use operating_systems_simula.Regions.Count.{within, count}
use operating_systems_simula.Vm.{VmArea, Caller}
use operating_systems_simula.Vm.Area.{no_region, put_symrg}

-- How many entries of the table hold the byte `x`.
unfoldable pub held : ℕ → List Region → ℕ
held x [] = 0
held x (rg ∷ rest) = within x rg.start rg.end + held x rest

pub held-set :
    (x : ℕ) (table : List Region) (i : ℕ) (rg : Region)
    → i < length table
    → held x (set table i rg)
        + within x (get_or table i no_region).start (get_or table i no_region).end
      ≡ held x table + within x rg.start rg.end
unfolding held
held-set x [] i rg h = absurd (omega arith)
held-set x (r ∷ rest) zero rg h = omega arith
held-set x (r ∷ rest) (suc i) rg h = omega (arith, held-set x rest i rg (omega arith))

-- How often the byte `x` is held or free, for a process with the area `vma`.
abbrev pub owned : ℕ → Caller → VmArea → ℕ
owned x caller vma = count x vma.vm_freerg_list + held x caller.mm.symrgtbl

abbrev pub region_of : Caller → ℕ → Region
region_of caller rgid = get_or caller.mm.symrgtbl rgid no_region

abbrev pub with_region : Caller → ℕ → Region → Caller
with_region caller rgid rg = record caller {
  mm = record (caller.mm) { symrgtbl = set caller.mm.symrgtbl rgid rg };
}

pub put_symrg-some :
    (caller : Caller) (rgid : ℕ) (rg : Region)
    → rgid < length caller.mm.symrgtbl
    → put_symrg caller rgid rg ≡ some (with_region caller rgid rg)
put_symrg-some caller rgid rg h = rw (lt→ltb rgid (length caller.mm.symrgtbl) h) refl

-- A byte of an entry is held.
pub within-le-held :
    (x : ℕ) (table : List Region) (i : ℕ)
    → within x (get_or table i no_region).start (get_or table i no_region).end ≤ held x table
unfolding held
within-le-held x [] i = ground arith
within-le-held x (r ∷ rest) zero = omega arith
within-le-held x (r ∷ rest) (suc i) = omega (arith, within-le-held x rest i)
