-- ===== src/Vm/Regular.antt =====
-- The invariant of a process's memory under any sequence of `pgalloc` and `pgfree_data`.
use operating_systems_simula.Prelude.{
  ℕ, ◌+◌, ◌-◌, ◌≤◌, ◌<◌, ◌^◌, ◌≡◌, ◌≢◌, inl, inr, refl, ◌∙◌, some, true, List, [], ◌∷◌, arith,
  length, ap, replicate, length-replicate, zero, suc,
}
use native.Mathlib.Decide.{dec_lt}
use operating_systems_simula.Regions.{VmRg, Region, init_vm_rg, enlist_vm_rg_node}
use operating_systems_simula.Regions.Count.{within, count, Ordered, Absent}
use operating_systems_simula.Regions.FirstFit.{Low}
use operating_systems_simula.Regions.Enlist.{Mergeable, touching}
use operating_systems_simula.Regions.Shape.{Shape, Below, cons-ne-nil}
use operating_systems_simula.Pte.{paging_max_pgn}
use operating_systems_simula.Memphy.{Memphy}
use operating_systems_simula.Vm.{VmArea, Mm, Caller, init_mm}
use operating_systems_simula.Vm.Paging.{paging_max_symtbl_sz}
use operating_systems_simula.Vm.Area.{pgalloc, pgfree_data, no_region}
use operating_systems_simula.Vm.Grow.{Area}
use operating_systems_simula.Vm.Owned.{held, region_of, within-le-held}
use operating_systems_simula.Vm.Alloc.{pgalloc-Allocated}
use operating_systems_simula.Vm.Free.{pgfree_data-Freed}
use operating_systems_simula.Vm.Disjoint.{Disjoint, brk-le, Allocated-Disjoint, Freed-Disjoint}

-- A process with one area `vma`: its limits agree, its free list is well formed and lies below the
-- break, and no byte belongs to two regions.
pub record Regular (caller : Caller) (vma : VmArea) (more : List VmArea) : Type 0 where
  pub area : Area caller vma more
  pub table : length caller.mm.symrgtbl ≡ paging_max_symtbl_sz
  pub on_bus : vma.sbrk ≤ 2 ^ 22
  pub shape : Shape vma.sbrk vma.vm_freerg_list
  pub disjoint : Disjoint caller vma

Low-Below :
    (top size : ℕ) (rgs : List VmRg)
    → top + size ≤ 2 ^ 22
    → Ordered rgs
    → Below top rgs
    → Low size rgs
Low-Below top size [] h o b = tt
Low-Below top size (rg ∷ rest) h o b = (omega (arith, o.0, b.0), Low-Below top size rest h o.1 b.1)

Below-le : (low high : ℕ) (rgs : List VmRg) → low ≤ high → Below low rgs → Below high rgs
Below-le low high [] h b = tt
Below-le low high (rg ∷ rest) h b = (omega (arith, b.0), Below-le low high rest h b.1)

Shape-le : (low high : ℕ) (rgs : List VmRg) → low ≤ high → Shape low rgs → Shape high rgs
Shape-le low high rgs h s = record {
  distinct = s.distinct;
  ordered = s.ordered;
  below = Below-le low high rgs h s.below;
  nonempty = s.nonempty;
}

within-last : (start end : ℕ) → start < end → within (end - 1) start end ≡ 1
within-last start end h = ground arith

-- A region of the table lies below the break.
region-below :
    (caller : Caller) (vma : VmArea) (rgid : ℕ)
    → Disjoint caller vma
    → (region_of caller rgid).start < (region_of caller rgid).end
    → (region_of caller rgid).end ≤ vma.sbrk
region-below caller vma rgid d h =
    let rg = region_of caller rgid in
    elim (dec_lt (rg.end - 1) vma.sbrk) [
      | yes below ↦ omega arith
      | no above ↦ absurd (
          omega (
            arith,
            d.below (rg.end - 1) (omega arith),
            within-le-held (rg.end - 1) caller.mm.symrgtbl rgid,
            within-last rg.start rg.end h,
          ))
    ]

-- `pgalloc` of a region of the table succeeds where the break stays on the bus of 22 bits, with a
-- region of that size that shares no byte with any other or with a free region, and a break that
-- is at most that much higher; the memory of the process stays regular.
pub pgalloc-Regular :
    (caller : Caller) (vma : VmArea) (more : List VmArea) (rgid size : ℕ)
    → Regular caller vma more
    → rgid < paging_max_symtbl_sz
    → 0 < size
    → vma.sbrk + size ≤ 2 ^ 22
    → (out : Caller) × (vma' : VmArea) × (pgalloc caller size rgid ≡ some out)
      × ((region_of out rgid).end ≡ (region_of out rgid).start + size)
      × ((j : ℕ) → rgid ≢ j → region_of out j ≡ region_of caller j)
      × (vma'.sbrk ≤ vma.sbrk + size)
      × Regular out vma' more
pgalloc-Regular caller vma more rgid size r h positive fits =
    let low : Low size vma.vm_freerg_list =
      Low-Below vma.sbrk size vma.vm_freerg_list fits r.shape.ordered r.shape.below in
    let (out, e, a) =
      pgalloc-Allocated caller vma more rgid size r.area fits (omega (arith, r.table)) positive
        low in
    let le : vma.sbrk ≤ a.vma'.sbrk = brk-le a in
    (
      out,
      a.vma',
      e,
      a.sized,
      a.others,
      elim (a.source) [ inl s ↦ omega (arith, s.0) | inr s ↦ omega (arith, s.1) ],
      record {
        area = a.area;
        table = a.table ∙ r.table;
        on_bus = elim (a.source) [
          | inl s ↦ omega (arith, s.0, r.on_bus)
          | inr s ↦ omega (arith, s.1)
        ];
        shape = Shape-le vma.sbrk a.vma'.sbrk a.vma'.vm_freerg_list le (a.shape vma.sbrk r.shape);
        disjoint = Allocated-Disjoint r.disjoint a;
      },
    )

-- `pgfree_data` of a region of the table returns 0 where `malloc` gives a new address and the region
-- does not close a gap above which the free list goes on with the node below it; the region becomes
-- empty, no other does, and the memory of the process stays regular.
pub pgfree_data-Regular :
    (fresh : ℕ) (garbage : List VmRg) (caller : Caller) (vma : VmArea) (more : List VmArea)
    (rgid : ℕ)
    → Regular caller vma more
    → rgid < paging_max_symtbl_sz
    → Absent fresh vma.vm_freerg_list
    → Mergeable vma.vm_freerg_list
        (touching (region_of caller rgid) vma.vm_freerg_list).above
        (touching (region_of caller rgid) vma.vm_freerg_list).below
    → (out : Caller) × (vma' : VmArea) × (pgfree_data fresh garbage caller rgid ≡ some (true, out))
      × (region_of out rgid ≡ no_region)
      × ((j : ℕ) → rgid ≢ j → region_of out j ≡ region_of caller j)
      × Regular out vma' more
pgfree_data-Regular fresh garbage caller vma more rgid r h new m =
    let (out, e, f) =
      pgfree_data-Freed fresh garbage caller vma more rgid r.area.first r.table h r.shape.distinct
        r.shape.ordered r.shape.nonempty new m in
    (
      out,
      record vma { vm_freerg_list = f.rgs },
      e,
      f.empty,
      f.others,
      record {
        area = record {
          first = f.first;
          aligned = r.area.aligned;
          table = ap (λ c. length c.mm.pgd) f.rest ∙ r.area.table;
        };
        table = f.table ∙ r.table;
        on_bus = r.on_bus;
        shape = f.shape vma.sbrk r.shape (region-below caller vma rgid r.disjoint);
        disjoint = Freed-Disjoint r.disjoint f;
      },
    )

within-nothing : (x : ℕ) → within x 0 0 ≡ 0
within-nothing x = ground arith

pub held-replicate : (x n : ℕ) → held x (replicate n no_region) ≡ 0
unfolding held
held-replicate x zero = refl
held-replicate x (suc n) = omega (arith, held-replicate x n, within-nothing x)

-- The area of a new process: the dummy region, and nothing behind it.
abbrev pub new_area : ℕ → VmArea
new_area fresh = record {
  vm_id = 1;
  vm_start = 0;
  vm_end = 0;
  sbrk = 0;
  vm_freerg_list = record { addr = fresh; rg_start = 0; rg_end = 0 } ∷ [];
}

-- A new process is regular where `malloc` gave cleared memory: an empty symbol table and an empty list
-- behind the dummy region, which the code does not set.
pub init_mm-Regular :
    (fresh : ℕ) (before : Mm) (mram mswp : Memphy)
    → length before.pgd ≡ paging_max_pgn
    → before.symrgtbl ≡ replicate paging_max_symtbl_sz no_region
    → Regular
        (record { mm = init_mm fresh [] before; mram = mram; active_mswp = mswp })
        (new_area fresh)
        []
unfolding init_mm init_vm_rg enlist_vm_rg_node count
init_mm-Regular fresh before mram mswp pages cleared = record {
  area = record { first = refl; aligned = refl; table = pages };
  table = rw cleared (length-replicate {A = Region} paging_max_symtbl_sz no_region);
  on_bus = omega arith;
  shape = record {
    distinct = (tt, tt);
    ordered = (omega arith, tt);
    below = (omega arith, tt);
    nonempty = λ e. cons-ne-nil _ _ e;
  };
  disjoint = record { apart = λ x. omega (arith, none_owned x); below = λ x h. none_owned x };
}
  where
    none_owned : (x : ℕ) → within x 0 0 + 0 + held x before.symrgtbl ≡ 0
    none_owned x =
        rw cleared (omega (arith, held-replicate x paging_max_symtbl_sz, within-nothing x))
