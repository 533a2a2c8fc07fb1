-- ===== src/Vm/Brk.antt =====
-- The part of `__alloc` that moves the break of the area.
use operating_systems_simula.Prelude.{
  ℕ, ◌+◌, ◌*◌, ◌^◌, ◌≤◌, ◌<◌, ◌≡◌, refl, ◌∙◌, inl, inr, false, some, List, ◌∷◌, arith, ltb, ◌==◌,
  ◌||◌, Bool-cases, lt→leb,
}
use operating_systems_simula.Regions.{ulong_of_int, add_ulong}
use operating_systems_simula.Vm.{VmArea, Caller, int_of_ulong}
use operating_systems_simula.Vm.Area.{put_vma, align_ulong, brk_region, exceeds, move_brk}
use operating_systems_simula.Vm.Grow.{
  Area, grown_area, new_pages, pages_up, free_frames, inc_vma_limit-Grown, put_first-cons,
  ulong_of_int_lem, align_ulong_lem,
}

-- What precedes the entry in the symbol table when the break moves from `caller` to `out`. With too
-- few free frames the page table stays as it was.
pub record Moved (caller : Caller) (vma : VmArea) (more : List VmArea) (size : ℕ) (out : Caller)
    : Type 0 where
  pub area : Area out (grown_area vma size) more
  pub symrgtbl : out.mm.symrgtbl ≡ caller.mm.symrgtbl
  pub unmapped : free_frames caller < new_pages vma.sbrk size → out.mm.pgd ≡ caller.mm.pgd

exceeds-false : (a b c d : ℕ) → (ltb a b || c == d) ≡ false → b ≤ a
exceeds-false a b c d h = ground arith

module _ (caller : Caller) (vma : VmArea) (more : List VmArea) (a : Area caller vma more) (size : ℕ)
    (fits : vma.sbrk + size ≤ 2 ^ 22) (rgid : ℕ) where
  pub region_lem :
      brk_region (int_of_ulong vma.sbrk) size ≡ record { start = vma.sbrk; end = vma.sbrk + size }
  region_lem =
      let p : int_of_ulong vma.sbrk ≡ vma.sbrk = omega arith in
      let q : int_of_ulong (vma.sbrk + size) ≡ vma.sbrk + size = omega arith in
      rw p (
        rw q (
          rw
            (
              ulong_of_int_lem vma.sbrk (omega arith),
              ulong_of_int_lem (vma.sbrk + size) (omega arith),
            )
            refl))

  sum_lem : add_ulong (ulong_of_int size) vma.sbrk ≡ vma.sbrk + size
  sum_lem = rw (ulong_of_int_lem size (omega arith)) (omega arith)

  brk_lem : add_ulong vma.sbrk (ulong_of_int size) ≡ vma.sbrk + size
  brk_lem = rw (ulong_of_int_lem size (omega arith)) (omega arith)

  -- The break moves up by `size`, in the current page or with new pages.
  pub move_brk-Moved :
      (out : Caller) × (move_brk caller 0 vma size ≡ some out) × Moved caller vma more size out
  unfolding move_brk
  move_brk-Moved = elim (Bool-cases (exceeds vma size)) [
    | inl beyond ↦
        let (ok, out, e, g) = inc_vma_limit-Grown caller vma more a size fits in
        (
          out,
          rw (beyond, e) refl,
          record {
            area = g.area;
            symrgtbl = g.symrgtbl;
            unmapped = λ short.
                g.unmapped (g.enough ∙ lt→leb (new_pages vma.sbrk size) (free_frames caller) short);
          },
        )
    | inr inside ↦
        let room : vma.sbrk + size ≤ pages_up vma.sbrk * 256 = omega (
          arith,
          exceeds-false (align_ulong vma.sbrk) (vma.sbrk + size) vma.sbrk vma.vm_end
              (rw sum_lem at inside),
          align_ulong_lem vma.sbrk (omega arith),
        ) in
        let end : vma.vm_end ≡ pages_up (vma.sbrk + size) * 256 = omega (arith, a.aligned) in
        (
          put_vma caller (record vma { sbrk = add_ulong vma.sbrk (ulong_of_int size) }),
          rw inside refl,
          record {
            area = record {
              first =
                  put_first-cons _ vma more caller.mm.mmap a.first
                  ∙ (λ i. record vma { sbrk = brk_lem i; vm_end = end i } ∷ more);
              aligned = refl;
              table = a.table;
            };
            symrgtbl = refl;
            unmapped = λ short. refl;
          },
        )
  ]
