-- ===== src/Vm/Alloc.antt =====
-- `__alloc`: the region that it enters in the symbol table, and where its bytes come from.
use operating_systems_simula.Prelude.{
  ℕ, ◌+◌, ◌^◌, ◌≤◌, ◌<◌, ◌≡◌, ◌≢◌, refl, ◌∙◌, ap, inl, inr, ◌⊎◌, some, none, List, ◌∷◌, arith,
  length, length-set, subst, get_or, get_or-set_self, get_or-set_ne,
}
use operating_systems_simula.Regions.{VmRg, Region, get_free_vmrg_area}
use operating_systems_simula.Regions.Count.{within}
use operating_systems_simula.Regions.FirstFit.{Low, Full, Cut, get_free_vmrg_area-Cut}
use operating_systems_simula.Regions.Shape.{Shape, get_free_vmrg_area-Shape}
use operating_systems_simula.Vm.{VmArea, Caller}
use operating_systems_simula.Vm.Area.{
  put_vma, put_symrg, move_brk, alloc_at_brk, place_region, put_first, alloc, pgalloc, no_region,
}
use operating_systems_simula.Vm.Grow.{
  Area, grown_area, new_pages, free_frames, get_vma_by_num-first, put_first-cons,
}
use operating_systems_simula.Vm.Brk.{Moved, region_lem, move_brk-Moved}
use operating_systems_simula.Vm.Owned.{
  held, held-set, owned, region_of, with_region, put_symrg-some,
}

-- From `caller` to `out` the region `rgid` has become one of `size` bytes. It comes from the free list,
-- or, where no free region has room, from the break, which moves up by `size`; where the pages that
-- this needs are more than the free frames of the devices, no page is mapped. Each byte is held or free
-- as often as before, the new bytes below the break once more, those of the old region once less.
pub record Allocated (caller : Caller) (vma : VmArea) (more : List VmArea) (rgid size : ℕ)
    (out : Caller) : Type 0 where
  pub vma' : VmArea
  pub area : Area out vma' more
  pub sized : (region_of out rgid).end ≡ (region_of out rgid).start + size
  pub others : (j : ℕ) → rgid ≢ j → region_of out j ≡ region_of caller j
  pub table : length out.mm.symrgtbl ≡ length caller.mm.symrgtbl
  pub shape : (top : ℕ) → Shape top vma.vm_freerg_list → Shape top vma'.vm_freerg_list
  pub bytes :
      (x : ℕ)
      → owned x out vma' + within x (region_of caller rgid).start (region_of caller rgid).end
        ≡ owned x caller vma + within x vma.sbrk vma'.sbrk
  pub source :
      ((vma'.sbrk ≡ vma.sbrk) × (out.mm.pgd ≡ caller.mm.pgd))
      ⊎ (Full size vma.vm_freerg_list
          × (vma'.sbrk ≡ vma.sbrk + size)
          × (free_frames caller < new_pages vma.sbrk size → out.mm.pgd ≡ caller.mm.pgd))

within-empty : (x a : ℕ) → within x a a ≡ 0
within-empty x a = ground arith

module _ (caller : Caller) (vma : VmArea) (more : List VmArea) (rgid size : ℕ)
    (a : Area caller vma more) (fits : vma.sbrk + size ≤ 2 ^ 22)
    (listed : rgid < length caller.mm.symrgtbl) where
  abbrev searched : List VmRg → Caller
  searched rgs = put_vma caller (record vma { vm_freerg_list = rgs })

  alloc-search :
      alloc caller 0 rgid size
      ≡ place_region caller vma 0 rgid size (get_free_vmrg_area vma.vm_freerg_list size)
  unfolding alloc
  alloc-search = rw (get_vma_by_num-first caller.mm vma more a.first, alloc) refl

  alloc-found :
      (found : Region) (rgs : List VmRg)
      → get_free_vmrg_area vma.vm_freerg_list size ≡ (some found, rgs)
      → alloc caller 0 rgid size ≡ some (with_region (searched rgs) rgid found)
  unfolding place_region
  alloc-found found rgs e =
      alloc-search
      ∙ ap (place_region caller vma 0 rgid size) e
      ∙ put_symrg-some (searched rgs) rgid found listed

  alloc-none :
      (out : Caller)
      → get_free_vmrg_area vma.vm_freerg_list size ≡ (none, vma.vm_freerg_list)
      → move_brk (put_vma caller vma) 0 vma size ≡ some out
      → out.mm.symrgtbl ≡ caller.mm.symrgtbl
      → alloc caller 0 rgid size
        ≡ some (with_region out rgid (record { start = vma.sbrk; end = vma.sbrk + size }))
  unfolding place_region alloc_at_brk
  alloc-none out e m t =
      let first : put_first vma caller.mm.mmap ≡ vma ∷ more =
        put_first-cons vma vma more caller.mm.mmap a.first in
      alloc-search
      ∙ ap (place_region caller vma 0 rgid size) e
      ∙ rw (get_vma_by_num-first (put_vma caller vma).mm vma more first, alloc_at_brk)
          (rw (m, alloc_at_brk)
            (ap (put_symrg out rgid) (region_lem caller vma more a size fits rgid)
              ∙ put_symrg-some out rgid _ (rw t listed)))

  Cut-Allocated :
      (found : Region) (rgs : List VmRg)
      → get_free_vmrg_area vma.vm_freerg_list size ≡ (some found, rgs)
      → Cut vma.vm_freerg_list size found rgs
      → Allocated caller vma more rgid size (with_region (searched rgs) rgid found)
  Cut-Allocated found rgs e c =
      let here : region_of (with_region (searched rgs) rgid found) rgid ≡ found =
        get_or-set_self caller.mm.symrgtbl rgid found no_region listed in
      record {
        vma' = record vma { vm_freerg_list = rgs };
        area = record {
          first = put_first-cons _ vma more caller.mm.mmap a.first;
          aligned = a.aligned;
          table = a.table;
        };
        sized = rw here c.length;
        others = λ j ne. get_or-set_ne caller.mm.symrgtbl rgid j found no_region ne;
        table = length-set caller.mm.symrgtbl rgid found;
        shape = λ top s.
            subst (λ r. Shape top r.1) e (get_free_vmrg_area-Shape top vma.vm_freerg_list size s);
        bytes = λ x. omega (
          arith,
          held-set x caller.mm.symrgtbl rgid found listed,
          c.bytes x,
          within-empty x vma.sbrk,
        );
        source = inl (refl, refl);
      }

  abbrev brk_rg : Region
  brk_rg = record { start = vma.sbrk; end = vma.sbrk + size }

  Moved-Allocated :
      (out : Caller)
      → Full size vma.vm_freerg_list
      → Moved (put_vma caller vma) vma more size out
      → Allocated caller vma more rgid size (with_region out rgid brk_rg)
  Moved-Allocated out full m =
      let room : rgid < length out.mm.symrgtbl = rw m.symrgtbl listed in
      let here : region_of (with_region out rgid brk_rg) rgid ≡ brk_rg =
        get_or-set_self out.mm.symrgtbl rgid brk_rg no_region room in
      record {
        vma' = grown_area vma size;
        area = record { first = m.area.first; aligned = m.area.aligned; table = m.area.table };
        sized = rw here refl;
        others = λ j ne.
            get_or-set_ne out.mm.symrgtbl rgid j brk_rg no_region ne
            ∙ ap (λ t. get_or t j no_region) m.symrgtbl;
        table = length-set out.mm.symrgtbl rgid brk_rg ∙ ap length m.symrgtbl;
        shape = λ top s. s;
        bytes = λ x. omega (
          arith,
          held-set x out.mm.symrgtbl rgid brk_rg room,
          ap (held x) m.symrgtbl,
          ap (λ t. within x (get_or t rgid no_region).start (get_or t rgid no_region).end)
              m.symrgtbl,
        );
        source = inr (full, refl, m.unmapped);
      }

  -- `pgalloc` ends well for a region of the table and a positive size, where the break stays on the
  -- bus of 22 bits and no sum over the free list wraps, and does what `Allocated` says: also where the
  -- devices have too few frames for the new pages.
  pub pgalloc-Allocated :
      0 < size
      → Low size vma.vm_freerg_list
      → (out : Caller) × (pgalloc caller size rgid ≡ some out)
        × Allocated caller vma more rgid size out
  unfolding pgalloc
  pgalloc-Allocated positive low =
      elim (get_free_vmrg_area-Cut vma.vm_freerg_list size positive (omega arith) low) [
        | inl (e, full) ↦
            let searched_area : Area (put_vma caller vma) vma more = record {
              first = put_first-cons vma vma more caller.mm.mmap a.first;
              aligned = a.aligned;
              table = a.table;
            } in
            let (out, m, moved) =
              move_brk-Moved (put_vma caller vma) vma more searched_area size fits rgid in
            (
              with_region out rgid brk_rg,
              alloc-none out e m moved.symrgtbl,
              Moved-Allocated out full moved,
            )
        | inr (found, rgs, e, c) ↦ (
          with_region (searched rgs) rgid found,
          alloc-found found rgs e,
          Cut-Allocated found rgs e c,
        )
      ]
