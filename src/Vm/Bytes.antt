-- ===== src/Vm/Bytes.antt =====
-- `pgread` and `pgwrite`: bytes of a region, and the check of the offset.
use operating_systems_simula.Prelude.{
  ℕ, ◌+◌, ◌-◌, ◌^◌, ◌≤◌, ◌<◌, ◌≡◌, ◌≢◌, refl, sym, subst, ◌∙◌, ap, List, ◌∷◌, arith, le→ltb, lt→ltb,
  ◌==◌, if◌then◌else◌, length, get_or, set,
}
use operating_systems_simula.Pte.{paging_pgn}
use operating_systems_simula.Regions.Count.{within}
use operating_systems_simula.Memphy.{ok, failed}
use operating_systems_simula.Regions.{Region}
use operating_systems_simula.Vm.{VmArea, Mm, Caller}
use operating_systems_simula.Vm.Paging.{paging_max_symtbl_sz, pg_getval, pg_setval}
use operating_systems_simula.Vm.Area.{no_region}
use operating_systems_simula.Vm.Transfer.{address, size_rg, read, write, pgread, pgwrite}
use operating_systems_simula.Vm.Grow.{get_vma_by_num-first, ulong_of_int_lem}
use operating_systems_simula.Vm.Free.{get_symrg_byid-some}
use operating_systems_simula.Vm.Online.{
  Online, frame, cell_of, pg_setval-Online, pg_getval-pg_setval,
}

abbrev pub region_in : Mm → ℕ → Region
region_in mm rgid = get_or mm.symrgtbl rgid no_region

-- The process has an area and a table of regions, `rgid` is in the table, and its region is one of the
-- bus.
pub record Accessible (mm : Mm) (rgid : ℕ) : Type 0 where
  pub vma : VmArea
  pub more : List VmArea
  pub first : mm.mmap ≡ vma ∷ more
  pub table : length mm.symrgtbl ≡ paging_max_symtbl_sz
  pub listed : rgid < paging_max_symtbl_sz
  pub in_order : (region_in mm rgid).start ≤ (region_in mm rgid).end
  pub on_bus : (region_in mm rgid).end ≤ 2 ^ 22

size_rg_lem :
    (mm : Mm) (rgid : ℕ)
    → Accessible mm rgid
    → size_rg mm rgid ≡ (region_in mm rgid).end - (region_in mm rgid).start
size_rg_lem mm rgid a = omega (arith, a.in_order, a.on_bus)

address_lem :
    (mm : Mm) (rgid offset : ℕ)
    → Accessible mm rgid
    → offset ≤ size_rg mm rgid
    → address mm rgid offset ≡ (region_in mm rgid).start + offset
address_lem mm rgid offset a h =
    rw (ulong_of_int_lem offset (omega (arith, a.on_bus, size_rg_lem mm rgid a)))
      (omega (arith, a.in_order, a.on_bus, size_rg_lem mm rgid a))

module _ (caller : Caller) (rgid offset : ℕ) (a : Accessible caller.mm rgid) where
  pgread-getval :
      (garbage stack : ℕ) (out : Caller × ℕ)
      → offset ≤ size_rg caller.mm rgid
      → pg_getval garbage caller (address caller.mm rgid offset) stack ≡ ok out
      → pgread garbage stack caller rgid offset ≡ ok out
  unfolding pgread read
  pgread-getval garbage stack out h e =
      rw
        (
          lt→ltb rgid (length caller.mm.symrgtbl) (omega (arith, a.table, a.listed)),
          le→ltb (size_rg caller.mm rgid) offset h,
          get_symrg_byid-some rgid (omega (arith, a.listed)),
          get_vma_by_num-first caller.mm a.vma a.more a.first,
          read,
        )
        (rw (lt→ltb rgid (length caller.mm.symrgtbl) (omega (arith, a.table, a.listed)), e, read)
          refl)

  pgwrite-setval :
      (garbage byte : ℕ) (out : Caller)
      → offset ≤ size_rg caller.mm rgid
      → pg_setval garbage caller (address caller.mm rgid offset) byte ≡ ok out
      → pgwrite garbage caller byte rgid offset ≡ ok out
  unfolding pgwrite write
  pgwrite-setval garbage byte out h e =
      rw
        (
          lt→ltb rgid (length caller.mm.symrgtbl) (omega (arith, a.table, a.listed)),
          le→ltb (size_rg caller.mm rgid) offset h,
          get_symrg_byid-some rgid (omega (arith, a.listed)),
          get_vma_by_num-first caller.mm a.vma a.more a.first,
          write,
        )
        (rw (lt→ltb rgid (length caller.mm.symrgtbl) (omega (arith, a.table, a.listed)), e, write)
          refl)

  -- An offset behind the size of the region is refused.
  pub offset_refused :
      (garbage stack byte : ℕ)
      → size_rg caller.mm rgid < offset
      → (pgread garbage stack caller rgid offset ≡ failed)
        × (pgwrite garbage caller byte rgid offset ≡ failed)
  unfolding pgread pgwrite
  offset_refused garbage stack byte h =
      rw
        (
          lt→ltb rgid (length caller.mm.symrgtbl) (omega (arith, a.table, a.listed)),
          lt→ltb (size_rg caller.mm rgid) offset h,
        )
        (refl, refl)

-- A byte that `pgwrite` puts at an offset of a region is what `pgread` gives for the same address of
-- memory, through whichever region; at another address it gives what it gave before. The pages of both
-- addresses are in RAM, and separate pages have separate frames.
pub pgread-pgwrite :
    (garbage stack byte : ℕ) (caller : Caller) (to offset from from_offset : ℕ)
    → caller.mram.rdmflg ≢ 0
    → Accessible caller.mm to
    → offset ≤ size_rg caller.mm to
    → Accessible caller.mm from
    → from_offset ≤ size_rg caller.mm from
    → Online caller (address caller.mm to offset)
    → Online caller (address caller.mm from from_offset)
    → (paging_pgn (address caller.mm to offset) ≢ paging_pgn (address caller.mm from from_offset)
        → frame caller (address caller.mm to offset)
          ≢ frame caller (address caller.mm from from_offset))
    → (before : ℕ) × (after : Caller) × (pgread garbage stack caller from from_offset
        ≡ ok (caller, before))
      × (pgwrite garbage caller byte to offset ≡ ok after)
      × (pgread garbage stack after from from_offset
          ≡ ok (
            after,
            if address caller.mm to offset == address caller.mm from from_offset
                then byte
                else before,
          ))
pgread-pgwrite garbage stack byte caller to offset from from_offset random a h b k o o' apart =
    let (before, after, read_before, written, read_after, same) =
      pg_getval-pg_setval garbage stack byte caller (address caller.mm to offset)
        (address caller.mm from from_offset) random o o' apart in
    (
      before,
      after,
      pgread-getval caller from from_offset b garbage stack _ k read_before,
      pgwrite-setval caller to offset a garbage byte after h written,
      pgread-getval after from from_offset (subst (λ mm. Accessible mm from) (sym same) b) garbage
          stack _ (rw same k)
          (ap (λ mm. pg_getval garbage after (address mm from from_offset) stack) same
            ∙ read_after),
    )

-- An offset that is the size of the region is let through: `pgwrite` writes to the address behind the
-- region, which is not one of the region's, where that is an address whose page is in RAM.
pub pgwrite-past_end :
    (garbage byte : ℕ) (caller : Caller) (rgid : ℕ)
    → caller.mram.rdmflg ≢ 0
    → Accessible caller.mm rgid
    → Online caller (region_in caller.mm rgid).end
    → (pgwrite garbage caller byte rgid
          ((region_in caller.mm rgid).end - (region_in caller.mm rgid).start)
        ≡ ok (record caller {
          mram = record (caller.mram) {
            storage = set caller.mram.storage (cell_of caller (region_in caller.mm rgid).end) byte;
          };
        }))
      × (within
            (region_in caller.mm rgid).end
            (region_in caller.mm rgid).start
            (region_in caller.mm rgid).end
          ≡ 0)
pgwrite-past_end garbage byte caller rgid random a o =
    let rg : Region = region_in caller.mm rgid in
    let size = size_rg_lem caller.mm rgid a in
    let at : address caller.mm rgid (rg.end - rg.start) ≡ rg.end =
      address_lem caller.mm rgid (rg.end - rg.start) a (omega (arith, size))
      ∙ omega (arith, a.in_order) in
    (
      pgwrite-setval caller rgid (rg.end - rg.start) a garbage byte _ (omega (arith, size)) (
          ap (λ addr. pg_setval garbage caller addr byte) at
          ∙ pg_setval-Online garbage byte caller rg.end random o),
      within-end rg.start rg.end,
    )
  where
    within-end : (lo hi : ℕ) → within hi lo hi ≡ 0
    within-end lo hi = ground arith
