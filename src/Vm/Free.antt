-- ===== src/Vm/Free.antt =====
-- `__free` and `pgfree_data`: a region leaves the symbol table, and its bytes join the free list.
use operating_systems_simula.Prelude.{
  ℕ, zero, suc, ◌+◌, ◌≤◌, ◌<◌, ◌≡◌, ◌≢◌, refl, sym, ◌∙◌, ap, true, false, some, none, List, [], ◌∷◌,
  arith, lt→ltb, le→ltb, ◌==◌, if◌then◌else◌, eq→==, ne→==, ℕ_discrete, length, get_or, set,
  get_or-set_self, get_or-set_ne, length-set, subst,
}
use native.Mathlib.Decide.{dec_lt}
use operating_systems_simula.Regions.{VmRg, Region, Enlisted, refused, enlist_vm_freerg_list}
use operating_systems_simula.Regions.Count.{within, Ordered, Distinct, Absent}
use operating_systems_simula.Regions.Enlist.{
  Joined, Mergeable, touching, enlist-Joined, enlist-refused,
}
use operating_systems_simula.Regions.Shape.{Shape}
use operating_systems_simula.Regions.Listing.{list_of, enlist-Shape}
use operating_systems_simula.Vm.{VmArea, Caller}
use operating_systems_simula.Vm.Paging.{get_symrg_byid, paging_max_symtbl_sz}
use operating_systems_simula.Vm.Area.{no_region, put_vma, free, pgfree_data}
use operating_systems_simula.Vm.Grow.{get_vma_by_num-first, put_first-cons}
use operating_systems_simula.Vm.Owned.{held-set, owned, region_of, with_region}

pub get_symrg_byid-some :
    (rgid : ℕ) → rgid < paging_max_symtbl_sz + 1 → get_symrg_byid rgid ≡ some rgid
unfolding get_symrg_byid
get_symrg_byid-some rgid h = ground arith

get_symrg_byid-none : (rgid : ℕ) → paging_max_symtbl_sz < rgid → get_symrg_byid rgid ≡ none
unfolding get_symrg_byid
get_symrg_byid-none rgid h = ground arith

-- From `caller` to `out` the region `rgid` became empty; each byte is held or free as often as before.
-- Only the free list and the entry change.
pub record Freed (caller : Caller) (vma : VmArea) (more : List VmArea) (rgid : ℕ) (out : Caller)
    : Type 0 where
  pub rgs : List VmRg
  pub first : out.mm.mmap ≡ record vma { vm_freerg_list = rgs } ∷ more
  pub empty : region_of out rgid ≡ no_region
  pub others : (j : ℕ) → rgid ≢ j → region_of out j ≡ region_of caller j
  pub table : length out.mm.symrgtbl ≡ length caller.mm.symrgtbl
  pub shape :
      (top : ℕ)
      → Shape top vma.vm_freerg_list
      → ((region_of caller rgid).start < (region_of caller rgid).end
          → (region_of caller rgid).end ≤ top)
      → Shape top rgs
  pub bytes : (x : ℕ) → owned x out (record vma { vm_freerg_list = rgs }) ≡ owned x caller vma
  pub rest :
      out
      ≡ record caller { mm = record (caller.mm) { mmap = out.mm.mmap; symrgtbl = out.mm.symrgtbl } }

within-inverted : (x lo hi : ℕ) → hi ≤ lo → within x lo hi ≡ 0
within-inverted x lo hi h = ground arith

set-get_or : (table : List Region) (i : ℕ) (d : Region) → set table i (get_or table i d) ≡ table
set-get_or [] i d = refl
set-get_or (r ∷ rest) zero d = refl
set-get_or (r ∷ rest) (suc i) d = ap (◌∷◌ r) (set-get_or rest i d)

module _ (fresh : ℕ) (garbage : List VmRg) (caller : Caller) (vma : VmArea) (more : List VmArea)
    (rgid : ℕ) (first : caller.mm.mmap ≡ vma ∷ more)
    (table : length caller.mm.symrgtbl ≡ paging_max_symtbl_sz) where
  abbrev freed : List VmRg → Caller
  freed rgs = with_region (put_vma caller (record vma { vm_freerg_list = rgs })) rgid no_region

  -- What `__free` does behind its test of the region's number.
  free-enlist :
      rgid < paging_max_symtbl_sz
      → (code : Enlisted) (rgs : List VmRg)
      → enlist_vm_freerg_list fresh garbage vma.vm_freerg_list (region_of caller rgid)
        ≡ some (code, rgs)
      → free fresh garbage caller rgid ≡ some (true, freed rgs)
  unfolding free
  free-enlist h code rgs e =
      let room : rgid < length caller.mm.symrgtbl = omega (arith, table) in
      rw
        (
          get_symrg_byid-some rgid (omega arith),
          lt→ltb rgid (length caller.mm.symrgtbl) room,
          get_vma_by_num-first caller.mm vma more first,
          free,
        )
        (rw (e, free) refl)

  freed-Freed :
      (rgs : List VmRg)
      → rgid < paging_max_symtbl_sz
      → Joined (region_of caller rgid) vma.vm_freerg_list rgs
      → ((top : ℕ)
          → Shape top vma.vm_freerg_list
          → ((region_of caller rgid).start < (region_of caller rgid).end
              → (region_of caller rgid).end ≤ top)
          → Shape top rgs)
      → Freed caller vma more rgid (freed rgs)
  freed-Freed rgs h joined shape =
      let room : rgid < length caller.mm.symrgtbl = omega (arith, table) in
      record {
        rgs = rgs;
        first = put_first-cons _ vma more caller.mm.mmap first;
        empty = get_or-set_self caller.mm.symrgtbl rgid no_region no_region room;
        others = λ j ne. get_or-set_ne caller.mm.symrgtbl rgid j no_region no_region ne;
        table = length-set caller.mm.symrgtbl rgid no_region;
        shape = shape;
        bytes = λ x. omega (
          arith,
          held-set x caller.mm.symrgtbl rgid no_region room,
          joined x,
          within-inverted x 0 0 (omega arith),
        );
        rest = refl;
      }

  -- `pgfree_data` ends well and returns 0 for a region of the table, an empty one too, where the free
  -- list is not empty, its nodes are in order, at different addresses, and none at the address that
  -- `malloc` gives, and a gap that the region
  -- closes is not between two nodes of which the lower stands right behind the upper.
  pub pgfree_data-Freed :
      rgid < paging_max_symtbl_sz
      → Distinct vma.vm_freerg_list
      → Ordered vma.vm_freerg_list
      → vma.vm_freerg_list ≢ []
      → Absent fresh vma.vm_freerg_list
      → Mergeable vma.vm_freerg_list
          (touching (region_of caller rgid) vma.vm_freerg_list).above
          (touching (region_of caller rgid) vma.vm_freerg_list).below
      → (out : Caller) × (pgfree_data fresh garbage caller rgid ≡ some (true, out))
        × Freed caller vma more rgid out
  unfolding pgfree_data
  pgfree_data-Freed h d o nonempty new m =
      let rg : Region = region_of caller rgid in
      elim (dec_lt rg.start rg.end) [
        | yes positive ↦
            let (code, rgs, e, joined) =
              enlist-Joined fresh garbage vma.vm_freerg_list rg d o nonempty positive m in
            (
              freed rgs,
              free-enlist h code rgs e,
              freed-Freed rgs h joined (λ top s fits.
                  subst (λ o. Shape top (list_of o)) e
                    (enlist-Shape fresh top garbage vma.vm_freerg_list rg s new positive
                      (fits positive) m)),
            )
        | no inverted ↦ (
          freed vma.vm_freerg_list,
          free-enlist h refused vma.vm_freerg_list
              (enlist-refused fresh garbage vma.vm_freerg_list rg (omega arith)),
          freed-Freed vma.vm_freerg_list h
              (λ x. omega (arith, within-inverted x rg.start rg.end (omega arith)))
              (λ top s fits. s),
        )
      ]

  -- Freeing a region that is empty already, as a second time, returns 0 and changes nothing.
  pub pgfree_data-empty :
      rgid < paging_max_symtbl_sz
      → region_of caller rgid ≡ no_region
      → pgfree_data fresh garbage caller rgid ≡ some (true, caller)
  unfolding pgfree_data
  pgfree_data-empty h e =
      free-enlist h refused vma.vm_freerg_list (
        enlist-refused fresh garbage vma.vm_freerg_list (region_of caller rgid)
          (rw e (omega arith)))
      ∙ (λ i. some (
        true,
        record caller {
          mm = record (caller.mm) {
            mmap = (put_first-cons vma vma more caller.mm.mmap first ∙ sym first) i;
            symrgtbl =
                (ap (set caller.mm.symrgtbl rgid) (sym e)
                    ∙ set-get_or caller.mm.symrgtbl rgid no_region)
                  i;
          };
        },
      ))

-- A number above the size of the table is refused, and nothing changes. The number that is the size of
-- the table is let through, and the code goes past the end of the table.
pub pgfree_data-bounds :
    (fresh : ℕ) (garbage : List VmRg) (caller : Caller) (rgid : ℕ)
    → length caller.mm.symrgtbl ≡ paging_max_symtbl_sz
    → paging_max_symtbl_sz ≤ rgid
    → pgfree_data fresh garbage caller rgid
      ≡ (if rgid == paging_max_symtbl_sz then none else some (false, caller))
unfolding pgfree_data free
pgfree_data-bounds fresh garbage caller rgid table h = elim (ℕ_discrete rgid paging_max_symtbl_sz) [
  | yes e ↦
      rw
        (
          eq→== rgid paging_max_symtbl_sz e,
          get_symrg_byid-some rgid (omega arith),
          le→ltb rgid (length caller.mm.symrgtbl) (omega arith),
          free,
        )
        refl
  | no ne ↦
      rw (ne→== rgid paging_max_symtbl_sz ne, get_symrg_byid-none rgid (omega arith), free) refl
]
