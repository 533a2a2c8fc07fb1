-- ===== src/Vm/Online.antt =====
-- Pages that are present: reading and writing the memory behind them.
use operating_systems_simula.Prelude.{
  ℕ, ◌+◌, ◌*◌, ◌^◌, ◌≤◌, ◌<◌, ◌≡◌, ◌≢◌, refl, ◌∙◌, ap, arith, List, ◌==◌, if◌then◌else◌, lt→ltb,
  ne→==, eq→==, ℕ_discrete, length, get_or, set, length-set, get_or-set_self, get_or-set_ne,
}
use operating_systems_simula.Bits.{nbits}
use operating_systems_simula.Pte.{
  paging_fpn, paging_page_present, paging_pgn, paging_offst, paging_pagesz,
}
use operating_systems_simula.Pte.Round.{paging_pgn-offst}
use operating_systems_simula.Pte.Laws.{paging_fpn_lem}
use operating_systems_simula.Memphy.{ok}
use operating_systems_simula.Memphy.Access.{write_in_range, read_in_range}
use operating_systems_simula.Vm.{Caller}
use operating_systems_simula.Vm.Paging.{pg_getpage, pg_getval, pg_setval, phyaddr}

-- The frame number in the entry of the page of `addr`.
abbrev pub frame : Caller → ℕ → ℕ
frame caller addr = paging_fpn (get_or caller.mm.pgd (paging_pgn addr) 0)

-- `addr` is an address of the bus whose page is present, in a frame that RAM has.
pub record Online (caller : Caller) (addr : ℕ) : Type 0 where
  pub on_bus : addr < 2 ^ 22
  pub listed : paging_pgn addr < length caller.mm.pgd
  pub is_word : get_or caller.mm.pgd (paging_pgn addr) 0 < 2 ^ 32
  pub present : paging_page_present (get_or caller.mm.pgd (paging_pgn addr) 0) ≢ 0
  pub backed : frame caller addr * paging_pagesz + paging_pagesz ≤ length caller.mram.storage

phyaddr_lem :
    (fpn addr : ℕ) → fpn < 2 ^ 13 → phyaddr fpn addr ≡ fpn * paging_pagesz + paging_offst addr
unfolding nbits
phyaddr_lem fpn addr h = omega arith

frame_narrow : (caller : Caller) (addr : ℕ) → Online caller addr → frame caller addr < 2 ^ 13
frame_narrow caller addr o =
    omega (arith, paging_fpn_lem (get_or caller.mm.pgd (paging_pgn addr) 0) o.is_word)

cell :
    (caller : Caller) (addr : ℕ)
    → Online caller addr
    → (phyaddr (frame caller addr) addr ≡ frame caller addr * paging_pagesz + paging_offst addr)
      × (phyaddr (frame caller addr) addr < length caller.mram.storage)
cell caller addr o =
    let e = phyaddr_lem (frame caller addr) addr (frame_narrow caller addr o) in
    (e, omega (arith, e, o.backed, (paging_pgn-offst addr o.on_bus)))

pg_getpage-Online :
    (garbage : ℕ) (caller : Caller) (addr : ℕ)
    → Online caller addr
    → pg_getpage garbage caller (paging_pgn addr) ≡ ok (caller, frame caller addr)
unfolding pg_getpage
pg_getpage-Online garbage caller addr o =
    rw
      (
        lt→ltb (paging_pgn addr) (length caller.mm.pgd) o.listed,
        ne→== (paging_page_present (get_or caller.mm.pgd (paging_pgn addr) 0)) 0 o.present,
      )
      refl

-- The cell of RAM that holds the byte at `addr`.
abbrev pub cell_of : Caller → ℕ → ℕ
cell_of caller addr = phyaddr (frame caller addr) addr

pub pg_getval-Online :
    (garbage old : ℕ) (caller : Caller) (addr : ℕ)
    → caller.mram.rdmflg ≢ 0
    → Online caller addr
    → pg_getval garbage caller addr old
      ≡ ok (caller, get_or caller.mram.storage (cell_of caller addr) 0)
unfolding pg_getval
pg_getval-Online garbage old caller addr random o = rw (
  pg_getpage-Online garbage caller addr o,
  pg_getval,
  read_in_range caller.mram random (cell_of caller addr) (cell caller addr o).1,
)

pub pg_setval-Online :
    (garbage value : ℕ) (caller : Caller) (addr : ℕ)
    → caller.mram.rdmflg ≢ 0
    → Online caller addr
    → pg_setval garbage caller addr value
      ≡ ok (record caller {
        mram = record (caller.mram) {
          storage = set caller.mram.storage (cell_of caller addr) value;
        };
      })
unfolding pg_setval
pg_setval-Online garbage value caller addr random o = rw (
  pg_getpage-Online garbage caller addr o,
  pg_setval,
  write_in_range caller.mram random (cell_of caller addr) value (cell caller addr o).1,
)

-- Addresses in separate frames, or at different places of one page, have different cells.
cell_of-ne :
    (caller : Caller) (addr other : ℕ)
    → Online caller addr
    → Online caller other
    → (paging_pgn addr ≢ paging_pgn other → frame caller addr ≢ frame caller other)
    → addr ≢ other
    → cell_of caller addr ≢ cell_of caller other
cell_of-ne caller addr other o o' apart ne =
    elim (ℕ_discrete (paging_pgn addr) (paging_pgn other)) [
      | yes e ↦ omega (
        arith,
        (cell caller addr o).0,
        (cell caller other o').0,
        paging_pgn-offst addr o.on_bus,
        paging_pgn-offst other o'.on_bus,
        ap (λ k. paging_fpn (get_or caller.mm.pgd k 0)) e,
      )
      | no np ↦ omega (
        arith,
        (cell caller addr o).0,
        (cell caller other o').0,
        paging_pgn-offst addr o.on_bus,
        paging_pgn-offst other o'.on_bus,
        apart np,
      )
    ]

-- Where the pages of two addresses are present, and separate pages have separate frames, a write at
-- one address is read back there, and a read at the other address gives what it gave before. No page
-- table or region changes.
pub pg_getval-pg_setval :
    (garbage old value : ℕ) (caller : Caller) (addr other : ℕ)
    → caller.mram.rdmflg ≢ 0
    → Online caller addr
    → Online caller other
    → (paging_pgn addr ≢ paging_pgn other → frame caller addr ≢ frame caller other)
    → (before : ℕ) × (after : Caller) × (pg_getval garbage caller other old ≡ ok (caller, before))
      × (pg_setval garbage caller addr value ≡ ok after)
      × (pg_getval garbage after other old ≡ ok (after, if addr == other then value else before))
      × (after.mm ≡ caller.mm)
pg_getval-pg_setval garbage old value caller addr other random o o' apart =
    let written : List ℕ = set caller.mram.storage (cell_of caller addr) value in
    let after : Caller = record caller { mram = record (caller.mram) { storage = written } } in
    let size : length written ≡ length caller.mram.storage =
      length-set caller.mram.storage (cell_of caller addr) value in
    let online : Online after other = record {
      on_bus = o'.on_bus;
      listed = o'.listed;
      is_word = o'.is_word;
      present = o'.present;
      backed = omega (arith, o'.backed, size);
    } in
    (
      get_or caller.mram.storage (cell_of caller other) 0,
      after,
      pg_getval-Online garbage old caller other random o',
      pg_setval-Online garbage value caller addr random o,
      pg_getval-Online garbage old after other random online
          ∙ ap (λ v. ok (after, v))
              (elim (ℕ_discrete addr other) [
                | yes e ↦
                    rw (eq→== addr other e, ← e)
                      (get_or-set_self caller.mram.storage (cell_of caller addr) value 0
                        (cell caller addr o).1)
                | no ne ↦ rw (ne→== addr other ne) (
                    get_or-set_ne caller.mram.storage (cell_of caller addr) (cell_of caller other)
                      value 0 (cell_of-ne caller addr other o o' apart ne))
              ]),
      refl,
    )
