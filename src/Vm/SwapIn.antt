-- ===== src/Vm/SwapIn.antt =====
-- `pg_getpage` of src/mm-vm.c: a page that is not in RAM is brought in.
use operating_systems_simula.Prelude.{
  ℕ, ◌+◌, ◌*◌, ◌%◌, ◌^◌, ◌≤◌, ◌<◌, ◌≡◌, ◌≢◌, refl, ◌∙◌, ap, inl, inr, ◌⊎◌, List, ◌∷◌, arith, lt→ltb,
  eq→==, length, get_or,
}
use native.Mathlib.Decide.{dec_lt}
use operating_systems_simula.Pte.{paging_fpn, paging_swp, paging_page_present, paging_pagesz}
use operating_systems_simula.Pte.Laws.{paging_fpn_lem, paging_swp_lem}
use operating_systems_simula.Pte.Round.{pte_set_fpn-reads, pte_set_swap-reads}
use operating_systems_simula.Memphy.{Memphy, ok, get_freefp}
use operating_systems_simula.Memphy.Copy.{swap_cp_page, Copied, swap_cp_page-Copied}
use operating_systems_simula.Vm.{Caller}
use operating_systems_simula.Vm.Victim.{Victim, Victim-present, find_victim_page-Victim}
use operating_systems_simula.Vm.Exchange.{exchange-pgn, exchange-vic, exchange-ne}
use operating_systems_simula.Vm.Paging.{swap_frame, exchange, swap_pages, pg_getpage}

abbrev pub entry : Caller → ℕ → ℕ
entry caller pgn = get_or caller.mm.pgd pgn 0

-- The page `pgn` is in swap, the victim `vicpgn` in RAM, and `swpfpn` is the first free frame of swap,
-- in devices that have all three frames.
pub record Ready (caller : Caller) (pgn vicpgn swpfpn : ℕ) (free : List ℕ) : Type 0 where
  pub listed : pgn < length caller.mm.pgd
  pub absent : paging_page_present (entry caller pgn) ≡ 0
  pub victim : Victim caller.mm.pgd vicpgn caller.mm.fifo_pgn
  pub words : (entry caller pgn < 2 ^ 32) × (entry caller vicpgn < 2 ^ 32)
  pub free_frames : caller.active_mswp.free_fp_list ≡ swpfpn ∷ free
  pub fresh : swpfpn ≢ paging_swp (entry caller pgn)
  pub narrow : swpfpn < 2 ^ 21
  pub random : (caller.mram.rdmflg ≢ 0) × (caller.active_mswp.rdmflg ≢ 0)
  pub ram_frame :
      paging_fpn (entry caller vicpgn) * paging_pagesz + paging_pagesz ≤ length caller.mram.storage
  pub swap_frames :
      (swpfpn * paging_pagesz + paging_pagesz ≤ length caller.active_mswp.storage)
      × (paging_swp (entry caller pgn) * paging_pagesz + paging_pagesz
          ≤ length caller.active_mswp.storage)

-- From `caller` to `out` the two pages changed places.
pub record SwappedIn (caller : Caller) (pgn vicpgn swpfpn : ℕ) (free : List ℕ) (out : Caller)
    : Type 0 where
  pub online :
      (paging_page_present (entry out pgn) ≢ 0)
      × (paging_fpn (entry out pgn) ≡ paging_fpn (entry caller vicpgn))
  pub swapped :
      (paging_page_present (entry out vicpgn) ≡ 0) × (paging_swp (entry out vicpgn) ≡ swpfpn)
  pub others : (j : ℕ) → j ≢ pgn → j ≢ vicpgn → entry out j ≡ entry caller j
  pub loaded :
      (i : ℕ)
      → i < paging_pagesz
      → get_or out.mram.storage (paging_fpn (entry caller vicpgn) * paging_pagesz + i) 0
        ≡ get_or caller.active_mswp.storage (paging_swp (entry caller pgn) * paging_pagesz + i) 0
  pub saved :
      (i : ℕ)
      → i < paging_pagesz
      → get_or out.active_mswp.storage (swpfpn * paging_pagesz + i) 0
        ≡ get_or caller.mram.storage (paging_fpn (entry caller vicpgn) * paging_pagesz + i) 0
  pub ram_rest :
      (a : ℕ)
      → (a < paging_fpn (entry caller vicpgn) * paging_pagesz)
        ⊎ (paging_fpn (entry caller vicpgn) * paging_pagesz + paging_pagesz ≤ a)
      → get_or out.mram.storage a 0 ≡ get_or caller.mram.storage a 0
  pub swap_rest :
      (a : ℕ)
      → (a < swpfpn * paging_pagesz) ⊎ (swpfpn * paging_pagesz + paging_pagesz ≤ a)
      → get_or out.active_mswp.storage a 0 ≡ get_or caller.active_mswp.storage a 0
  pub free_left : out.active_mswp.free_fp_list ≡ free
  pub tracked : out.mm.fifo_pgn ≡ pgn ∷ caller.mm.fifo_pgn

swap_frame-cons :
    (garbage fpn : ℕ) (free : List ℕ) (mswp : Memphy)
    → mswp.free_fp_list ≡ fpn ∷ free
    → swap_frame garbage mswp ≡ (fpn, record mswp { free_fp_list = free })
unfolding get_freefp
swap_frame-cons garbage fpn free mswp e = rw e refl

module _ (garbage : ℕ) (caller : Caller) (pgn vicpgn swpfpn : ℕ) (free : List ℕ)
    (r : Ready caller pgn vicpgn swpfpn free) where
  distinct : pgn ≢ vicpgn
  distinct e = (Victim-present r.victim).1 (rw e at r.absent)

  -- The state that `swap_in` leaves, over the devices after the two copies.
  abbrev after : Memphy → Memphy → Caller
  after mram mswp = record {
    mm = record (caller.mm) {
      pgd = exchange caller.mm.pgd pgn vicpgn (paging_fpn (entry caller vicpgn)) swpfpn;
      fifo_pgn = pgn ∷ caller.mm.fifo_pgn;
    };
    mram = mram;
    active_mswp = mswp;
  }

  pg_getpage-swap_pages :
      pg_getpage garbage caller pgn
      ≡ swap_pages caller pgn
          (entry caller pgn)
          vicpgn
          (swpfpn, record (caller.active_mswp) { free_fp_list = free })
  unfolding pg_getpage
  pg_getpage-swap_pages = rw (
    lt→ltb pgn (length caller.mm.pgd) r.listed,
    eq→== (paging_page_present (entry caller pgn)) 0 r.absent,
    find_victim_page-Victim r.victim,
    swap_frame-cons garbage swpfpn free caller.active_mswp r.free_frames,
  )

  swap_pages-after :
      (mswp mram : Memphy)
      → swap_cp_page caller.mram
          (paging_fpn (entry caller vicpgn))
          (record (caller.active_mswp) { free_fp_list = free })
          swpfpn
        ≡ ok (caller.mram, mswp)
      → swap_cp_page mswp
          (paging_swp (entry caller pgn))
          caller.mram
          (paging_fpn (entry caller vicpgn))
        ≡ ok (mswp, mram)
      → swap_pages caller pgn
          (entry caller pgn)
          vicpgn
          (swpfpn, record (caller.active_mswp) { free_fp_list = free })
        ≡ ok (after mram mswp, paging_fpn (entry caller pgn))
  unfolding swap_pages
  swap_pages-after mswp mram e f = rw (e, swap_pages) (rw (f, swap_pages) refl)

  abbrev taken : Memphy
  taken = record (caller.active_mswp) { free_fp_list = free }

  after-SwappedIn :
      (mswp mram : Memphy)
      → Copied caller.mram (paging_fpn (entry caller vicpgn)) taken swpfpn 0 paging_pagesz mswp
      → Copied mswp
          (paging_swp (entry caller pgn))
          caller.mram
          (paging_fpn (entry caller vicpgn))
          0
          paging_pagesz
          mram
      → SwappedIn caller pgn vicpgn swpfpn free (after mram mswp)
  after-SwappedIn mswp mram c d =
      let v = Victim-present r.victim in
      let vicfpn : ℕ = paging_fpn (entry caller vicpgn) in
      let in_reads =
        pte_set_fpn-reads (entry caller pgn) vicfpn r.words.0
          (omega (arith, paging_fpn_lem (entry caller vicpgn) r.words.1)) in
      let out_reads = pte_set_swap-reads (entry caller vicpgn) 0 swpfpn r.words.1 r.narrow in
      record {
        online =
            rw (exchange-pgn caller.mm.pgd pgn vicpgn vicfpn swpfpn distinct r.listed v.0)
              (in_reads.0, in_reads.1);
        swapped =
            rw (exchange-vic caller.mm.pgd pgn vicpgn vicfpn swpfpn distinct r.listed v.0)
              (out_reads.0, out_reads.1);
        others = exchange-ne caller.mm.pgd pgn vicpgn vicfpn swpfpn distinct r.listed v.0;
        loaded = λ i h.
            d.same i (omega arith) h
            ∙ c.outside (paging_swp (entry caller pgn) * paging_pagesz + i) (apart i h);
        saved = λ i h. c.same i (omega arith) h;
        ram_rest = λ a h. d.outside a (shifted a vicfpn h);
        swap_rest = λ a h. c.outside a (shifted a swpfpn h);
        free_left = ap (λ m. m.free_fp_list) c.rest;
        tracked = refl;
      }
    where
      shifted :
          (a fpn : ℕ)
          → (a < fpn * paging_pagesz) ⊎ (fpn * paging_pagesz + paging_pagesz ≤ a)
          → (a < fpn * paging_pagesz + 0) ⊎ (fpn * paging_pagesz + paging_pagesz ≤ a)
      shifted a fpn (inl h) = inl (omega arith)
      shifted a fpn (inr h) = inr h

      apart :
          (i : ℕ)
          → i < paging_pagesz
          → (paging_swp (entry caller pgn) * paging_pagesz + i < swpfpn * paging_pagesz + 0)
            ⊎ (swpfpn * paging_pagesz + paging_pagesz
                ≤ paging_swp (entry caller pgn) * paging_pagesz + i)
      apart i h = elim (dec_lt (paging_swp (entry caller pgn)) swpfpn) [
        | yes l ↦ inl (omega arith)
        | no g ↦ inr (omega (arith, r.fresh))
      ]

  -- A page that is not in RAM is brought in where a page of the list is in RAM and swap has a free
  -- frame of at most 21 bits, another than the page's own, both entries are 32-bit words, and both
  -- devices are random access devices whose storage has the frames: the first page of the list that
  -- is in RAM is the victim, its bytes go to the free frame of swap, its frame gets
  -- the bytes of the page, and the entries of the two pages say so; no other entry or byte changes.
  -- The frame of swap that held the page does not become free. The frame number that the call answers
  -- with is made of the low 13 bits of the old entry, of its swap offset and type, whatever the frame
  -- is that the page went to.
  pub pg_getpage-SwappedIn :
      (out : Caller) × (fpn : ℕ) × (pg_getpage garbage caller pgn ≡ ok (out, fpn))
      × SwappedIn caller pgn vicpgn swpfpn free out
      × (fpn ≡ paging_swp (entry caller pgn) % 2 ^ 8 * 2 ^ 5 + entry caller pgn % 2 ^ 5)
  pg_getpage-SwappedIn =
      let vicfpn : ℕ = paging_fpn (entry caller vicpgn) in
      let (mswp, e, c) =
        swap_cp_page-Copied caller.mram vicfpn taken swpfpn r.random.0 r.random.1 r.ram_frame
          r.swap_frames.0 in
      let kind : mswp.rdmflg ≡ caller.active_mswp.rdmflg = ap (λ m. m.rdmflg) c.rest in
      let (mram, f, d) =
        swap_cp_page-Copied mswp (paging_swp (entry caller pgn)) caller.mram vicfpn
          (rw kind r.random.1) r.random.0 (omega (arith, c.size, r.swap_frames)) r.ram_frame in
      (
        after mram mswp,
        paging_fpn (entry caller pgn),
        pg_getpage-swap_pages ∙ swap_pages-after mswp mram e f,
        after-SwappedIn mswp mram c d,
        omega (
          arith,
          paging_fpn_lem (entry caller pgn) r.words.0,
          paging_swp_lem (entry caller pgn) r.words.0,
        ),
      )
