-- ===== src/Vm/Map.antt =====
-- `vmap_page_range`: the entries that it sets, and the pages that it puts in `fifo_pgn`.
use operating_systems_simula.Prelude.{
  ℕ, zero, suc, ◌+◌, ◌≤◌, ◌<◌, ◌^◌, ◌≡◌, ◌≢◌, refl, sym, ◌∙◌, ap, inl, inr, ◌⊎◌, some, List, [],
  ◌∷◌, ◌++◌, arith, lt→ltb, length, get_or, set, length-set, get_or-set_self, get_or-set_ne,
}
use operating_systems_simula.Pte.{
  pte_set_fpn, pte_set_swap, paging_fpn, paging_swp, paging_page_present, paging_pgn,
}
use operating_systems_simula.Pte.Round.{pte_set_fpn-reads, pte_set_swap-reads}
use operating_systems_simula.Memphy.Frames.{range}
use operating_systems_simula.Vm.{Mm, map_loop, vmap_page_range}
use operating_systems_simula.Vm.Grant.{back_onto}

-- What one loop did from `page` on: the new table, and the pages put in `fifo_pgn`.
pub record Stretch (set_pte : ℕ → ℕ → ℕ) (frames : List ℕ) (page : ℕ) (pgd pgd' : List ℕ)
    : Type 0 where
  pub entries :
      (i : ℕ)
      → i < length frames
      → get_or pgd' (page + i) 0 ≡ set_pte (get_or pgd (page + i) 0) (get_or frames i 0)
  outside : (j : ℕ) → (j < page) ⊎ (page + length frames ≤ j) → get_or pgd' j 0 ≡ get_or pgd j 0
  pub size : length pgd' ≡ length pgd

map_loop-step :
    (set_pte : ℕ → ℕ → ℕ) (fpn : ℕ) (frames : List ℕ) (page : ℕ) (pgd fifo : List ℕ)
    → page < length pgd
    → map_loop set_pte (fpn ∷ frames) page pgd fifo
      ≡ map_loop set_pte frames
          (page + 1)
          (set pgd page (set_pte (get_or pgd page 0) fpn))
          ((page + 1) ∷ fifo)
unfolding map_loop
map_loop-step set_pte fpn frames page pgd fifo h = rw (lt→ltb page (length pgd) h) refl

pub map_loop-Stretch :
    (set_pte : ℕ → ℕ → ℕ) (frames : List ℕ) (page : ℕ) (pgd fifo : List ℕ)
    → page + length frames ≤ length pgd
    → (pgd' : List ℕ) × (map_loop set_pte frames page pgd fifo
        ≡ some (page + length frames, (pgd', back_onto (range (page + 1) (length frames)) fifo)))
      × Stretch set_pte frames page pgd pgd'
unfolding map_loop
map_loop-Stretch set_pte [] page pgd fifo h = (
  pgd,
  ap (λ n. some (n, (pgd, fifo))) (omega arith),
  record { entries = λ i k. absurd (omega arith); outside = λ j k. refl; size = refl },
)
map_loop-Stretch set_pte (fpn ∷ frames) page pgd fifo h =
    let v : ℕ = set_pte (get_or pgd page 0) fpn in
    let next : List ℕ = set pgd page v in
    let len : length next ≡ length pgd = length-set pgd page v in
    let (pgd', e, s) =
      map_loop-Stretch set_pte frames (page + 1) next ((page + 1) ∷ fifo) (omega arith) in
    (
      pgd',
      map_loop-step set_pte fpn frames page pgd fifo (omega arith)
          ∙ e
          ∙ ap
              (λ n.
                some
                  (n, (pgd', back_onto (range (page + 1 + 1) (length frames)) ((page + 1) ∷ fifo))))
              (omega arith),
      record {
        entries = entry pgd' s;
        outside = λ j k. s.outside j (wider j k) ∙ get_or-set_ne pgd page j v 0 (λ q. apart j k q);
        size = s.size ∙ len;
      },
    )
  where
    wider :
        (j : ℕ)
        → (j < page) ⊎ (page + suc (length frames) ≤ j)
        → (j < page + 1) ⊎ (page + 1 + length frames ≤ j)
    wider j (inl k) = inl (omega arith)
    wider j (inr k) = inr (omega arith)

    apart : (j : ℕ) → (j < page) ⊎ (page + suc (length frames) ≤ j) → page ≢ j
    apart j k = omega arith

    entry :
        (pgd' : List ℕ)
        → Stretch set_pte frames (page + 1) (set pgd page (set_pte (get_or pgd page 0) fpn)) pgd'
        → (i : ℕ) → i < suc (length frames)
        → get_or pgd' (page + i) 0 ≡ set_pte (get_or pgd (page + i) 0) (get_or (fpn ∷ frames) i 0)
    entry pgd' s zero k =
        let q : page + 0 ≡ page = omega arith in
        rw q (
          s.outside page (inl (omega arith))
          ∙ get_or-set_self pgd page (set_pte (get_or pgd page 0) fpn) 0 (omega arith))
    entry pgd' s (suc i) k =
        let q : page + suc i ≡ page + 1 + i = omega arith in
        rw q (
          s.entries i (omega arith)
          ∙ ap (λ t. set_pte t (get_or frames i 0))
              (get_or-set_ne pgd page (page + 1 + i) (set_pte (get_or pgd page 0) fpn) 0
                (omega arith)))

range-append : (i m n : ℕ) → range i m ++ range (i + m) n ≡ range i (m + n)
range-append i zero n =
    let q : i + 0 ≡ i = omega arith in let r : 0 + n ≡ n = omega arith in rw (q, r) refl
range-append i (suc m) n =
    let q : i + suc m ≡ i + 1 + m = omega arith in
    let r : suc m + n ≡ suc (m + n) = omega arith in
    rw (q, r) (ap (◌∷◌ i) (range-append (i + 1) m n))

back_onto-append : (a b m : List ℕ) → back_onto (a ++ b) m ≡ back_onto b (back_onto a m)
back_onto-append [] b m = refl
back_onto-append (x ∷ a) b m = back_onto-append a b (x ∷ m)

tracked_join :
    (page m n : ℕ) (fifo : List ℕ)
    → back_onto (range (page + m + 1) n) (back_onto (range (page + 1) m) fifo)
      ≡ back_onto (range (page + 1) (m + n)) fifo
tracked_join page m n fifo =
    let q : page + m + 1 ≡ page + 1 + m = omega arith in
    rw q (
      sym (back_onto-append (range (page + 1) m) (range (page + 1 + m) n) fifo)
      ∙ ap (λ l. back_onto l fifo) (range-append (page + 1) m n))

-- From `mm` to `out` the pages from `page` on got the frames in RAM, and the pages behind those got
-- the frames in swap. The pages listed for replacement are those from `page + 1` on.
pub record Mapped (mm : Mm) (page : ℕ) (frames swaps : List ℕ) (out : Mm) : Type 0 where
  pub online :
      (i : ℕ)
      → i < length frames
      → (paging_page_present (get_or out.pgd (page + i) 0) ≢ 0)
        × (paging_fpn (get_or out.pgd (page + i) 0) ≡ get_or frames i 0)
  pub swapped :
      (i : ℕ)
      → i < length swaps
      → (paging_page_present (get_or out.pgd (page + length frames + i) 0) ≡ 0)
        × (paging_swp (get_or out.pgd (page + length frames + i) 0) ≡ get_or swaps i 0)
  pub outside :
      (j : ℕ)
      → (j < page) ⊎ (page + length frames + length swaps ≤ j)
      → get_or out.pgd j 0 ≡ get_or mm.pgd j 0
  pub size : length out.pgd ≡ length mm.pgd
  pub listed :
      out.fifo_pgn ≡ back_onto (range (page + 1) (length frames + length swaps)) mm.fifo_pgn
  pub rest : out ≡ record mm { pgd = out.pgd; fifo_pgn = out.fifo_pgn }

-- Where the page table holds 32-bit words and has room for all the frames, those of RAM have numbers of
-- at most 13 bits and those of swap of at most 21 bits, the mapping ends well: page after page reads as
-- present with its frame in RAM, then as swapped out with its frame in swap, and no other entry
-- changes. The pages that it lists for replacement are each one too high: the first mapped page is
-- not among them, and the last of them is behind the mapped range.
pub vmap_page_range-Mapped :
    (mm : Mm) (addr : ℕ) (frames swaps : List ℕ)
    → ((i : ℕ) → get_or mm.pgd i 0 < 2 ^ 32)
    → ((i : ℕ) → get_or frames i 0 < 2 ^ 13)
    → ((i : ℕ) → get_or swaps i 0 < 2 ^ 21)
    → paging_pgn addr + length frames + length swaps ≤ length mm.pgd
    → (out : Mm) × (vmap_page_range mm addr frames swaps ≡ some out)
      × Mapped mm (paging_pgn addr) frames swaps out
unfolding vmap_page_range
vmap_page_range-Mapped mm addr frames swaps words narrow swap_narrow room =
    let page : ℕ = paging_pgn addr in
    let behind : ℕ = page + length frames in
    let listed : List ℕ = back_onto (range (page + 1) (length frames)) mm.fifo_pgn in
    let (pgd, e, s) = map_loop-Stretch pte_set_fpn frames page mm.pgd mm.fifo_pgn (omega arith) in
    let (pgd', e', s') =
      map_loop-Stretch (λ pte fpn. pte_set_swap pte 0 fpn) swaps behind pgd listed
        (omega (arith, s.size)) in
    (
      record mm { pgd = pgd'; fifo_pgn = back_onto (range (behind + 1) (length swaps)) listed },
      rw e (rw e' refl),
      record {
        online = λ i k.
            let q : get_or pgd' (page + i) 0
                ≡ pte_set_fpn (get_or mm.pgd (page + i) 0) (get_or frames i 0) =
              s'.outside (page + i) (inl (omega arith)) ∙ s.entries i k in
            let r =
              pte_set_fpn-reads (get_or mm.pgd (page + i) 0) (get_or frames i 0) (words (page + i))
                (narrow i) in
            rw q (r.0, r.1);
        swapped = λ i k.
            let q : get_or pgd' (behind + i) 0
                ≡ pte_set_swap (get_or mm.pgd (behind + i) 0) 0 (get_or swaps i 0) =
              s'.entries i k
              ∙ ap (λ t. pte_set_swap t 0 (get_or swaps i 0))
                  (s.outside (behind + i) (inr (omega arith))) in
            let r =
              pte_set_swap-reads (get_or mm.pgd (behind + i) 0) 0 (get_or swaps i 0)
                (words (behind + i)) (swap_narrow i) in
            rw q (r.0, r.1);
        outside = λ j k. s'.outside j (not_swapped j k) ∙ s.outside j (not_online j k);
        size = s'.size ∙ s.size;
        listed = tracked_join page (length frames) (length swaps) mm.fifo_pgn;
        rest = refl;
      },
    )
  where
    not_swapped :
        (j : ℕ)
        → (j < paging_pgn addr) ⊎ (paging_pgn addr + length frames + length swaps ≤ j)
        → (j < paging_pgn addr + length frames)
          ⊎ (paging_pgn addr + length frames + length swaps ≤ j)
    not_swapped j (inl k) = inl (omega arith)
    not_swapped j (inr k) = inr k

    not_online :
        (j : ℕ)
        → (j < paging_pgn addr) ⊎ (paging_pgn addr + length frames + length swaps ≤ j)
        → (j < paging_pgn addr) ⊎ (paging_pgn addr + length frames ≤ j)
    not_online j (inl k) = inl k
    not_online j (inr k) = inr (omega arith)
