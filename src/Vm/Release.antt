-- ===== src/Vm/Release.antt =====
-- `free_pcb_memph`: which frames go back to which device.
use operating_systems_simula.Prelude.{
  ℕ, suc, ◌+◌, ◌≤◌, ◌<◌, ◌≡◌, refl, sym, ◌∙◌, ap, inl, inr, some, List, [], ◌∷◌, map, arith, ◌==◌,
  if◌then◌else◌, Bool-cases, lt→ltb, length, get_or,
}
use operating_systems_simula.Pte.{paging_fpn, paging_swp, paging_page_present, paging_max_pgn}
use operating_systems_simula.Memphy.{put_freefp}
use operating_systems_simula.Vm.{Caller}
use operating_systems_simula.Vm.Grant.{back_onto}
use operating_systems_simula.Vm.Transfer.{release_loop, free_pcb_memph}

-- The entries of the pages that are not in RAM, and of those that are, in order.
pub absent : List ℕ → List ℕ
absent [] = []
absent (pte ∷ rest) = if paging_page_present pte == 0 then pte ∷ absent rest else absent rest

pub present : List ℕ → List ℕ
present [] = []
present (pte ∷ rest) = if paging_page_present pte == 0 then present rest else pte ∷ present rest

-- The devices after the entries `ptes` were gone through.
abbrev released : List ℕ → Caller → Caller
released ptes caller = record caller {
  mram = record (caller.mram) {
    free_fp_list = back_onto (map paging_fpn (absent ptes)) caller.mram.free_fp_list;
  };
  active_mswp = record (caller.active_mswp) {
    free_fp_list = back_onto (map paging_swp (present ptes)) caller.active_mswp.free_fp_list;
  };
}

-- `ptes` are the entries from `page` on.
abbrev From : ℕ → List ℕ → List ℕ → Type 0
From page ptes pgd = (i : ℕ) → i < length ptes → get_or pgd (page + i) 0 ≡ get_or ptes i 0

From-tail :
    (page pte : ℕ) (rest pgd : List ℕ) → From page (pte ∷ rest) pgd → From (page + 1) rest pgd
From-tail page pte rest pgd f i h =
    let q : page + 1 + i ≡ page + suc i = omega arith in rw q (f (suc i) (omega arith))

From-head :
    (page pte : ℕ) (rest pgd : List ℕ) → From page (pte ∷ rest) pgd → get_or pgd page 0 ≡ pte
From-head page pte rest pgd f =
    let q : page ≡ page + 0 = omega arith in ap (λ k. get_or pgd k 0) q ∙ f 0 (omega arith)

release_loop-released :
    (ptes : List ℕ) (page : ℕ) (caller : Caller)
    → page + length ptes ≤ length caller.mm.pgd
    → From page ptes caller.mm.pgd
    → release_loop (length ptes) page caller ≡ some (released ptes caller)
unfolding release_loop absent present put_freefp
release_loop-released [] page caller h f = refl
release_loop-released (pte ∷ rest) page caller h f =
    let e = From-head page pte rest caller.mm.pgd f in
    elim (Bool-cases (paging_page_present pte == 0)) [
      | inl out ↦
          rw (lt→ltb page (length caller.mm.pgd) (omega arith), e, out)
            (release_loop-released rest (page + 1)
              (record caller { mram = put_freefp caller.mram (paging_fpn pte) }) (omega arith)
              (From-tail page pte rest caller.mm.pgd f))
      | inr inside ↦
          rw (lt→ltb page (length caller.mm.pgd) (omega arith), e, inside)
            (release_loop-released rest (page + 1)
              (record caller { active_mswp = put_freefp caller.active_mswp (paging_swp pte) })
              (omega arith) (From-tail page pte rest caller.mm.pgd f))
    ]

-- `free_pcb_memph` on a whole page table gives RAM the frame numbers read from the entries of the pages
-- that are not in RAM, and swap the swap offsets read from those of the pages that are: no frame of RAM
-- that a page has goes back to RAM for that page. Nothing else changes.
pub free_pcb_memph-released :
    (caller : Caller)
    → length caller.mm.pgd ≡ paging_max_pgn
    → free_pcb_memph caller
      ≡ some (record caller {
        mram = record (caller.mram) {
          free_fp_list = back_onto (map paging_fpn (absent caller.mm.pgd)) caller.mram.free_fp_list;
        };
        active_mswp = record (caller.active_mswp) {
          free_fp_list =
              back_onto (map paging_swp (present caller.mm.pgd)) caller.active_mswp.free_fp_list;
        };
      })
unfolding free_pcb_memph
free_pcb_memph-released caller h =
    ap (λ n. release_loop n 0 caller) (sym h)
    ∙ release_loop-released caller.mm.pgd 0 caller (omega arith) start
  where
    start : From 0 caller.mm.pgd caller.mm.pgd
    start i k = ap (λ j. get_or caller.mm.pgd j 0) (omega arith)
