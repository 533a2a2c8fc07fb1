-- ===== src/Vm/PrintTable.antt =====
-- `print_pgtbl` of src/mm.c: the rows that it prints, each with its place in bytes and its entry.
mod Tests
use operating_systems_simula.Prelude.{
  ℕ, zero, suc, ◌+◌, ◌-◌, ◌*◌, ◌/◌, ◌%◌, ◌^◌, ◌≤◌, ◌<◌, ◌≡◌, refl, sym, ◌∙◌, ap, Option, none, some,
  List, [], ◌∷◌, arith, length, get_or, take, ltb, ◌==◌, if◌then◌else◌, ◌>>=◌, lt→ltb,
}
use operating_systems_simula.Pte.{paging_pgn, paging_max_pgn}
use operating_systems_simula.Pte.Laws.{paging_pgn_lem}
use operating_systems_simula.Vm.{VmArea, Mm, Caller}
use operating_systems_simula.Vm.Paging.{get_vma_by_num}
use operating_systems_simula.Vm.Grow.{pages_up, Area, get_vma_by_num-first}
use operating_systems_simula.Vm.Regular.{Regular}

abbrev pub cons_row : ℕ × ℕ → Option (List (ℕ × ℕ)) → Option (List (ℕ × ℕ))
cons_row r rows = rows >>= λ rs. some (r ∷ rs)

-- The loop, by the rounds left and `pgit`. An entry behind the table is undefined: `none`.
unfoldable pub print_rows : ℕ → ℕ → List ℕ → Option (List (ℕ × ℕ))
print_rows zero pgit pgd = some []
print_rows (suc n) pgit pgd =
    let rest = print_rows n (pgit + 1) pgd in
    if ltb pgit (length pgd) then cons_row (pgit * 4, get_or pgd pgit 0) rest else none

-- `end` is an `uint32_t`, and -1 stands for the end of the first area.
unfoldable pub table_end : Mm → ℕ → Option ℕ
table_end mm end =
    if end == 2 ^ 32 - 1
    then (get_vma_by_num mm 0 >>= λ cur_vma. some (cur_vma.vm_end % 2 ^ 32))
    else some end

-- `caller` is used before it is compared with NULL.
unfoldable pub print_pgtbl : Caller → ℕ → ℕ → Option (List (ℕ × ℕ))
unfolding print_rows table_end
print_pgtbl caller start end = table_end caller.mm end >>= λ last.
    print_rows (paging_pgn last - paging_pgn start) (paging_pgn start) caller.mm.pgd

-- The entries with their places, from entry `i` on.
unfoldable pub numbered : ℕ → List ℕ → List (ℕ × ℕ)
numbered i [] = []
numbered i (pte ∷ ptes) = (i * 4, pte) ∷ numbered (i + 1) ptes

-- The table behind its first `i` entries.
abbrev pub drop : ℕ → List ℕ → List ℕ
drop zero xs = xs
drop (suc i) [] = []
drop (suc i) (x ∷ xs) = drop i xs

drop-cons : (i : ℕ) (xs : List ℕ) → i < length xs → drop i xs ≡ get_or xs i 0 ∷ drop (i + 1) xs
drop-cons i [] h = absurd (omega arith)
drop-cons zero (x ∷ xs) h = refl
drop-cons (suc i) (x ∷ xs) h =
    let e : suc i + 1 ≡ suc (i + 1) = omega arith in rw e (drop-cons i xs (omega arith))

print_rows-numbered :
    (n i : ℕ) (pgd : List ℕ)
    → i + n ≤ length pgd
    → print_rows n i pgd ≡ some (take n (numbered i (drop i pgd)))
unfolding print_rows numbered
print_rows-numbered zero i pgd h = refl
print_rows-numbered (suc n) i pgd h =
    rw
      (
        lt→ltb i (length pgd) (omega arith),
        print_rows-numbered n (i + 1) pgd (omega arith),
        drop-cons i pgd (omega arith),
      )
      refl

-- The rows up to the page of the end of the area.
printed_to :
    (caller : Caller) (vma : VmArea) (more : List VmArea) (pages : ℕ)
    → Area caller vma more
    → pages ≤ paging_max_pgn
    → paging_pgn (vma.vm_end % 2 ^ 32) ≡ pages
    → print_pgtbl caller 0 (2 ^ 32 - 1) ≡ some (take pages (numbered 0 caller.mm.pgd))
unfolding print_pgtbl table_end
printed_to caller vma more pages area few last =
    let from_zero : paging_pgn 0 ≡ 0 = paging_pgn_lem 0 (omega arith) in
    let whole : pages - 0 ≡ pages = omega arith in
    rw
      (
        print_pgtbl,
        table_end,
        get_vma_by_num-first caller.mm vma more area.first,
        last,
        from_zero,
        whole,
      )
      (print_rows-numbered pages 0 caller.mm.pgd (omega (arith, area.table)))

-- Of a regular process `print_pgtbl(proc, 0, -1)` finds the area, stays inside the
-- table and prints the entries of the pages up to the break, in their order; only where these are all
-- pages of the bus it prints none, since the end then has page number 0.
pub print_pgtbl-numbered :
    (caller : Caller) (vma : VmArea) (more : List VmArea)
    → Regular caller vma more
    → (pages_up vma.sbrk < paging_max_pgn
        → print_pgtbl caller 0 (2 ^ 32 - 1)
          ≡ some (take (pages_up vma.sbrk) (numbered 0 caller.mm.pgd)))
      × (pages_up vma.sbrk ≡ paging_max_pgn → print_pgtbl caller 0 (2 ^ 32 - 1) ≡ some [])
print_pgtbl-numbered caller vma more r =
    let last = paging_pgn_lem (vma.vm_end % 2 ^ 32) (omega arith) in
    (
      λ h.
          printed_to caller vma more (pages_up vma.sbrk) r.area (omega arith)
            (omega (arith, last, r.area.aligned)),
      λ h.
          printed_to caller vma more 0 r.area (omega arith)
            (omega (arith, last, r.area.aligned, h)),
    )
