-- ===== src/Memphy/Frames.antt =====
-- The free and used frames of a device.
use operating_systems_simula.Prelude.{
  lt→ltb, ◌^◌, ◌<◌, ℕ, zero, suc, ◌+◌, ◌-◌, ◌/◌, ◌≤◌, ◌<◌, ◌≡◌, ◌≢◌, refl, sym, ◌∙◌, ap, true,
  false, some, List, [], ◌∷◌, ◌++◌, arith, eq→==, ne→==, length,
}
use mathlib.Core.List.{append-nil, append_assoc}
use operating_systems_simula.Pte.{paging_pagesz}
use operating_systems_simula.Memphy.{
  Memphy, format_loop, memphy_format, get_freefp, put_freefp, init_memphy,
}

-- The numbers from `i` on, `n` of them.
abbrev pub range : ℕ → ℕ → List ℕ
range i zero = []
range i (suc n) = i ∷ range (i + 1) n

pub length-range : (i n : ℕ) → length (range i n) ≡ n
length-range i zero = refl
length-range i (suc n) = ap suc (length-range (i + 1) n)

format_loop-range : (n i : ℕ) (fps : List ℕ) → format_loop n i fps ≡ fps ++ range i n
unfolding format_loop
format_loop-range zero i fps = sym (append-nil fps)
format_loop-range (suc n) i fps =
    format_loop-range n (i + 1) (fps ++ (i ∷ [])) ∙ append_assoc fps (i ∷ []) (range (i + 1) n)

-- A device of at least two pages is formatted to the free list of all its frames in order; nothing
-- else of it changes.
pub memphy_format-range :
    (garbage : List ℕ) (mp : Memphy)
    → mp.maxsz < 2 ^ 31
    → 2 ≤ mp.maxsz / paging_pagesz
    → memphy_format garbage mp paging_pagesz
      ≡ (true, record mp { free_fp_list = range 0 (mp.maxsz / paging_pagesz) })
unfolding memphy_format
memphy_format-range garbage mp word h =
    let n : ℕ = mp.maxsz / paging_pagesz in
    let e : n ≡ suc (n - 1) = omega arith in
    rw
      (
        lt→ltb mp.maxsz (2 ^ 31) word,
        ne→== n 0 (omega arith),
        ne→== n 1 (omega arith),
        format_loop-range (n - 1) 1 (0 ∷ []),
      )
      (ap (λ k. (true, record mp { free_fp_list = range 0 k })) (sym e))

-- A device of exactly one page is formatted to frame 0, followed by whatever the uninitialised
-- `fp_next` of its node leads to.
pub memphy_format-one :
    (garbage : List ℕ) (mp : Memphy)
    → mp.maxsz < 2 ^ 31
    → mp.maxsz / paging_pagesz ≡ 1
    → memphy_format garbage mp paging_pagesz ≡ (true, record mp { free_fp_list = 0 ∷ garbage })
unfolding memphy_format
memphy_format-one garbage mp word e = rw (
  lt→ltb mp.maxsz (2 ^ 31) word,
  ne→== (mp.maxsz / paging_pagesz) 0 (omega arith),
  eq→== (mp.maxsz / paging_pagesz) 1 e,
)

-- A device below one page is refused, with its free list as it was.
pub memphy_format-none :
    (garbage : List ℕ) (mp : Memphy)
    → mp.maxsz < paging_pagesz
    → memphy_format garbage mp paging_pagesz ≡ (false, mp)
unfolding memphy_format
memphy_format-none garbage mp h =
    rw (lt→ltb mp.maxsz (2 ^ 31) (omega arith), eq→== (mp.maxsz / paging_pagesz) 0 (omega arith))

-- `MEMPHY_get_freefp` takes back what `MEMPHY_put_freefp` gave last.
pub get_freefp-put_freefp :
    (mp : Memphy) (fpn : ℕ) → get_freefp (put_freefp mp fpn) ≡ some (fpn, mp)
unfolding get_freefp put_freefp
get_freefp-put_freefp mp fpn = refl

-- `init_memphy` makes a device of the given size, of the kind asked for, with no used frame and,
-- from two pages on, with every frame free.
pub init_memphy_lem :
    (garbage memory : List ℕ) (before : Memphy) (max_size flag : ℕ)
    → max_size < 2 ^ 31
    → 2 ≤ max_size / paging_pagesz
    → flag ≢ 0
    → init_memphy garbage memory before max_size flag ≡ record before {
      storage = memory;
      maxsz = max_size;
      rdmflg = 1;
      free_fp_list = range 0 (max_size / paging_pagesz);
      used_fp_list = [];
    }
unfolding init_memphy
init_memphy_lem garbage memory before max_size flag word h random = rw (
  memphy_format-range garbage
      (record before { storage = memory; maxsz = max_size; used_fp_list = [] }) word h,
  ne→== flag 0 random,
)
