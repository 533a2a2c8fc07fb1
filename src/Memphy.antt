-- ===== src/Memphy.antt =====
-- src/mm-memphy.c: the physical memories, RAM and swap, with their lists of frames.
-- A call runs as one step: `lock_mem` guards the lists, and no function holds it across another. Only
-- `MEMPHY_put_freefp` does not take it.
-- Every caller passes the address of a device, so the tests for NULL have no branch here.
pub mod Access
pub mod Frames
pub mod Copy
pub mod Dump
mod Tests
use operating_systems_simula.Prelude.{
  ℕ, zero, suc, ◌+◌, ◌*◌, ◌/◌, ◌%◌, ◌^◌, Bool, true, false, ◌&&◌, Option, none, some, List, [], ◌∷◌,
  ◌++◌, ltb, ◌==◌, if◌then◌else◌, length, get_or, set, ◌-◌,
}
use operating_systems_simula.Pte.{paging_pagesz}

-- `struct memphy_struct`. A frame list is the list of its frame numbers; `owner` is never read.
pub record Memphy : Type 0 where
  pub storage : List ℕ
  pub maxsz : ℕ
  pub rdmflg : ℕ
  pub cursor : ℕ
  pub free_fp_list : List ℕ
  pub used_fp_list : List ℕ

-- The `while` loop of `MEMPHY_mv_csr`, on fuel. `Access.mv_csr-cursor` shows that `maxsz` suffices.
unfoldable pub mv_loop : ℕ → ℕ → ℕ → ℕ → ℕ → ℕ
mv_loop zero offset maxsz numstep cursor = cursor
mv_loop (suc fuel) offset maxsz numstep cursor =
    let rest = mv_loop fuel offset maxsz (numstep + 1) ((cursor + 1) % maxsz) in
    if ltb numstep offset && ltb numstep maxsz then rest else cursor

unfoldable pub mv_csr : Memphy → ℕ → Memphy
unfolding mv_loop
mv_csr mp offset = record mp { cursor = mv_loop mp.maxsz offset mp.maxsz 0 0 }

-- What a read or a write does: it returns 0 with a value, or -1; outside `storage` it is undefined.
pub data Outcome {ℓ} (A : Type ℓ) : Type ℓ where
  ok : A → Outcome A
  failed : Outcome A
  fault : Outcome A

abbrev pub storage_get : Memphy → ℕ → Outcome ℕ
storage_get mp addr = if ltb addr (length mp.storage) then ok (get_or mp.storage addr 0) else fault

abbrev pub storage_set : Memphy → ℕ → ℕ → Outcome Memphy
storage_set mp addr value =
    if ltb addr (length mp.storage)
    then ok (record mp { storage = set mp.storage addr value })
    else fault

abbrev pub with_device : Memphy → Outcome ℕ → Outcome (Memphy × ℕ)
with_device mp (ok v) = ok (mp, v)
with_device mp failed = failed
with_device mp fault = fault

unfoldable pub seq_read : Memphy → ℕ → Outcome (Memphy × ℕ)
unfolding mv_csr
seq_read mp addr =
    if mp.rdmflg == 0
    then failed
    else let moved = mv_csr mp addr in with_device moved (storage_get moved addr)

unfoldable pub memphy_read : Memphy → ℕ → Outcome (Memphy × ℕ)
unfolding seq_read
memphy_read mp addr =
    if mp.rdmflg == 0 then seq_read mp addr else with_device mp (storage_get mp addr)

unfoldable pub seq_write : Memphy → ℕ → ℕ → Outcome Memphy
unfolding mv_csr
seq_write mp addr value = if mp.rdmflg == 0 then failed else storage_set (mv_csr mp addr) addr value

unfoldable pub memphy_write : Memphy → ℕ → ℕ → Outcome Memphy
unfolding seq_write
memphy_write mp addr value =
    if mp.rdmflg == 0 then seq_write mp addr value else storage_set mp addr value

-- `for (iter = 1; iter < numfp; iter++)`, by the rounds left: each turn hangs a new last node.
unfoldable pub format_loop : ℕ → ℕ → List ℕ → List ℕ
format_loop zero iter fps = fps
format_loop (suc n) iter fps = format_loop n (iter + 1) (fps ++ (iter ∷ []))

-- `maxsz / pagesz` of two `int`s, of which only the sign matters where `maxsz` is negative: no frame.
abbrev pub frames_of : ℕ → ℕ → ℕ
frames_of maxsz pagesz = if ltb maxsz (2 ^ 31) then maxsz / pagesz else 0

-- The first node's `fp_next` is set by the first turn of the loop only. With one frame it keeps
-- what `malloc` left there: `garbage` is the list that this pointer leads to. With no frame
-- `free_fp_list` itself stays as it was, and the return is -1 (`false`).
unfoldable pub memphy_format : List ℕ → Memphy → ℕ → Bool × Memphy
unfolding format_loop
memphy_format garbage mp pagesz =
    let numfp = frames_of mp.maxsz pagesz in
    if numfp == 0
    then (false, mp)
    else if numfp == 1
    then (true, record mp { free_fp_list = 0 ∷ garbage })
    else (true, record mp { free_fp_list = format_loop (numfp - 1) 1 (0 ∷ []) })

-- 0 and the frame, or -1 (`none`) on an empty list.
unfoldable pub get_freefp : Memphy → Option (ℕ × Memphy)
get_freefp mp = elim (mp.free_fp_list) [
  | [] ↦ none
  | fpn ∷ rest ↦ some (fpn, record mp { free_fp_list = rest })
]

unfoldable pub put_freefp : Memphy → ℕ → Memphy
put_freefp mp fpn = record mp { free_fp_list = fpn ∷ mp.free_fp_list }

unfoldable pub put_usedfp : Memphy → ℕ → Memphy
put_usedfp mp fpn = record mp { used_fp_list = fpn ∷ mp.used_fp_list }

-- `before` is the device before the call, `memory` what `malloc` returned for `storage`. The result
-- of `MEMPHY_format` is not looked at.
unfoldable pub init_memphy : List ℕ → List ℕ → Memphy → ℕ → ℕ → Memphy
unfolding memphy_format
init_memphy garbage memory before max_size randomflg =
    let sized = record before { storage = memory; maxsz = max_size; used_fp_list = [] } in
    let formatted = (memphy_format garbage sized paging_pagesz).1 in
    let flag : ℕ = if randomflg == 0 then 0 else 1 in
    record formatted { rdmflg = flag; cursor = if flag == 0 then 0 else formatted.cursor }
