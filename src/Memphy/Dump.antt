-- ===== src/Memphy/Dump.antt =====
-- `MEMPHY_dump` of src/mm-memphy.c: what it writes into its file, which can be opened.
mod Tests
use mathlib.Core.List.{append_assoc}
use operating_systems_simula.Prelude.{
  ℕ, zero, suc, ◌+◌, ◌*◌, ◌%◌, ◌≤◌, ◌<◌, ◌≡◌, refl, sym, ◌∙◌, ap, List, [], ◌∷◌, ◌++◌, arith,
  length, get_or, ltb, ◌==◌, if◌then◌else◌, lt→ltb, eq→==, ne→==,
}
use operating_systems_simula.Pte.{paging_pagesz}
use operating_systems_simula.Memphy.{Memphy, Outcome, ok, failed, fault, storage_get}

-- A head line with a frame, the end of a line, or a cell.
pub data Out : Type 0 where
  frame : ℕ → Out
  newline : Out
  cell : ℕ → Out

abbrev pub prepend : List Out → Outcome (List Out) → Outcome (List Out)
prepend out (ok rest) = ok (out ++ rest)
prepend out failed = failed
prepend out fault = fault

-- The body of the inner loop at `off`, with the value that is read and what follows.
abbrev pub put_cell : ℕ → Outcome ℕ → Outcome (List Out) → Outcome (List Out)
put_cell off (ok v) rest =
    prepend (if off % 32 == 0 then newline ∷ cell v ∷ [] else cell v ∷ []) rest
put_cell off failed rest = failed
put_cell off fault rest = fault

-- `for (int off = 0; off < PAGING_PAGESZ; ++off)`, by the rounds left and `off`.
unfoldable pub dump_cells : ℕ → ℕ → Memphy → ℕ → Outcome (List Out)
dump_cells zero off mp fpn = ok []
dump_cells (suc n) off mp fpn =
    put_cell off (storage_get mp (fpn * paging_pagesz + off)) (dump_cells n (off + 1) mp fpn)

abbrev pub put_frame : ℕ → Outcome (List Out) → Outcome (List Out) → Outcome (List Out)
put_frame fpn (ok cells) rest = prepend (frame fpn ∷ (cells ++ (newline ∷ []))) rest
put_frame fpn failed rest = failed
put_frame fpn fault rest = fault

-- The loop over the list of used frames.
unfoldable pub dump_frames : List ℕ → Memphy → Outcome (List Out)
dump_frames [] mp = ok []
dump_frames (fpn ∷ fps) mp = put_frame fpn (dump_cells paging_pagesz 0 mp fpn) (dump_frames fps mp)

unfoldable pub memphy_dump : Memphy → Outcome (List Out)
unfolding dump_frames
memphy_dump mp = dump_frames mp.used_fp_list mp

-- `n` cells from `addr` on, and `n` lines of 32 cells.
unfoldable pub row : List ℕ → ℕ → ℕ → List Out
row st zero addr = []
row st (suc n) addr = cell (get_or st addr 0) ∷ row st n (addr + 1)

unfoldable pub rows : List ℕ → ℕ → ℕ → List Out
rows st zero addr = []
rows st (suc n) addr = newline ∷ (row st 32 addr ++ rows st n (addr + 32))

-- What stands in the file: for each frame its number, its eight lines, and the end of the last.
unfoldable pub text_of : List ℕ → List ℕ → List Out
text_of st [] = []
text_of st (fpn ∷ fps) = frame fpn ∷ ((rows st 8 (fpn * 256) ++ (newline ∷ [])) ++ text_of st fps)

unfoldable pub AreInside : List ℕ → List ℕ → Type 0
AreInside st [] = Unit {0}
AreInside st (fpn ∷ fps) = (fpn * 256 + 256 ≤ length st) × AreInside st fps

module _ (mp : Memphy) (fpn : ℕ) where
  inside-ok :
      (addr : ℕ) → addr < length mp.storage → storage_get mp addr ≡ ok (get_or mp.storage addr 0)
  inside-ok addr h = rw (lt→ltb addr (length mp.storage) h) refl

  prepend-prepend :
      (xs ys : List Out) (o : Outcome (List Out)) → prepend xs (prepend ys o) ≡ prepend (xs ++ ys) o
  prepend-prepend xs ys (ok zs) = ap ok (sym (append_assoc xs ys zs))
  prepend-prepend xs ys failed = refl
  prepend-prepend xs ys fault = refl

  prepend-nil : (o : Outcome (List Out)) → prepend [] o ≡ o
  prepend-nil (ok out) = refl
  prepend-nil failed = refl
  prepend-nil fault = refl

  -- The rest of a line.
  cells-row :
      (k n off : ℕ)
      → k < 32
      → (off + k) % 32 ≡ 0
      → fpn * 256 + off + k ≤ length mp.storage
      → dump_cells (k + n) off mp fpn
        ≡ prepend (row mp.storage k (fpn * 256 + off)) (dump_cells n (off + k) mp fpn)
  unfolding dump_cells row
  cells-row zero n off h e b =
      let same : off + 0 ≡ off = omega arith in
      let n' : 0 + n ≡ n = omega arith in
      rw (same, n') (sym (prepend-nil (dump_cells n off mp fpn)))
  cells-row (suc k) n off h e b =
      let more : suc k + n ≡ suc (k + n) = omega arith in
      let next : fpn * 256 + off + 1 ≡ fpn * 256 + (off + 1) = omega arith in
      let end : off + suc k ≡ off + 1 + k = omega arith in
      let v : ℕ = get_or mp.storage (fpn * 256 + off) 0 in
      rw
        (
          more,
          inside-ok (fpn * 256 + off) (omega arith),
          ne→== (off % 32) 0 (omega arith),
          cells-row k n (off + 1) (omega arith) (omega (arith, end, e)) (omega arith),
          next,
          end,
        )
        (prepend-prepend (cell v ∷ []) (row mp.storage k (fpn * 256 + (off + 1)))
          (dump_cells n (off + 1 + k) mp fpn))

  -- A line, from its start.
  cells-line :
      (k n off : ℕ)
      → k < 32
      → off % 32 ≡ 0
      → (off + suc k) % 32 ≡ 0
      → fpn * 256 + off + suc k ≤ length mp.storage
      → dump_cells (suc k + n) off mp fpn
        ≡ prepend
            (newline ∷ row mp.storage (suc k) (fpn * 256 + off))
            (dump_cells n (off + suc k) mp fpn)
  unfolding dump_cells row
  cells-line k n off h start e b =
      let more : suc k + n ≡ suc (k + n) = omega arith in
      let next : fpn * 256 + off + 1 ≡ fpn * 256 + (off + 1) = omega arith in
      let end : off + suc k ≡ off + 1 + k = omega arith in
      let v : ℕ = get_or mp.storage (fpn * 256 + off) 0 in
      rw
        (
          more,
          inside-ok (fpn * 256 + off) (omega arith),
          eq→== (off % 32) 0 start,
          cells-row k n (off + 1) h (omega (arith, end, e)) (omega arith),
          next,
          end,
        )
        (prepend-prepend (newline ∷ cell v ∷ []) (row mp.storage k (fpn * 256 + (off + 1)))
          (dump_cells n (off + 1 + k) mp fpn))

  cells-rows :
      (m off : ℕ)
      → off % 32 ≡ 0
      → fpn * 256 + off + m * 32 ≤ length mp.storage
      → dump_cells (m * 32) off mp fpn ≡ ok (rows mp.storage m (fpn * 256 + off))
  unfolding dump_cells rows
  cells-rows zero off e b = refl
  cells-rows (suc m) off e b =
      let more : suc m * 32 ≡ 32 + m * 32 = omega arith in
      let next : fpn * 256 + off + 32 ≡ fpn * 256 + (off + 32) = omega arith in
      rw
        (
          more,
          cells-line 31 (m * 32) off (omega arith) e (omega arith) (omega arith),
          cells-rows m (off + 32) (omega (arith, e)) (omega arith),
          next,
        )
        refl

dump_frames-text_of :
    (mp : Memphy) (fps : List ℕ)
    → AreInside mp.storage fps
    → dump_frames fps mp ≡ ok (text_of mp.storage fps)
unfolding dump_frames text_of AreInside
dump_frames-text_of mp [] v = refl
dump_frames-text_of mp (fpn ∷ fps) v =
    let first : fpn * 256 + 0 ≡ fpn * 256 = omega arith in
    ap (λ o. put_frame fpn o (dump_frames fps mp))
      (cells-rows mp fpn 8 0 refl (omega (arith, v.0)) ∙ ap (λ a. ok (rows mp.storage 8 a)) first)
    ∙ ap (λ o. put_frame fpn (ok (rows mp.storage 8 (fpn * 256))) o)
        (dump_frames-text_of mp fps v.1)

-- The dump of a device whose used frames lie in its storage writes, for each frame in the order of the
-- list, its number and its 256 cells in eight lines of 32.
pub memphy_dump-text_of :
    (mp : Memphy)
    → AreInside mp.storage mp.used_fp_list
    → memphy_dump mp ≡ ok (text_of mp.storage mp.used_fp_list)
unfolding memphy_dump
memphy_dump-text_of mp v = dump_frames-text_of mp mp.used_fp_list v
