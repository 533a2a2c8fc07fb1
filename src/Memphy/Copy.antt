-- ===== src/Memphy/Copy.antt =====
-- `__swap_cp_page` of src/mm.c: the copy of one page between two devices.
use operating_systems_simula.Prelude.{
  ℕ, zero, suc, ◌+◌, ◌*◌, ◌≤◌, ◌<◌, ◌≡◌, ◌≢◌, refl, ◌∙◌, inl, inr, ◌⊎◌, arith, ℕ_discrete, length,
  get_or, set, length-set, get_or-set_self, get_or-set_ne,
}
use operating_systems_simula.Pte.{paging_pagesz}
use operating_systems_simula.Memphy.{Memphy, Outcome, ok, failed, fault, memphy_read, memphy_write}
use operating_systems_simula.Memphy.Access.{read_in_range, write_in_range}

-- `for (cellidx = 0; cellidx < PAGING_PAGESZ; cellidx++)`, by the rounds left. The return values are
-- not looked at: a write that fails changes nothing, after a read that fails `data` is undefined.
unfoldable pub copy_loop : ℕ → ℕ → Memphy → ℕ → Memphy → ℕ → Outcome (Memphy × Memphy)
copy_loop zero cellidx src srcfpn dst dstfpn = ok (src, dst)
copy_loop (suc n) cellidx src srcfpn dst dstfpn =
    elim (memphy_read src (srcfpn * paging_pagesz + cellidx)) [
      | ok (src', byte) ↦ elim (memphy_write dst (dstfpn * paging_pagesz + cellidx) byte) [
        | ok dst' ↦ copy_loop n (cellidx + 1) src' srcfpn dst' dstfpn
        | failed ↦ copy_loop n (cellidx + 1) src' srcfpn dst dstfpn
        | fault ↦ fault
      ]
      | failed ↦ fault
      | fault ↦ fault
    ]

unfoldable pub swap_cp_page : Memphy → ℕ → Memphy → ℕ → Outcome (Memphy × Memphy)
unfolding copy_loop
swap_cp_page src srcfpn dst dstfpn = copy_loop paging_pagesz 0 src srcfpn dst dstfpn

-- The cells `lo` to `hi` of the page at `dstfpn` are those of the page at `srcfpn`, and nothing else
-- has changed from `dst` to `out`.
pub record Copied (src : Memphy) (srcfpn : ℕ) (dst : Memphy) (dstfpn lo hi : ℕ) (out : Memphy)
    : Type 0 where
  pub same :
      (i : ℕ)
      → lo ≤ i
      → i < hi
      → get_or out.storage (dstfpn * paging_pagesz + i) 0
        ≡ get_or src.storage (srcfpn * paging_pagesz + i) 0
  pub outside :
      (a : ℕ)
      → (a < dstfpn * paging_pagesz + lo) ⊎ (dstfpn * paging_pagesz + hi ≤ a)
      → get_or out.storage a 0 ≡ get_or dst.storage a 0
  pub size : length out.storage ≡ length dst.storage
  pub rest : out ≡ record dst { storage = out.storage }

copy_loop-step :
    (n c : ℕ) (src : Memphy) (srcfpn : ℕ) (dst : Memphy) (dstfpn byte : ℕ) (next : Memphy)
    → memphy_read src (srcfpn * paging_pagesz + c) ≡ ok (src, byte)
    → memphy_write dst (dstfpn * paging_pagesz + c) byte ≡ ok next
    → copy_loop (suc n) c src srcfpn dst dstfpn ≡ copy_loop n (c + 1) src srcfpn next dstfpn
unfolding copy_loop
copy_loop-step n c src srcfpn dst dstfpn byte next e w = rw (e, copy_loop) (rw (w, copy_loop))

module _ (src : Memphy) (srcfpn dstfpn : ℕ) (src_random : src.rdmflg ≢ 0) where
  loop-Copied :
      (n c hi : ℕ) (dst : Memphy)
      → dst.rdmflg ≢ 0
      → c + n ≡ hi
      → srcfpn * paging_pagesz + hi ≤ length src.storage
      → dstfpn * paging_pagesz + hi ≤ length dst.storage
      → (out : Memphy) × (copy_loop n c src srcfpn dst dstfpn ≡ ok (src, out))
        × Copied src srcfpn dst dstfpn c hi out
  unfolding copy_loop
  loop-Copied zero c hi dst random e hs hd = (
    dst,
    refl,
    record {
      same = λ i a b. absurd (omega arith);
      outside = λ a h. refl;
      size = refl;
      rest = refl;
    },
  )
  loop-Copied (suc n) c hi dst random e hs hd =
      let at : ℕ = dstfpn * paging_pagesz + c in
      let byte : ℕ = get_or src.storage (srcfpn * paging_pagesz + c) 0 in
      let next : Memphy = record dst { storage = set dst.storage at byte } in
      let len : length next.storage ≡ length dst.storage = length-set dst.storage at byte in
      let (out, run, copied) =
        loop-Copied n (c + 1) hi next random (omega arith) hs (omega arith) in
      (
        out,
        copy_loop-step n c src srcfpn dst dstfpn byte next
              (read_in_range src src_random (srcfpn * paging_pagesz + c) (omega arith))
              (write_in_range dst random at byte (omega arith))
            ∙ run,
        record {
          same = λ i a b. elim (ℕ_discrete c i) [
            | yes eq ↦ rw (← eq) (
                copied.outside at (inl (omega arith))
                ∙ get_or-set_self dst.storage at byte 0 (omega arith))
            | no ne ↦ copied.same i (omega arith) b
          ];
          outside = λ a h.
              copied.outside a (wider a h)
              ∙ get_or-set_ne dst.storage at a byte 0 (λ eq. apart a h eq);
          size = copied.size ∙ len;
          rest = copied.rest;
        },
      )
    where
      wider :
          (a : ℕ)
          → (a < dstfpn * paging_pagesz + c) ⊎ (dstfpn * paging_pagesz + hi ≤ a)
          → (a < dstfpn * paging_pagesz + (c + 1)) ⊎ (dstfpn * paging_pagesz + hi ≤ a)
      wider a (inl h) = inl (omega arith)
      wider a (inr h) = inr h

      apart :
          (a : ℕ)
          → (a < dstfpn * paging_pagesz + c) ⊎ (dstfpn * paging_pagesz + hi ≤ a)
          → dstfpn * paging_pagesz + c ≢ a
      apart a h = omega arith

-- Between random access devices that hold both pages, the copy ends without a fault: all 256 cells
-- of the destination page are those of the source page, and nothing else of either device changes.
pub swap_cp_page-Copied :
    (src : Memphy) (srcfpn : ℕ) (dst : Memphy) (dstfpn : ℕ)
    → src.rdmflg ≢ 0
    → dst.rdmflg ≢ 0
    → srcfpn * paging_pagesz + paging_pagesz ≤ length src.storage
    → dstfpn * paging_pagesz + paging_pagesz ≤ length dst.storage
    → (out : Memphy) × (swap_cp_page src srcfpn dst dstfpn ≡ ok (src, out))
      × Copied src srcfpn dst dstfpn 0 paging_pagesz out
unfolding swap_cp_page
swap_cp_page-Copied src srcfpn dst dstfpn rs rd hs hd =
    loop-Copied src srcfpn dstfpn rs paging_pagesz 0 paging_pagesz dst rd refl hs hd
