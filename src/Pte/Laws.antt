-- ===== src/Pte/Laws.antt =====
-- What the PTE functions of src/mm.c do to an entry, as arithmetic on the 32-bit word.
use operating_systems_simula.Prelude.{
  ℕ, zero, suc, ◌+◌, ◌*◌, ◌/◌, ◌%◌, ◌^◌, ◌<◌, ◌≡◌, refl, ◌∙◌, arith, bit_or,
}
use operating_systems_simula.Bits.{set_bit, clr_bit, set_val}
use operating_systems_simula.Bits.Fields.{
  clr_bit-word, set_bit-word, set_val-word, get_val-word, bit_and-word_mask,
}
use operating_systems_simula.Pte.{
  paging_pte_present_mask, paging_pte_swapped_mask, paging_pte_dirty_mask, paging_pte_fpn_mask,
  paging_pte_swptyp_mask, paging_pte_swpoff_mask, paging_page_present, paging_fpn, paging_swp,
  paging_offst, paging_pgn, pte_set_swap, pte_set_fpn,
}

bit_or-one : (m : ℕ) → m < 2 → bit_or m 1 ≡ 1
bit_or-one zero h = refl
bit_or-one (suc zero) h = refl
bit_or-one (suc (suc m)) h = absurd (omega arith)

-- The operators on the fields of an entry, each an equation of numbers.
module _ (x : ℕ) (range : x < 2 ^ 32) where
  set_present : set_bit x paging_pte_present_mask ≡ 2 ^ 31 + x % 2 ^ 31
  set_present =
      set_bit-word 31 1 0 paging_pte_present_mask 0 (x / 2 ^ 31) (x % 2 ^ 31) x (omega arith)
        (omega arith) (omega arith) (bit_or-one (x / 2 ^ 31) (omega arith))
      ∙ omega arith

  clr_present : clr_bit x paging_pte_present_mask ≡ x % 2 ^ 31
  clr_present =
      clr_bit-word 31 1 0 paging_pte_present_mask 0 (x / 2 ^ 31) (x % 2 ^ 31) x (omega arith)
        (omega arith) (omega arith)
      ∙ omega arith

  set_swapped : set_bit x paging_pte_swapped_mask ≡ x / 2 ^ 31 * 2 ^ 31 + 2 ^ 30 + x % 2 ^ 30
  set_swapped =
      set_bit-word 30 1 1 paging_pte_swapped_mask (x / 2 ^ 31) (x / 2 ^ 30 % 2) (x % 2 ^ 30) x
        (omega arith) (omega arith) (omega arith) (bit_or-one (x / 2 ^ 30 % 2) (omega arith))
      ∙ omega arith

  clr_swapped : clr_bit x paging_pte_swapped_mask ≡ x / 2 ^ 31 * 2 ^ 31 + x % 2 ^ 30
  clr_swapped =
      clr_bit-word 30 1 1 paging_pte_swapped_mask (x / 2 ^ 31) (x / 2 ^ 30 % 2) (x % 2 ^ 30) x
        (omega arith) (omega arith) (omega arith)
      ∙ omega arith

  clr_dirty : clr_bit x paging_pte_dirty_mask ≡ x / 2 ^ 29 * 2 ^ 29 + x % 2 ^ 28
  clr_dirty =
      clr_bit-word 28 1 3 paging_pte_dirty_mask (x / 2 ^ 29) (x / 2 ^ 28 % 2) (x % 2 ^ 28) x
        (omega arith) (omega arith) (omega arith)
      ∙ omega arith

  set_fpn : (fpn : ℕ) → set_val x fpn paging_pte_fpn_mask 0 ≡ x / 2 ^ 13 * 2 ^ 13 + fpn % 2 ^ 13
  set_fpn fpn =
      set_val-word 0 13 19 paging_pte_fpn_mask (x / 2 ^ 13) (x % 2 ^ 13) 0 x (omega arith)
        (omega arith) (omega arith) fpn (fpn / 2 ^ 13 % 2 ^ 19) (fpn % 2 ^ 13) (omega arith)
        (omega arith)
      ∙ omega arith

  set_swptyp : (typ : ℕ) → set_val x typ paging_pte_swptyp_mask 0 ≡ x / 2 ^ 5 * 2 ^ 5 + typ % 2 ^ 5
  set_swptyp typ =
      set_val-word 0 5 27 paging_pte_swptyp_mask (x / 2 ^ 5) (x % 2 ^ 5) 0 x (omega arith)
        (omega arith) (omega arith) typ (typ / 2 ^ 5 % 2 ^ 27) (typ % 2 ^ 5) (omega arith)
        (omega arith)
      ∙ omega arith

  set_swpoff :
      (off : ℕ)
      → set_val x off paging_pte_swpoff_mask 5
        ≡ x / 2 ^ 26 * 2 ^ 26 + off % 2 ^ 21 * 2 ^ 5 + x % 2 ^ 5
  set_swpoff off =
      set_val-word 5 21 6 paging_pte_swpoff_mask (x / 2 ^ 26) (x / 2 ^ 5 % 2 ^ 21) (x % 2 ^ 5) x
        (omega arith) (omega arith) (omega arith) off (off / 2 ^ 21 % 2 ^ 6) (off % 2 ^ 21)
        (omega arith) (omega arith)
      ∙ omega arith

  -- The macros that read an entry or an address.
  pub paging_page_present_lem : paging_page_present x ≡ x / 2 ^ 31 * 2 ^ 31
  unfolding paging_page_present
  paging_page_present_lem =
      bit_and-word_mask 31 1 0 paging_pte_present_mask 0 (x / 2 ^ 31) (x % 2 ^ 31) x (omega arith)
        (omega arith) (omega arith)
      ∙ omega arith

  pub paging_fpn_lem : paging_fpn x ≡ x % 2 ^ 13
  unfolding paging_fpn
  paging_fpn_lem =
      get_val-word 0 13 19 paging_pte_fpn_mask (x / 2 ^ 13) (x % 2 ^ 13) 0 x (omega arith)
        (omega arith) (omega arith) (omega arith)

  pub paging_swp_lem : paging_swp x ≡ x / 2 ^ 5 % 2 ^ 21
  unfolding paging_swp
  paging_swp_lem =
      rw
        (bit_and-word_mask 5 21 6 paging_pte_swpoff_mask (x / 2 ^ 26) (x / 2 ^ 5 % 2 ^ 21)
          (x % 2 ^ 5) x (omega arith) (omega arith) (omega arith))
        (omega arith)

  -- An address is its page number and, in the low 8 bits, the offset in the page.
  pub paging_offst_lem : paging_offst x ≡ x % 2 ^ 8
  unfolding paging_offst
  paging_offst_lem =
      get_val-word 0 8 24 255 (x / 2 ^ 8) (x % 2 ^ 8) 0 x (omega arith) (omega arith) (omega arith)
        (omega arith)

  pub paging_pgn_lem : paging_pgn x ≡ x / 2 ^ 8 % 2 ^ 14
  unfolding paging_pgn
  paging_pgn_lem =
      get_val-word 8 14 10 0x3FFF00 (x / 2 ^ 22) (x / 2 ^ 8 % 2 ^ 14) (x % 2 ^ 8) x (omega arith)
        (omega arith) (omega arith) (omega arith)

-- `pte_set_fpn` marks the entry present and not swapped, stores the low 13 bits of the frame
-- number, and keeps the bits 13 to 29.
pub pte_set_fpn_lem :
    (pte fpn : ℕ)
    → pte < 2 ^ 32
    → pte_set_fpn pte fpn ≡ 2 ^ 31 + pte / 2 ^ 13 % 2 ^ 17 * 2 ^ 13 + fpn % 2 ^ 13
unfolding pte_set_fpn
pte_set_fpn_lem pte fpn h =
    rw (set_present pte h, clr_swapped (2 ^ 31 + pte % 2 ^ 31) (omega arith))
      (set_fpn _ (omega arith) fpn ∙ omega arith)

-- `pte_set_swap` marks the entry swapped and not present, stores the low 21 bits of the swap
-- offset and the low 5 bits of the swap type, and keeps the bits 26 to 29.
pub pte_set_swap_lem :
    (pte typ off : ℕ)
    → pte < 2 ^ 32
    → pte_set_swap pte typ off
      ≡ 2 ^ 30 + pte / 2 ^ 26 % 2 ^ 4 * 2 ^ 26 + off % 2 ^ 21 * 2 ^ 5 + typ % 2 ^ 5
unfolding pte_set_swap
pte_set_swap_lem pte typ off h =
    rw
      (
        clr_present pte h,
        set_swapped (pte % 2 ^ 31) (omega arith),
        set_swptyp (pte % 2 ^ 31 / 2 ^ 31 * 2 ^ 31 + 2 ^ 30 + pte % 2 ^ 31 % 2 ^ 30) (omega arith)
            typ,
      )
      (set_swpoff _ (omega arith) off ∙ omega arith)

pub init_online :
    (pte fpn : ℕ)
    → pte < 2 ^ 32
    → set_val
        (clr_bit
          (clr_bit (set_bit pte paging_pte_present_mask) paging_pte_swapped_mask)
          paging_pte_dirty_mask)
        fpn
        paging_pte_fpn_mask
        0
      ≡ pte_set_fpn (clr_bit pte paging_pte_dirty_mask) fpn
init_online pte fpn h =
    rw
      (
        set_present pte h,
        clr_swapped (2 ^ 31 + pte % 2 ^ 31) (omega arith),
        clr_dirty ((2 ^ 31 + pte % 2 ^ 31) / 2 ^ 31 * 2 ^ 31 + (2 ^ 31 + pte % 2 ^ 31) % 2 ^ 30)
            (omega arith),
        clr_dirty pte h,
        pte_set_fpn_lem (pte / 2 ^ 29 * 2 ^ 29 + pte % 2 ^ 28) fpn (omega arith),
      )
      (set_fpn _ (omega arith) fpn ∙ omega arith)

pub init_swapped :
    (pte typ off : ℕ)
    → pte < 2 ^ 32
    → set_val
        (set_val
          (clr_bit
            (set_bit (clr_bit pte paging_pte_present_mask) paging_pte_swapped_mask)
            paging_pte_dirty_mask)
          typ
          paging_pte_swptyp_mask
          0)
        off
        paging_pte_swpoff_mask
        5
      ≡ pte_set_swap (clr_bit pte paging_pte_dirty_mask) typ off
init_swapped pte typ off h =
    let a : ℕ = pte % 2 ^ 31 / 2 ^ 31 * 2 ^ 31 + 2 ^ 30 + pte % 2 ^ 31 % 2 ^ 30 in
    rw
      (
        clr_present pte h,
        set_swapped (pte % 2 ^ 31) (omega arith),
        clr_dirty a (omega arith),
        set_swptyp (a / 2 ^ 29 * 2 ^ 29 + a % 2 ^ 28) (omega arith) typ,
        clr_dirty pte h,
        pte_set_swap_lem (pte / 2 ^ 29 * 2 ^ 29 + pte % 2 ^ 28) typ off (omega arith),
      )
      (set_swpoff _ (omega arith) off ∙ omega arith)
