-- ===== src/Regions/FirstFit.antt =====
-- `get_free_vmrg_area`: what it takes off the free list is what it hands out.
use operating_systems_simula.Prelude.{
  ℕ, ◌+◌, ◌-◌, ◌≤◌, ◌<◌, ◌^◌, ◌≡◌, ◌≢◌, refl, ap, inl, inr, ◌⊎◌, none, some, List, [], ◌∷◌, arith,
  ltb, leb, Bool-cases, le→leb, lt→ltb, ne→==,
}
use operating_systems_simula.Regions.{
  VmRg, Region, add_ulong, ulong_of_int, absorb_next, first_fit, get_free_vmrg_area,
}
use operating_systems_simula.Regions.Count.{within, count, count-absorb_next}

-- No sum that the search computes wraps.
abbrev pub Low : ℕ → List VmRg → Type 0
Low size [] = Unit {0}
Low size (rg ∷ rest) = (rg.rg_start + size < 2 ^ 64) × Low size rest

within-split :
    (x lo mid hi : ℕ) → lo ≤ mid → mid ≤ hi → within x lo hi ≡ within x lo mid + within x mid hi
within-split x lo mid hi h k = ground arith

-- No region has room for `size` bytes.
abbrev pub Full : ℕ → List VmRg → Type 0
Full size [] = Unit {0}
Full size (rg ∷ rest) = (rg.rg_end < rg.rg_start + size) × Full size rest

-- `found` has `size` bytes, and `rgs'` lists the bytes of `rgs` without those of `found`.
pub record Cut (rgs : List VmRg) (size : ℕ) (found : Region) (rgs' : List VmRg) : Type 0 where
  pub length : found.end ≡ found.start + size
  pub below : found.end < 2 ^ 64
  pub bytes : (x : ℕ) → count x rgs ≡ within x found.start found.end + count x rgs'

first_fit-head :
    (rg : VmRg) (rest : List VmRg) (size : ℕ)
    → rg.rg_start + size < 2 ^ 64
    → rg.rg_start + size ≤ rg.rg_end
    → (found : Region) × (rgs' : List VmRg) × (first_fit (rg ∷ rest) size ≡ some (found, rgs'))
      × Cut (rg ∷ rest) size found rgs'
unfolding first_fit count
first_fit-head rg rest size low room =
    let top : add_ulong rg.rg_start size ≡ rg.rg_start + size = omega arith in
    let found : Region = record { start = rg.rg_start; end = rg.rg_start + size } in
    elim (Bool-cases (ltb (rg.rg_start + size) rg.rg_end)) [
      | inl h ↦ (
        found,
        record rg { rg_start = rg.rg_start + size } ∷ rest,
        rw (top, le→leb (rg.rg_start + size) rg.rg_end room, h),
        record {
          length = refl;
          below = low;
          bytes = λ x.
              omega (
                arith,
                within-split x rg.rg_start (rg.rg_start + size) rg.rg_end (omega arith) room,
              );
        },
      )
      | inr h ↦
          let e : rg.rg_end ≡ rg.rg_start + size = ground arith in
          (
            found,
            absorb_next rg rest,
            rw (top, le→leb (rg.rg_start + size) rg.rg_end room, h),
            record {
              length = refl;
              below = low;
              bytes = λ x.
                  omega (arith, ap (λ t. within x rg.rg_start t) e, count-absorb_next x rg rest);
            },
          )
    ]

-- The search fails only where no region has room. Else it cuts the bytes that it hands out from the
-- list, and all other free bytes stay listed as often as they were.
pub first_fit-Cut :
    (rgs : List VmRg) (size : ℕ)
    → Low size rgs
    → ((first_fit rgs size ≡ none) × Full size rgs)
      ⊎ ((found : Region) × (rgs' : List VmRg) × (first_fit rgs size ≡ some (found, rgs'))
          × Cut rgs size found rgs')
unfolding first_fit count
first_fit-Cut [] size low = inl (refl, tt)
first_fit-Cut (rg ∷ rest) size low = elim (Bool-cases (leb (rg.rg_start + size) rg.rg_end)) [
  | inl h ↦ inr (first_fit-head rg rest size low.0 (ground arith))
  | inr h ↦
      let top : add_ulong rg.rg_start size ≡ rg.rg_start + size = omega (arith, low.0) in
      elim (first_fit-Cut rest size low.1) [
        | inl (e, full) ↦ inl (rw (top, h, e), (ground arith, full))
        | inr (found, rgs', e, cut) ↦ inr (
          found,
          rg ∷ rgs',
          rw (top, h, e),
          record {
            length = cut.length;
            below = cut.below;
            bytes = λ x. omega (arith, cut.bytes x);
          },
        )
      ]
]

-- For a positive `int` size and a list on which no sum with the size wraps, `get_free_vmrg_area`
-- returns -1 only where no region has room, and the list is then as before. Else the region that it
-- hands out has that size, is cut from the list, and all other free bytes stay listed as often as they
-- were.
pub get_free_vmrg_area-Cut :
    (rgs : List VmRg) (size : ℕ)
    → 0 < size
    → size < 2 ^ 31
    → Low size rgs
    → ((get_free_vmrg_area rgs size ≡ (none, rgs)) × Full size rgs)
      ⊎ ((found : Region) × (rgs' : List VmRg) × (get_free_vmrg_area rgs size ≡ (some found, rgs'))
          × Cut rgs size found rgs')
unfolding get_free_vmrg_area
get_free_vmrg_area-Cut rgs size pos small low =
    let s : ulong_of_int size ≡ size = rw (lt→ltb size (2 ^ 31) small) in
    elim (first_fit-Cut rgs size low) [
      | inl (e, full) ↦ inl (rw (s, e, get_free_vmrg_area), full)
      | inr (found, rgs', e, cut) ↦
          let ne : found.start ≢ 2 ^ 64 - 1 = omega (arith, cut.length, cut.below) in
          inr (
            found,
            rgs',
            rw (s, e, get_free_vmrg_area) (rw (ne→== found.start (2 ^ 64 - 1) ne)),
            cut,
          )
    ]
