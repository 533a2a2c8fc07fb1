-- ===== src/Regions/Shape.antt =====
-- The shape of a free list, and that taking bytes off it keeps this.
use operating_systems_simula.Prelude.{
  ℕ, ◌≤◌, ◌≢◌, inl, inr, Option, none, some, List, [], ◌∷◌, arith, ltb, leb, ◌>>=◌, ◌==◌,
  Bool-cases, Option-cases, ◌^◌, ◌-◌, eq→==, ne→==, ℕ_discrete, subst,
}
use operating_systems_simula.Regions.{
  VmRg, Region, add_ulong, ulong_of_int, absorb_next, first_fit, get_free_vmrg_area,
}
use operating_systems_simula.Regions.Count.{
  Ordered, Absent, Distinct, remaining, Distinct-absorb_next, Absent-absorb_next,
}

-- Every region ends at `top` or below.
abbrev pub Below : ℕ → List VmRg → Type 0
Below top [] = Unit {0}
Below top (rg ∷ rest) = (rg.rg_end ≤ top) × Below top rest

-- A list of at least one node, the nodes at different addresses, each region in order, none above
-- `top`.
pub record Shape (top : ℕ) (rgs : List VmRg) : Type 0 where
  pub distinct : Distinct rgs
  pub ordered : Ordered rgs
  pub below : Below top rgs
  pub nonempty : rgs ≢ []

pub cons-ne-nil : (rg : VmRg) (rest : List VmRg) → rg ∷ rest ≢ []
cons-ne-nil rg rest e = cc

-- What an operation that takes bytes off a list keeps of it.
pub record Keeps (rgs rgs' : List VmRg) : Type 0 where
  absent : (a : ℕ) → Absent a rgs → Absent a rgs'
  distinct : Distinct rgs → Distinct rgs'
  ordered : Ordered rgs → Ordered rgs'
  below : (top : ℕ) → Below top rgs → Below top rgs'
  nonempty : rgs ≢ [] → rgs' ≢ []

pub Keeps-Shape : {top : ℕ} {rgs rgs' : List VmRg} → Keeps rgs rgs' → Shape top rgs → Shape top rgs'
Keeps-Shape {top} k s = record {
  distinct = k.distinct s.distinct;
  ordered = k.ordered s.ordered;
  below = k.below top s.below;
  nonempty = k.nonempty s.nonempty;
}

Keeps-refl : (rgs : List VmRg) → Keeps rgs rgs
Keeps-refl rgs = record {
  absent = λ a h. h;
  distinct = λ h. h;
  ordered = λ h. h;
  below = λ top h. h;
  nonempty = λ h. h;
}

Keeps-cons :
    (rg : VmRg) {rest rest' : List VmRg} → Keeps rest rest' → Keeps (rg ∷ rest) (rg ∷ rest')
Keeps-cons rg {rest} {rest'} k = record {
  absent = λ a h. (h.0, k.absent a h.1);
  distinct = λ h. (k.absent rg.addr h.0, k.distinct h.1);
  ordered = λ h. (h.0, k.ordered h.1);
  below = λ top h. (h.0, k.below top h.1);
  nonempty = λ h. cons-ne-nil rg rest';
}

Ordered-absorb_next :
    (rg : VmRg) (rest : List VmRg) → Ordered (rg ∷ rest) → Ordered (absorb_next rg rest)
unfolding absorb_next
Ordered-absorb_next rg [] h = (omega arith, tt)
Ordered-absorb_next rg (next ∷ rest) h = h.1

Below-absorb_next :
    (top : ℕ) (rg : VmRg) (rest : List VmRg)
    → Below top (rg ∷ rest)
    → Below top (absorb_next rg rest)
unfolding absorb_next
Below-absorb_next top rg [] h = h
Below-absorb_next top rg (next ∷ rest) h = h.1

absorb_next-ne-nil : (rg : VmRg) (rest : List VmRg) → absorb_next rg rest ≢ []
unfolding absorb_next
absorb_next-ne-nil rg [] e = cc
absorb_next-ne-nil rg (next ∷ rest) e = cc

Keeps-absorb_next : (rg : VmRg) (rest : List VmRg) → Keeps (rg ∷ rest) (absorb_next rg rest)
Keeps-absorb_next rg rest = record {
  absent = λ a h. Absent-absorb_next a rg rest h.0 h.1;
  distinct = Distinct-absorb_next rg rest;
  ordered = Ordered-absorb_next rg rest;
  below = λ top. Below-absorb_next top rg rest;
  nonempty = λ h. absorb_next-ne-nil rg rest;
}

-- The first region loses bytes at its low end.
Keeps-cut :
    (rg : VmRg) (start : ℕ) (rest : List VmRg)
    → start ≤ rg.rg_end
    → Keeps (rg ∷ rest) (record rg { rg_start = start } ∷ rest)
Keeps-cut rg start rest le = record {
  absent = λ a h. h;
  distinct = λ h. h;
  ordered = λ h. (le, h.1);
  below = λ top h. h;
  nonempty = λ h. cons-ne-nil _ rest;
}

pub Keeps-remaining : (target : ℕ) (rgs : List VmRg) → Keeps rgs (remaining rgs target)
unfolding remaining
Keeps-remaining target [] = Keeps-refl []
Keeps-remaining target (rg ∷ rest) = elim (ℕ_discrete rg.addr target) [
  | yes e ↦ rw (eq→== rg.addr target e) (Keeps-absorb_next rg rest)
  | no ne ↦ rw (ne→== rg.addr target ne) (Keeps-cons rg (Keeps-remaining target rest))
]

-- The list that a search leaves, or the list itself.
abbrev left_by : Option (Region × List VmRg) → List VmRg → List VmRg
left_by none rgs = rgs
left_by (some (found, rgs')) rgs = rgs'

left_by-later :
    (o : Option (Region × List VmRg)) (rg : VmRg) (rest : List VmRg)
    → Keeps rest (left_by o rest)
    → Keeps (rg ∷ rest) (left_by (o >>= λ (found, rest'). some (found, rg ∷ rest')) (rg ∷ rest))
left_by-later none rg rest k = Keeps-cons rg k
left_by-later (some (found, rest')) rg rest k = Keeps-cons rg k

Keeps-first_fit : (rgs : List VmRg) (size : ℕ) → Keeps rgs (left_by (first_fit rgs size) rgs)
unfolding first_fit
Keeps-first_fit [] size = Keeps-refl []
Keeps-first_fit (rg ∷ rest) size = elim (Bool-cases (leb (add_ulong rg.rg_start size) rg.rg_end)) [
  | inl fits ↦ elim (Bool-cases (ltb (add_ulong rg.rg_start size) rg.rg_end)) [
    | inl less ↦ rw (fits, less) (Keeps-cut rg _ rest (ground arith))
    | inr all ↦ rw (fits, all) (Keeps-absorb_next rg rest)
  ]
  | inr not ↦ rw not (left_by-later (first_fit rest size) rg rest (Keeps-first_fit rest size))
]

-- `get_free_vmrg_area` keeps the shape of the free list, whether it finds a region or not.
pub get_free_vmrg_area-Shape :
    (top : ℕ) (rgs : List VmRg) (size : ℕ)
    → Shape top rgs
    → Shape top (get_free_vmrg_area rgs size).1
unfolding get_free_vmrg_area
get_free_vmrg_area-Shape top rgs size s = elim (Option-cases (first_fit rgs (ulong_of_int size))) [
  | inl e ↦ rw (e, get_free_vmrg_area) s
  | inr ((found, rgs'), e) ↦
      let kept : Shape top rgs' =
        subst (λ o. Shape top (left_by o rgs)) e
          (Keeps-Shape (Keeps-first_fit rgs (ulong_of_int size)) s) in
      elim (Bool-cases (found.start == 2 ^ 64 - 1)) [
        | inl q ↦ rw (e, get_free_vmrg_area) (rw q kept)
        | inr q ↦ rw (e, get_free_vmrg_area) (rw q kept)
      ]
]
