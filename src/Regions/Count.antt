-- ===== src/Regions/Count.antt =====
-- The free bytes of a list of regions, with how often each one is listed.
use operating_systems_simula.Prelude.{
  ℕ, ◌+◌, ◌≤◌, ◌≡◌, ◌≢◌, refl, sym, ap, inl, inr, ◌⊎◌, ◌&&◌, none, some, List, [], ◌∷◌, arith, ltb,
  leb, ◌==◌, if◌then◌else◌, eq→==, ne→==, ℕ_discrete,
}
use operating_systems_simula.Regions.{VmRg, absorb_next, delete_vm_rg_node}

-- 1 where `x` lies from `lo` up to `hi`, without `hi`; else 0.
abbrev pub within : ℕ → ℕ → ℕ → ℕ
within x lo hi = if leb lo x && ltb x hi then 1 else 0

unfoldable pub count : ℕ → List VmRg → ℕ
count x [] = 0
count x (rg ∷ rest) = within x rg.rg_start rg.rg_end + count x rest

-- Every region of the list ends where it starts or above.
abbrev pub Ordered : List VmRg → Type 0
Ordered [] = Unit {0}
Ordered (rg ∷ rest) = (rg.rg_start ≤ rg.rg_end) × Ordered rest

-- No two nodes of the list have the same address.
abbrev pub Absent : ℕ → List VmRg → Type 0
Absent a [] = Unit {0}
Absent a (rg ∷ rest) = (rg.addr ≢ a) × Absent a rest

abbrev pub Distinct : List VmRg → Type 0
Distinct [] = Unit {0}
Distinct (rg ∷ rest) = Absent rg.addr rest × Distinct rest

-- `n` is a node of the list.
abbrev pub In : VmRg → List VmRg → Type 0
In n [] = ⊥
In n (rg ∷ rest) = (n ≡ rg) ⊎ In n rest

pub count-absorb_next :
    (x : ℕ) (rg : VmRg) (rest : List VmRg) → count x (absorb_next rg rest) ≡ count x rest
unfolding count absorb_next
count-absorb_next x rg [] = ground arith
count-absorb_next x rg (next ∷ rest) = refl

pub ne_of_Absent : (a : ℕ) (n : VmRg) (rgs : List VmRg) → Absent a rgs → In n rgs → n.addr ≢ a
ne_of_Absent a n [] h i = absurd i
ne_of_Absent a n (rg ∷ rest) h (inl e) = rw e (h.0)
ne_of_Absent a n (rg ∷ rest) h (inr i) = ne_of_Absent a n rest h.1 i

-- The list that `delete_vm_rg_node` leaves, where it ends well.
unfoldable pub remaining : List VmRg → ℕ → List VmRg
remaining [] target = []
remaining (rg ∷ rest) target =
    if rg.addr == target then absorb_next rg rest else rg ∷ remaining rest target

pub delete-remaining :
    (n : VmRg) (rgs : List VmRg)
    → In n rgs
    → delete_vm_rg_node rgs n.addr ≡ some (remaining rgs n.addr)
unfolding delete_vm_rg_node remaining
delete-remaining n [] i = absurd i
delete-remaining n (rg ∷ rest) (inl e) = rw (eq→== rg.addr n.addr (ap (λ r. r.addr) (sym e)))
delete-remaining n (rg ∷ rest) (inr i) = elim (ℕ_discrete rg.addr n.addr) [
  | yes e ↦ rw (eq→== rg.addr n.addr e)
  | no ne ↦ rw (ne→== rg.addr n.addr ne, delete-remaining n rest i)
]

-- A node that is not in the list cannot be deleted.
pub delete-Absent : (a : ℕ) (rgs : List VmRg) → Absent a rgs → delete_vm_rg_node rgs a ≡ none
unfolding delete_vm_rg_node
delete-Absent a [] h = refl
delete-Absent a (rg ∷ rest) h = rw (ne→== rg.addr a h.0, delete-Absent a rest h.1)

-- Deleting a node takes its bytes off the list, and no others.
pub count-remaining :
    (x : ℕ) (n : VmRg) (rgs : List VmRg)
    → Distinct rgs
    → In n rgs
    → count x rgs ≡ within x n.rg_start n.rg_end + count x (remaining rgs n.addr)
unfolding remaining count
count-remaining x n [] d i = absurd i
count-remaining x n (rg ∷ rest) d (inl e) =
    rw (e, eq→== rg.addr rg.addr refl, count-absorb_next x rg rest)
count-remaining x n (rg ∷ rest) d (inr i) =
    rw (ne→== rg.addr n.addr (λ e. ne_of_Absent rg.addr n rest d.0 i (sym e)))
      (omega (arith, count-remaining x n rest d.1 i))

pub Absent-absorb_next :
    (a : ℕ) (rg : VmRg) (rest : List VmRg)
    → rg.addr ≢ a
    → Absent a rest
    → Absent a (absorb_next rg rest)
unfolding absorb_next
Absent-absorb_next a rg [] ne h = (ne, tt)
Absent-absorb_next a rg (next ∷ rest) ne h = (ne, h.1)

pub Absent-remaining :
    (a target : ℕ) (rgs : List VmRg) → Absent a rgs → Absent a (remaining rgs target)
unfolding remaining
Absent-remaining a target [] h = tt
Absent-remaining a target (rg ∷ rest) h = elim (ℕ_discrete rg.addr target) [
  | yes e ↦ rw (eq→== rg.addr target e) (Absent-absorb_next a rg rest h.0 h.1)
  | no ne ↦ rw (ne→== rg.addr target ne) (h.0, Absent-remaining a target rest h.1)
]

pub Distinct-absorb_next :
    (rg : VmRg) (rest : List VmRg) → Distinct (rg ∷ rest) → Distinct (absorb_next rg rest)
unfolding absorb_next
Distinct-absorb_next rg [] d = (tt, tt)
Distinct-absorb_next rg (next ∷ rest) d = (d.0.1, d.1.1)

pub Distinct-remaining :
    (target : ℕ) (rgs : List VmRg) → Distinct rgs → Distinct (remaining rgs target)
unfolding remaining
Distinct-remaining target [] d = tt
Distinct-remaining target (rg ∷ rest) d = elim (ℕ_discrete rg.addr target) [
  | yes e ↦ rw (eq→== rg.addr target e) (Distinct-absorb_next rg rest d)
  | no ne ↦
      rw (ne→== rg.addr target ne)
        (Absent-remaining rg.addr target rest d.0, Distinct-remaining target rest d.1)
]
