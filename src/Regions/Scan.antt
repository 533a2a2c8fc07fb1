-- ===== src/Regions/Scan.antt =====
-- The scan of `enlist_vm_freerg_list`, and the updates and deletions of the nodes that it finds.
use operating_systems_simula.Prelude.{
  ℕ, ◌+◌, ◌≤◌, ◌≡◌, ◌≢◌, refl, sym, ◌∙◌, ap, inl, inr, Bool, true, false, ◌&&◌, ◌||◌, Option, none,
  some, List, [], ◌∷◌, arith, ◌==◌, if◌then◌else◌, Bool-cases, true-ne-false, subst, eq→==, ne→==,
  ℕ_discrete,
}
use operating_systems_simula.Regions.{VmRg, Region, Touching, absorb_next, scan, update_rg}
use operating_systems_simula.Regions.Count.{
  within, count, Ordered, Absent, Distinct, In, ne_of_Absent, remaining,
}

-- What the scan may report: nodes of the list that the region touches, above and below.
abbrev pub IsAbove : Region → List VmRg → Option VmRg → Type 0
IsAbove rg rgs none = Unit {0}
IsAbove rg rgs (some n) = In n rgs × (rg.end ≡ n.rg_start)

abbrev pub IsBelow : Region → List VmRg → Option VmRg → Type 0
IsBelow rg rgs none = Unit {0}
IsBelow rg rgs (some n) = In n rgs × (rg.start ≡ n.rg_end)

pub scan-touches :
    (rg : Region) (all rgs : List VmRg) (seen : Touching)
    → ((n : VmRg) → In n rgs → In n all)
    → IsAbove rg all seen.above
    → IsBelow rg all seen.below
    → IsAbove rg all (scan rg seen rgs).above × IsBelow rg all (scan rg seen rgs).below
unfolding scan
scan-touches rg all [] seen sub a b = (a, b)
scan-touches rg all (walk ∷ rest) seen sub a b =
    elim (Bool-cases ((walk.rg_start == 0) && (walk.rg_end == 0))) [
      | inl stop ↦ rw stop (a, b)
      | inr on ↦ rw on (scan-touches rg all rest _ (λ n i. sub n (inr i)) above below)
    ]
  where
    above : IsAbove rg all (if rg.end == walk.rg_start then some walk else seen.above)
    above = elim (ℕ_discrete rg.end walk.rg_start) [
      | yes e ↦ rw (eq→== rg.end walk.rg_start e) (sub walk (inl refl), e)
      | no ne ↦ rw (ne→== rg.end walk.rg_start ne) a
    ]

    below : IsBelow rg all (if rg.start == walk.rg_end then some walk else seen.below)
    below = elim (ℕ_discrete rg.start walk.rg_end) [
      | yes e ↦ rw (eq→== rg.start walk.rg_end e) (sub walk (inl refl), e)
      | no ne ↦ rw (ne→== rg.start walk.rg_end ne) b
    ]

pub update-Absent :
    (a : ℕ) (f : VmRg → VmRg) (rgs : List VmRg) → Absent a rgs → update_rg a f rgs ≡ rgs
update-Absent a f [] h = refl
update-Absent a f (rg ∷ rest) h = rw (ne→== rg.addr a h.0, update-Absent a f rest h.1)

-- An update of one node exchanges its bytes.
pub count-update :
    (x : ℕ) (n : VmRg) (f : VmRg → VmRg) (rgs : List VmRg)
    → Distinct rgs
    → In n rgs
    → count x (update_rg n.addr f rgs) + within x n.rg_start n.rg_end
      ≡ count x rgs + within x (f n).rg_start (f n).rg_end
unfolding count
count-update x n f [] d i = absurd i
count-update x n f (rg ∷ rest) d (inl e) =
    let h : Absent n.addr rest = rw e (d.0) in
    rw (eq→== rg.addr n.addr (ap (λ m. m.addr) (sym e)), update-Absent n.addr f rest h)
      (omega (
        arith,
        ap (λ m. within x m.rg_start m.rg_end) e,
        ap (λ m. within x (f m).rg_start (f m).rg_end) e,
      ))
count-update x n f (rg ∷ rest) d (inr i) =
    rw (ne→== rg.addr n.addr (λ e. ne_of_Absent rg.addr n rest d.0 i (sym e)))
      (omega (arith, count-update x n f rest d.1 i))

pub Ordered-In : (n : VmRg) (rgs : List VmRg) → Ordered rgs → In n rgs → n.rg_start ≤ n.rg_end
Ordered-In n [] o i = absurd i
Ordered-In n (rg ∷ rest) o (inl e) = rw e (o.0)
Ordered-In n (rg ∷ rest) o (inr i) = Ordered-In n rest o.1 i

pub within-join :
    (x lo mid hi : ℕ) → lo ≤ mid → mid ≤ hi → within x lo mid + within x mid hi ≡ within x lo hi
within-join x lo mid hi h k = ground arith

-- The node at `down` stands right behind the node at `up`.
unfoldable pub follows : ℕ → ℕ → List VmRg → Bool
follows up down [] = false
follows up down (rg ∷ []) = false
follows up down (rg ∷ (next ∷ rest)) =
    ((rg.addr == up) && (next.addr == down)) || follows up down (next ∷ rest)

pub In-unique :
    (m n : VmRg) (rgs : List VmRg) → Distinct rgs → In m rgs → In n rgs → m.addr ≡ n.addr → m ≡ n
In-unique m n [] d i j e = absurd i
In-unique m n (rg ∷ rest) d (inl p) (inl q) e = p ∙ sym q
In-unique m n (rg ∷ rest) d (inl p) (inr j) e =
    absurd (ne_of_Absent rg.addr n rest d.0 j (sym e ∙ ap (λ r. r.addr) p))
In-unique m n (rg ∷ rest) d (inr i) (inl q) e =
    absurd (ne_of_Absent rg.addr m rest d.0 i (e ∙ ap (λ r. r.addr) q))
In-unique m n (rg ∷ rest) d (inr i) (inr j) e = In-unique m n rest d.1 i j e

or_false_right : (a b : Bool) → (a || b) ≡ false → b ≡ false
or_false_right a b h = ground arith

-- Deleting a node keeps every other one but its successor.
pub In-remaining :
    (up : ℕ) (n : VmRg) (rgs : List VmRg)
    → In n rgs
    → up ≢ n.addr
    → follows up n.addr rgs ≡ false
    → In n (remaining rgs up)
unfolding remaining follows absorb_next
In-remaining up n [] i ne f = absurd i
In-remaining up n (rg ∷ []) (inr i) ne f = absurd i
In-remaining up n (rg ∷ []) (inl e) ne f =
    rw (ne→== rg.addr up (λ q. ne (sym q ∙ ap (λ r. r.addr) (sym e)))) (inl e)
In-remaining up n (rg ∷ (next ∷ rest)) i ne f = elim (ℕ_discrete rg.addr up) [
  | yes q ↦ rw (eq→== rg.addr up q) (behind_next q i)
  | no nq ↦
      rw (ne→== rg.addr up nq)
        (kept i (λ j. In-remaining up n (next ∷ rest) j ne (or_false_right _ _ f)))
]
  where
    behind_next : rg.addr ≡ up → In n (rg ∷ (next ∷ rest)) → In n (absorb_next rg (next ∷ rest))
    behind_next q (inl e) = absurd (ne (sym q ∙ ap (λ r. r.addr) (sym e)))
    behind_next q (inr (inl e)) = absurd (
        true-ne-false
          (rw (eq→== rg.addr up q, eq→== next.addr n.addr (ap (λ r. r.addr) (sym e))) at f))
    behind_next q (inr (inr i)) = inr i

    kept :
        In n (rg ∷ (next ∷ rest))
        → (In n (next ∷ rest) → In n (remaining (next ∷ rest) up))
        → In n (rg ∷ remaining (next ∷ rest) up)
    kept (inl e) rec = inl e
    kept (inr i) rec = inr (rec i)

follows-Absent_up : (up down : ℕ) (rgs : List VmRg) → Absent up rgs → follows up down rgs ≡ false
unfolding follows
follows-Absent_up up down [] h = refl
follows-Absent_up up down (rg ∷ []) h = refl
follows-Absent_up up down (rg ∷ (next ∷ rest)) h =
    rw (ne→== rg.addr up h.0) (follows-Absent_up up down (next ∷ rest) h.1)

follows-Absent_down :
    (up down : ℕ) (rgs : List VmRg) → Absent down rgs → follows up down rgs ≡ false
unfolding follows
follows-Absent_down up down [] h = refl
follows-Absent_down up down (rg ∷ []) h = refl
follows-Absent_down up down (rg ∷ (next ∷ rest)) h =
    rw (ne→== next.addr down h.1.0, follows-Absent_down up down (next ∷ rest) h.1) (ground arith)

-- Deleting a node takes its successor's address out of the list.
pub remaining-Absent :
    (up down : ℕ) (rgs : List VmRg)
    → Distinct rgs
    → follows up down rgs ≡ true
    → Absent down (remaining rgs up)
unfolding remaining follows absorb_next
remaining-Absent up down [] d f = tt
remaining-Absent up down (rg ∷ []) d f = absurd (true-ne-false (sym f))
remaining-Absent up down (rg ∷ (next ∷ rest)) d f = elim (ℕ_discrete rg.addr up) [
  | yes q ↦ elim (ℕ_discrete next.addr down) [
    | yes k ↦ rw (eq→== rg.addr up q) ((λ e. d.0.0 (k ∙ sym e)), subst (λ a. Absent a rest) k d.1.0)
    | no nk ↦ absurd (
        true-ne-false (
          sym f
          ∙ rw
              (
                ne→== next.addr down nk,
                follows-Absent_up up down (next ∷ rest) (subst (λ a. Absent a (next ∷ rest)) q d.0),
              )
              (ground arith)))
  ]
  | no nq ↦
      let g : follows up down (next ∷ rest) ≡ true = rw (ne→== rg.addr up nq) at f in
      rw (ne→== rg.addr up nq) (
        (λ e. true-ne-false (
            sym g
            ∙ follows-Absent_down up down (next ∷ rest)
                (subst (λ a. Absent a (next ∷ rest)) e d.0))),
        remaining-Absent up down (next ∷ rest) d.1 g,
      )
]
