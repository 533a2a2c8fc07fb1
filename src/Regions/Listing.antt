-- ===== src/Regions/Listing.antt =====
-- `enlist_vm_freerg_list` keeps the shape of the free list.
use operating_systems_simula.Prelude.{
  ℕ, ◌≤◌, ◌<◌, ◌≡◌, ◌≢◌, refl, sym, ◌∙◌, inl, inr, Option, none, some, List, [], ◌∷◌, arith, eq→==,
  ne→==, lt→leb, ℕ_discrete, subst,
}
use operating_systems_simula.Regions.{
  VmRg, Region, Enlisted, init_vm_rg, update_rg, enlist_touching, enlist_vm_freerg_list,
}
use operating_systems_simula.Regions.Count.{
  Ordered, Absent, Distinct, In, remaining, delete-remaining, Absent-remaining,
}
use operating_systems_simula.Regions.Scan.{
  IsAbove, IsBelow, In-remaining, In-unique, Ordered-In, scan-touches,
}
use operating_systems_simula.Regions.Enlist.{Mergeable, touching, distinct_nodes, behind-nonempty}
use operating_systems_simula.Regions.Shape.{Below, Shape, Keeps-Shape, Keeps-remaining, cons-ne-nil}

Below-In : (top : ℕ) (n : VmRg) (rgs : List VmRg) → Below top rgs → In n rgs → n.rg_end ≤ top
Below-In top n [] b i = absurd i
Below-In top n (rg ∷ rest) b (inl e) = rw e (b.0)
Below-In top n (rg ∷ rest) b (inr i) = Below-In top n rest b.1 i

-- One node of a list, at `target`, gets new bounds, which are in order and at most `top`.
module _ (top target : ℕ) (f : VmRg → VmRg) (same : (n : VmRg) → (f n).addr ≡ n.addr) where
  -- What the new bounds of a node must be.
  abbrev Fits : List VmRg → Type 0
  Fits rgs =
      (n : VmRg)
      → In n rgs
      → n.addr ≡ target
      → ((f n).rg_start ≤ (f n).rg_end) × ((f n).rg_end ≤ top)

  Absent-update : (a : ℕ) (rgs : List VmRg) → Absent a rgs → Absent a (update_rg target f rgs)
  Absent-update a [] h = tt
  Absent-update a (rg ∷ rest) h = elim (ℕ_discrete rg.addr target) [
    | yes e ↦ rw (eq→== rg.addr target e) ((λ q. h.0 (sym (same rg) ∙ q)), Absent-update a rest h.1)
    | no ne ↦ rw (ne→== rg.addr target ne) (h.0, Absent-update a rest h.1)
  ]

  Distinct-update : (rgs : List VmRg) → Distinct rgs → Distinct (update_rg target f rgs)
  Distinct-update [] h = tt
  Distinct-update (rg ∷ rest) h = elim (ℕ_discrete rg.addr target) [
    | yes e ↦ rw (eq→== rg.addr target e) (
      subst (λ a. Absent a (update_rg target f rest)) (sym (same rg))
          (Absent-update rg.addr rest h.0),
      Distinct-update rest h.1,
    )
    | no ne ↦
        rw (ne→== rg.addr target ne) (Absent-update rg.addr rest h.0, Distinct-update rest h.1)
  ]

  bounds-update :
      (rgs : List VmRg)
      → Fits rgs
      → Ordered rgs
      → Below top rgs
      → Ordered (update_rg target f rgs) × Below top (update_rg target f rgs)
  bounds-update [] fits o b = (tt, tt)
  bounds-update (rg ∷ rest) fits o b =
      let (o', b') = bounds-update rest (λ n i. fits n (inr i)) o.1 b.1 in
      elim (ℕ_discrete rg.addr target) [
        | yes e ↦
            let (p, q) = fits rg (inl refl) e in rw (eq→== rg.addr target e) ((p, o'), (q, b'))
        | no ne ↦ rw (ne→== rg.addr target ne) ((o.0, o'), (b.0, b'))
      ]

  update-ne-nil : (rgs : List VmRg) → rgs ≢ [] → update_rg target f rgs ≢ []
  update-ne-nil [] h = absurd (h refl)
  update-ne-nil (rg ∷ rest) h = cons-ne-nil _ _

  update-Shape : (rgs : List VmRg) → Fits rgs → Shape top rgs → Shape top (update_rg target f rgs)
  update-Shape rgs fits s =
      let (o, b) = bounds-update rgs fits s.ordered s.below in
      record {
        distinct = Distinct-update rgs s.distinct;
        ordered = o;
        below = b;
        nonempty = update-ne-nil rgs s.nonempty;
      }

abbrev pub list_of : Option (Enlisted × List VmRg) → List VmRg
list_of none = []
list_of (some (code, rgs)) = rgs

new_node-Shape :
    (top : ℕ) (n : VmRg) (rgs : List VmRg)
    → Absent n.addr rgs
    → (n.rg_start ≤ n.rg_end) × (n.rg_end ≤ top)
    → Shape top rgs
    → Shape top (n ∷ rgs)
new_node-Shape top n rgs new fits s = record {
  distinct = (new, s.distinct);
  ordered = (fits.0, s.ordered);
  below = (fits.1, s.below);
  nonempty = cons-ne-nil n rgs;
}

module _ (fresh top : ℕ) (garbage rgs : List VmRg) (rg : Region) (s : Shape top rgs)
    (new : Absent fresh rgs) (positive : rg.start < rg.end) (fits : rg.end ≤ top) where
  touching-Shape :
      (above below : Option VmRg)
      → IsAbove rg rgs above
      → IsBelow rg rgs below
      → Mergeable rgs above below
      → Shape top (list_of (enlist_touching fresh garbage rgs rg above below))
  unfolding enlist_touching init_vm_rg
  touching-Shape none none a b m =
      rw
        (behind-nonempty fresh garbage rgs rg s.distinct s.ordered s.nonempty positive rgs
          s.nonempty)
        (new_node-Shape top (init_vm_rg fresh rg.start rg.end) rgs new (omega arith) s)
  touching-Shape (some up) none a b m =
      update-Shape top up.addr (λ n. record n { rg_start = rg.start }) (λ n. refl) rgs
        (λ n i e.
          let q : n ≡ up = In-unique n up rgs s.distinct i a.0 e in
          rw q
            (omega (arith, a.1, Ordered-In up rgs s.ordered a.0, Below-In top up rgs s.below a.0)))
        s
  touching-Shape none (some down) a b m =
      update-Shape top down.addr (λ n. record n { rg_end = rg.end }) (λ n. refl) rgs
        (λ n i e.
          let q : n ≡ down = In-unique n down rgs s.distinct i b.0 e in
          rw q (omega (arith, b.1, Ordered-In down rgs s.ordered b.0)))
        s
  touching-Shape (some up) (some down) a b m =
      let ne : up.addr ≢ down.addr =
        distinct_nodes fresh garbage rgs rg s.distinct s.ordered s.nonempty positive up down a b in
      let left : List VmRg = remaining rgs up.addr in
      let i : In down left = In-remaining up.addr down rgs b.0 ne m in
      let merged_rg : VmRg = init_vm_rg fresh down.rg_start up.rg_end in
      let bounds : (down.rg_start ≤ up.rg_end) × (up.rg_end ≤ top) = omega (
        arith,
        a.1,
        b.1,
        Ordered-In up rgs s.ordered a.0,
        Ordered-In down rgs s.ordered b.0,
        Below-In top up rgs s.below a.0,
      ) in
      rw (delete-remaining up rgs a.0, delete-remaining down left i)
        (new_node-Shape top merged_rg (remaining left down.addr)
          (Absent-remaining fresh down.addr left (Absent-remaining fresh up.addr rgs new)) bounds
          (Keeps-Shape (Keeps-remaining down.addr left)
            (Keeps-Shape (Keeps-remaining up.addr rgs) s)))

  -- `enlist_vm_freerg_list` keeps the shape of the free list, where the node that `malloc` gives is new
  -- to the list.
  pub enlist-Shape :
      Mergeable rgs (touching rg rgs).above (touching rg rgs).below
      → Shape top (list_of (enlist_vm_freerg_list fresh garbage rgs rg))
  unfolding enlist_vm_freerg_list
  enlist-Shape m =
      let (a, b) =
        scan-touches rg rgs rgs (record { above = none; below = none }) (λ n i. i) tt tt in
      rw (lt→leb rg.end rg.start positive)
        (touching-Shape (touching rg rgs).above (touching rg rgs).below a b m)
