-- ===== src/Regions/Enlist.antt =====
-- `enlist_vm_freerg_list`: a freed region joins the free list, merged with the regions it touches.
use operating_systems_simula.Prelude.{
  ℕ, ◌+◌, ◌≤◌, ◌<◌, ◌≡◌, ◌≢◌, refl, ap, true, false, Option, none, some, List, [], ◌∷◌, arith,
  lt→leb, le→leb,
}
use operating_systems_simula.Regions.{
  VmRg, Region, Touching, Enlisted, refused, merged, listed, init_vm_rg, scan, update_rg, behind,
  enlist_touching, enlist_vm_freerg_list,
}
use operating_systems_simula.Regions.Scan.{
  IsAbove, IsBelow, scan-touches, count-update, Ordered-In, within-join, follows, In-unique,
  In-remaining, remaining-Absent,
}
use operating_systems_simula.Regions.Count.{
  within, count, Ordered, Distinct, In, remaining, delete-remaining, delete-Absent, count-remaining,
  Distinct-remaining,
}

-- `rgs'` lists the bytes of `rgs` and those of `rg` once more.
abbrev pub Joined : Region → List VmRg → List VmRg → Type 0
Joined rg rgs rgs' = (x : ℕ) → count x rgs' ≡ within x rg.start rg.end + count x rgs

-- Where the region touches two nodes, the lower one must not stand right behind the upper one.
abbrev pub Mergeable : List VmRg → Option VmRg → Option VmRg → Type 0
Mergeable rgs (some up) (some down) = follows up.addr down.addr rgs ≡ false
Mergeable rgs _ _ = Unit {0}

module _ (fresh : ℕ) (garbage rgs : List VmRg) (rg : Region) (d : Distinct rgs) (o : Ordered rgs)
    (nonempty : rgs ≢ []) (positive : rg.start < rg.end) where
  pub behind-nonempty : (l : List VmRg) → l ≢ [] → behind garbage l ≡ l
  behind-nonempty [] h = absurd (h refl)
  behind-nonempty (x ∷ l) h = refl

  pub distinct_nodes :
      (up down : VmRg)
      → In up rgs × (rg.end ≡ up.rg_start)
      → In down rgs × (rg.start ≡ down.rg_end)
      → up.addr ≢ down.addr
  distinct_nodes up down a b e =
      let same : up ≡ down = In-unique up down rgs d a.0 b.0 e in
      absurd (omega (arith, a.1, b.1, Ordered-In up rgs o a.0, ap (λ m. m.rg_end) same))

  touching-Joined :
      (above below : Option VmRg)
      → IsAbove rg rgs above
      → IsBelow rg rgs below
      → Mergeable rgs above below
      → (code : Enlisted) × (rgs' : List VmRg) × (enlist_touching fresh garbage rgs rg above below
          ≡ some (code, rgs'))
        × Joined rg rgs rgs'
  unfolding enlist_touching count init_vm_rg
  touching-Joined none none a b m =
      (listed, init_vm_rg fresh rg.start rg.end ∷ rgs, rw (behind-nonempty rgs nonempty), λ x. refl)
  touching-Joined (some up) none a b m = (
    merged,
    update_rg up.addr (λ n. record n { rg_start = rg.start }) rgs,
    refl,
    λ x. omega (
      arith,
      count-update x up (λ n. record n { rg_start = rg.start }) rgs d a.0,
      within-join x rg.start rg.end up.rg_end (omega arith)
          (omega (arith, a.1, Ordered-In up rgs o a.0)),
      ap (λ t. within x t up.rg_end) a.1,
    ),
  )
  touching-Joined none (some down) a b m = (
    merged,
    update_rg down.addr (λ n. record n { rg_end = rg.end }) rgs,
    refl,
    λ x. omega (
      arith,
      count-update x down (λ n. record n { rg_end = rg.end }) rgs d b.0,
      within-join x down.rg_start rg.start rg.end (omega (arith, b.1, Ordered-In down rgs o b.0))
          (omega arith),
      ap (λ t. within x down.rg_start t) b.1,
    ),
  )
  touching-Joined (some up) (some down) a b m =
      let ne : up.addr ≢ down.addr = distinct_nodes up down a b in
      let left : List VmRg = remaining rgs up.addr in
      let i : In down left = In-remaining up.addr down rgs b.0 ne m in
      (
        listed,
        init_vm_rg fresh down.rg_start up.rg_end ∷ remaining left down.addr,
        rw (delete-remaining up rgs a.0, delete-remaining down left i),
        λ x. omega (
          arith,
          count-remaining x up rgs d a.0,
          count-remaining x down left (Distinct-remaining up.addr rgs d) i,
          within-join x down.rg_start rg.start rg.end
              (omega (arith, b.1, Ordered-In down rgs o b.0)) (omega arith),
          within-join x down.rg_start rg.end up.rg_end
              (omega (arith, b.1, Ordered-In down rgs o b.0))
              (omega (arith, a.1, Ordered-In up rgs o a.0)),
          ap (λ t. within x t up.rg_end) a.1,
          ap (λ t. within x down.rg_start t) b.1,
        ),
      )

-- What the scan of the whole list finds.
abbrev pub touching : Region → List VmRg → Touching
touching rg rgs = scan rg (record { above = none; below = none }) rgs

module _ (fresh : ℕ) (garbage rgs : List VmRg) (rg : Region) where
  -- A freed region of at least one byte joins the free list: its bytes are listed once more and no
  -- others, whether it is merged with its neighbours or not. The list must not be empty, its nodes
  -- in order and at different addresses; and where the region closes a gap, the node below the gap
  -- must not stand right behind the node above it.
  pub enlist-Joined :
      Distinct rgs
      → Ordered rgs
      → rgs ≢ []
      → rg.start < rg.end
      → Mergeable rgs (touching rg rgs).above (touching rg rgs).below
      → (code : Enlisted) × (rgs' : List VmRg) × (enlist_vm_freerg_list fresh garbage rgs rg
          ≡ some (code, rgs'))
        × Joined rg rgs rgs'
  unfolding enlist_vm_freerg_list
  enlist-Joined d o nonempty positive m =
      let (a, b) =
        scan-touches rg rgs rgs (record { above = none; below = none }) (λ n i. i) tt tt in
      let (code, rgs', e, j) =
        touching-Joined fresh garbage rgs rg d o nonempty positive (touching rg rgs).above
          (touching rg rgs).below a b m in
      (code, rgs', rw (lt→leb rg.end rg.start positive) e, j)

  -- An empty or inverted region is refused, and the list stays as it is.
  pub enlist-refused :
      rg.end ≤ rg.start → enlist_vm_freerg_list fresh garbage rgs rg ≡ some (refused, rgs)
  unfolding enlist_vm_freerg_list
  enlist-refused h = rw (le→leb rg.end rg.start h)

  -- A freed region that closes the gap between two nodes is a use of freed memory where the node
  -- below the gap stands right behind the node above it: the first deletion frees the node that
  -- the second one is to delete.
  pub enlist-fault :
      (up down : VmRg)
      → Distinct rgs
      → rg.start < rg.end
      → touching rg rgs ≡ record { above = some up; below = some down }
      → follows up.addr down.addr rgs ≡ true
      → enlist_vm_freerg_list fresh garbage rgs rg ≡ none
  unfolding enlist_vm_freerg_list
  enlist-fault up down d positive t f =
      let found =
        scan-touches rg rgs rgs (record { above = none; below = none }) (λ n i. i) tt tt in
      let i : In up rgs = (rw t at found).0.0 in
      rw (lt→leb rg.end rg.start positive, t, enlist_touching)
        (rw (delete-remaining up rgs i) (
          rw (
            delete-Absent down.addr (remaining rgs up.addr)
              (remaining-Absent up.addr down.addr rgs d f))))
