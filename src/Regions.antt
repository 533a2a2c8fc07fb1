-- ===== src/Regions.antt =====
-- The lists of free regions of src/mm-vm.c and src/mm.c.
pub mod Count
pub mod FirstFit
pub mod Scan
pub mod Enlist
pub mod Shape
pub mod Listing
mod Tests
use operating_systems_simula.Prelude.{
  ℕ, zero, suc, ◌+◌, ◌-◌, ◌%◌, ◌^◌, Bool, true, false, ◌&&◌, Option, none, some, List, [], ◌∷◌, ltb,
  leb, ◌==◌, if◌then◌else◌, ◌>>=◌, map,
}

-- `unsigned long` addition, and an `int` (a 32-bit pattern) as an `unsigned long`.
abbrev pub add_ulong : ℕ → ℕ → ℕ
add_ulong a b = (a + b) % 2 ^ 64

abbrev pub ulong_of_int : ℕ → ℕ
ulong_of_int p = if ltb p (2 ^ 31) then p else p + (2 ^ 64 - 2 ^ 32)

-- A `struct vm_rg_struct` on the heap, with its address. A list of nodes stands for the chain of
-- their `rg_next` pointers.
pub record VmRg : Type 0 where
  pub addr : ℕ
  pub rg_start : ℕ
  pub rg_end : ℕ

-- The bounds of a region that is no list node, such as an entry of `symrgtbl`.
pub record Region : Type 0 where
  pub start : ℕ
  pub end : ℕ

unfoldable pub init_vm_rg : ℕ → ℕ → ℕ → VmRg
init_vm_rg addr rg_start rg_end = record { addr = addr; rg_start = rg_start; rg_end = rg_end }

unfoldable pub enlist_vm_rg_node : List VmRg → VmRg → List VmRg
enlist_vm_rg_node rglist rgnode = rgnode ∷ rglist

-- A node takes over its successor, which is freed; the last node becomes an empty region.
unfoldable pub absorb_next : VmRg → List VmRg → List VmRg
absorb_next rg [] = record rg { rg_start = rg.rg_end } ∷ []
absorb_next rg (next ∷ rest) = record rg { rg_start = next.rg_start; rg_end = next.rg_end } ∷ rest

-- `delete_vm_rg_node` on the node at `target`. A target that is not in the list has been freed.
unfoldable pub delete_vm_rg_node : List VmRg → ℕ → Option (List VmRg)
unfolding absorb_next
delete_vm_rg_node [] target = none
delete_vm_rg_node (rg ∷ rest) target =
    if rg.addr == target
    then some (absorb_next rg rest)
    else (delete_vm_rg_node rest target >>= λ rest'. some (rg ∷ rest'))

-- The loop of `get_free_vmrg_area`: the first region with room for `size` gives its low end.
unfoldable pub first_fit : List VmRg → ℕ → Option (Region × List VmRg)
unfolding absorb_next
first_fit [] size = none
first_fit (rg ∷ rest) size =
    let top = add_ulong rg.rg_start size in
    if leb top rg.rg_end
    then some (
      record { start = rg.rg_start; end = top },
      if ltb top rg.rg_end then record rg { rg_start = top } ∷ rest else absorb_next rg rest,
    )
    else (first_fit rest size >>= λ (found, rest'). some (found, rg ∷ rest'))

-- `get_free_vmrg_area`; `none` is the return of -1. A region that starts at `(unsigned long)-1` is
-- taken for none, after it was cut out of the list.
unfoldable pub get_free_vmrg_area : List VmRg → ℕ → Option Region × List VmRg
unfolding first_fit
get_free_vmrg_area rgs size = elim (first_fit rgs (ulong_of_int size)) [
  | none ↦ (none, rgs)
  | some (found, rgs') ↦ if found.start == 2 ^ 64 - 1 then (none, rgs') else (some found, rgs')
]

-- The scan of `enlist_vm_freerg_list`: the last region above `rg` that it touches, and the last one
-- below, up to the first region from 0 to 0.
pub record Touching : Type 0 where
  pub above : Option VmRg
  pub below : Option VmRg

unfoldable pub scan : Region → Touching → List VmRg → Touching
scan rg seen [] = seen
scan rg seen (walk ∷ rest) =
    let seen' : Touching = record {
      above = if rg.end == walk.rg_start then some walk else seen.above;
      below = if rg.start == walk.rg_end then some walk else seen.below;
    } in
    let on = scan rg seen' rest in if (walk.rg_start == 0) && (walk.rg_end == 0) then seen else on

abbrev pub update_rg : ℕ → (VmRg → VmRg) → List VmRg → List VmRg
update_rg target f = map (λ rg. if rg.addr == target then f rg else rg)

-- The list behind a new node: its `rg_next` is set only where the list is not empty. Else it is
-- what `malloc` left: `garbage` is the list that this leads to.
abbrev pub behind : List VmRg → List VmRg → List VmRg
behind garbage [] = garbage
behind garbage (rg ∷ rest) = rg ∷ rest

-- The return values -1, 1 and 0.
pub data Enlisted : Type 0 where
  refused merged listed : Enlisted

-- What follows the scan. `fresh` is the address that `malloc` returns; `none` is a use of freed
-- memory: the first deletion may have freed the node that the second one is to delete.
unfoldable pub enlist_touching :
    (fresh : ℕ) (garbage rgs : List VmRg) (rg : Region)
    → Option VmRg
    → Option VmRg
    → Option (Enlisted × List VmRg)
unfolding delete_vm_rg_node
enlist_touching fresh garbage rgs rg none none =
    some (listed, init_vm_rg fresh rg.start rg.end ∷ behind garbage rgs)
enlist_touching fresh garbage rgs rg (some up) none =
    some (merged, update_rg up.addr (λ n. record n { rg_start = rg.start }) rgs)
enlist_touching fresh garbage rgs rg none (some down) =
    some (merged, update_rg down.addr (λ n. record n { rg_end = rg.end }) rgs)
enlist_touching fresh garbage rgs rg (some up) (some down) = do
  rgs' ← delete_vm_rg_node rgs up.addr
  rgs'' ← delete_vm_rg_node rgs' down.addr
  some (listed, init_vm_rg fresh down.rg_start up.rg_end ∷ rgs'')

unfoldable pub enlist_vm_freerg_list :
    (fresh : ℕ) (garbage rgs : List VmRg) (rg : Region) → Option (Enlisted × List VmRg)
unfolding scan enlist_touching
enlist_vm_freerg_list fresh garbage rgs rg =
    let t : Touching = scan rg (record { above = none; below = none }) rgs in
    if leb rg.end rg.start
    then some (refused, rgs)
    else enlist_touching fresh garbage rgs rg t.above t.below
