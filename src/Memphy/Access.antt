-- ===== src/Memphy/Access.antt =====
-- Reading and writing one cell of a device, and the cursor of a sequential one.
use Prim.Native.Nat.{min}
use native.Mathlib.Nat.{mod-add-mod}
use operating_systems_simula.Prelude.{
  ℕ, zero, suc, ◌+◌, ◌%◌, ◌≤◌, ◌<◌, ◌≡◌, ◌≢◌, refl, ◌∙◌, ap, inl, inr, ◌&&◌, arith, ltb, ◌==◌,
  if◌then◌else◌, Bool-cases, length, get_or, set, length-set, get_or-set_self, get_or-set_ne,
  lt→ltb, eq→==, ne→==, ℕ_discrete,
}
use operating_systems_simula.Memphy.{Memphy, mv_loop, mv_csr, ok, failed, memphy_read, memphy_write}

mv_loop-cursor :
    (fuel offset maxsz n c : ℕ)
    → c ≡ n % maxsz
    → n ≤ min offset maxsz
    → min offset maxsz ≤ n + fuel
    → mv_loop fuel offset maxsz n c ≡ min offset maxsz % maxsz
unfolding mv_loop
mv_loop-cursor zero offset maxsz n c e h f =
    let m : n ≡ min offset maxsz = omega arith in e ∙ ap (λ k. k % maxsz) m
mv_loop-cursor (suc fuel) offset maxsz n c e h f = elim (Bool-cases (ltb n offset && ltb n maxsz)) [
  | inl t ↦ rw t (
      mv_loop-cursor fuel offset maxsz (n + 1) ((c + 1) % maxsz) (rw e (mod-add-mod n maxsz 1))
        (ground arith) (omega arith))
  | inr t ↦ let m : n ≡ min offset maxsz = ground arith in rw t (e ∙ ap (λ k. k % maxsz) m)
]

-- `MEMPHY_mv_csr` ends after at most `maxsz` steps with the cursor at the offset, capped at the
-- size and taken round the end of the device; nothing else of the device changes.
pub mv_csr-cursor :
    (mp : Memphy) (offset : ℕ)
    → mv_csr mp offset ≡ record mp { cursor = min offset mp.maxsz % mp.maxsz }
unfolding mv_csr
mv_csr-cursor mp offset =
    ap (λ c. record mp { cursor = c })
      (mv_loop-cursor mp.maxsz offset mp.maxsz 0 0 (zero_mod mp.maxsz) (omega arith) (omega arith))
  where
    zero_mod : (m : ℕ) → 0 ≡ 0 % m
    zero_mod m = grind arith

module _ (mp : Memphy) (random : mp.rdmflg ≢ 0) where
  pub write_in_range :
      (addr v : ℕ)
      → addr < length mp.storage
      → memphy_write mp addr v ≡ ok (record mp { storage = set mp.storage addr v })
  unfolding memphy_write
  write_in_range addr v h = rw (ne→== mp.rdmflg 0 random, lt→ltb addr (length mp.storage) h)

  pub read_in_range :
      (addr : ℕ)
      → addr < length mp.storage
      → memphy_read mp addr ≡ ok (mp, get_or mp.storage addr 0)
  unfolding memphy_read
  read_in_range addr h = rw (ne→== mp.rdmflg 0 random, lt→ltb addr (length mp.storage) h)

  -- A cell of a random access device reads as what was last written there; a write to one cell is
  -- not seen at any other.
  pub read-write :
      (addr other v : ℕ)
      → addr < length mp.storage
      → other < length mp.storage
      → (after : Memphy) × (memphy_write mp addr v ≡ ok after)
        × (memphy_read after other
            ≡ ok (after, if addr == other then v else get_or mp.storage other 0))
  unfolding memphy_read
  read-write addr other v h k = (
    record mp { storage = set mp.storage addr v },
    write_in_range addr v h,
    rw (ne→== mp.rdmflg 0 random, length-set mp.storage addr v, lt→ltb other (length mp.storage) k)
        (elim (ℕ_discrete addr other) [
          | yes e ↦ rw (eq→== addr other e) (
              ap (λ x. ok (record mp { storage = set mp.storage addr v }, x))
                (rw (← e) (get_or-set_self mp.storage addr v 0 h)))
          | no ne ↦ rw (ne→== addr other ne) (
              ap (λ x. ok (record mp { storage = set mp.storage addr v }, x))
                (get_or-set_ne mp.storage addr other v 0 ne))
        ]),
  )

-- A sequential device cannot be used at all: `MEMPHY_read` and `MEMPHY_write` hand it to functions
-- that refuse every device but a random access one.
pub sequential_fails :
    (mp : Memphy) (addr v : ℕ)
    → mp.rdmflg ≡ 0
    → (memphy_read mp addr ≡ failed) × (memphy_write mp addr v ≡ failed)
unfolding memphy_read memphy_write
sequential_fails mp addr v e = rw (eq→== mp.rdmflg 0 e) (refl, refl)
