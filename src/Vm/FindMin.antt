-- ===== src/Vm/FindMin.antt =====
-- `find_min` of src/mm-vm.c.
mod Tests
use operating_systems_simula.Prelude.{
  ℕ, zero, suc, ◌+◌, ◌-◌, ◌*◌, ◌%◌, ◌^◌, ◌≤◌, ◌<◌, ◌≡◌, refl, inl, inr, ◌⊎◌, Bool, true, false,
  List, arith, ltb, if◌then◌else◌, Bool-cases, get_or, subst, sym, ℕ_discrete,
}

-- The order of two `int`s, on their bit patterns.
abbrev pub rank : ℕ → ℕ
rank a = (a + 2 ^ 31) % 2 ^ 32

abbrev pub int_ltb : ℕ → ℕ → Bool
int_ltb a b = ltb (rank a) (rank b)

-- The loop, by the rounds left, `i` and `*ret_elmnt`.
unfoldable pub find_loop : ℕ → List ℕ → ℕ → ℕ → ℕ
find_loop zero arr i ret = ret
find_loop (suc n) arr i ret =
    find_loop n arr (i + 1) (if int_ltb (get_or arr ret 0) (get_or arr i 0) then i else ret)

-- `size` is an `int` that is not negative.
unfoldable pub find_min : List ℕ → ℕ → ℕ
unfolding find_loop
find_min arr size = find_loop (size - 1) arr 1 0

-- Element `r` is the first of the largest below `i`.
pub record FirstLargest (arr : List ℕ) (i r : ℕ) : Type 0 where
  pub below : r < i
  pub largest : (j : ℕ) → j < i → rank (get_or arr j 0) ≤ rank (get_or arr r 0)
  pub first : (j : ℕ) → j < r → rank (get_or arr j 0) < rank (get_or arr r 0)

upto : (P : ℕ → Type 0) (i : ℕ) → ((j : ℕ) → j < i → P j) → P i → (j : ℕ) → j < suc i → P j
upto P i below here j h = elim (ℕ_discrete j i) [
  | yes e ↦ subst P (sym e) here
  | no ne ↦ below j (omega (arith, ne))
]

one_more :
    (arr : List ℕ) (i r : ℕ)
    → FirstLargest arr i r
    → FirstLargest arr (suc i) (if int_ltb (get_or arr r 0) (get_or arr i 0) then i else r)
one_more arr i r v = elim (Bool-cases (int_ltb (get_or arr r 0) (get_or arr i 0))) [
  | inl h ↦
      let more : rank (get_or arr r 0) < rank (get_or arr i 0) = ground arith in
      rw h (record {
        below = omega arith;
        largest = λ j b.
            upto (λ k. rank (get_or arr k 0) ≤ rank (get_or arr i 0)) i
              (λ k c. omega (arith, v.largest k c, more)) (omega arith) j b;
        first = λ j b. omega (arith, v.largest j b, more);
      })
  | inr h ↦
      let less : rank (get_or arr i 0) ≤ rank (get_or arr r 0) = ground arith in
      rw h (record {
        below = omega (arith, v.below);
        largest =
            λ j b. upto (λ k. rank (get_or arr k 0) ≤ rank (get_or arr r 0)) i v.largest less j b;
        first = v.first;
      })
]

find_loop-FirstLargest :
    (n : ℕ) (arr : List ℕ) (i r : ℕ)
    → FirstLargest arr i r
    → FirstLargest arr (i + n) (find_loop n arr i r)
unfolding find_loop
find_loop-FirstLargest zero arr i r v = subst (λ k. FirstLargest arr k r) (omega arith) v
find_loop-FirstLargest (suc n) arr i r v =
    subst (λ k. FirstLargest arr k (find_loop (suc n) arr i r)) (omega arith)
      (find_loop-FirstLargest n arr (i + 1) _ (
        subst (λ k. FirstLargest arr k (if int_ltb (get_or arr r 0) (get_or arr i 0) then i else r))
          (omega arith) (one_more arr i r v)))

-- Of an array that is not empty, `find_min` gives the index of the largest element, the first one of
-- them: not of the least.
pub find_min-FirstLargest :
    (arr : List ℕ) (size : ℕ) → 0 < size → FirstLargest arr size (find_min arr size)
unfolding find_min
find_min-FirstLargest arr size h =
    subst (λ k. FirstLargest arr k (find_loop (size - 1) arr 1 0)) (omega arith)
      (find_loop-FirstLargest (size - 1) arr 1 0 (record {
        below = omega arith;
        largest = λ j b. let z : j ≡ 0 = omega arith in rw z (omega arith);
        first = λ j b. absurd (omega arith);
      }))
