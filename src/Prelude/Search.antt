-- ===== src/Prelude/Search.antt =====
-- The least number of a range that passes a Boolean test.
use Prim.Native.Nat.{ℕ, zero, suc, ◌+◌, ◌≤◌, ◌<◌}
use mathlib.Core.Path.{◌≡◌}
use mathlib.Core.Logic.{◌⊎◌, inl, inr}
use mathlib.Core.Bool.{Bool, true, false, not, ◌&&◌}
use native.Mathlib.Omega.{arith}
use native.Mathlib.Decide.{ℕ_discrete}
use operating_systems_simula.Prelude.Tests.{Bool-cases}

-- No number from `lo` to `hi`, without `hi`, passes the test.
abbrev pub NoneIn : (ℕ → Bool) → ℕ → ℕ → Type 0
NoneIn p lo hi = (j : ℕ) → lo ≤ j → j < hi → p j ≡ false

pub record Least (p : ℕ → Bool) (lo hi : ℕ) : Type 0 where
  pub at : ℕ
  pub from : lo ≤ at
  pub below : at < hi
  pub passes : p at ≡ true
  pub first : NoneIn p lo at

NoneIn-cons : (p : ℕ → Bool) (lo hi : ℕ) → p lo ≡ false → NoneIn p (lo + 1) hi → NoneIn p lo hi
NoneIn-cons p lo hi e h j a b = elim (ℕ_discrete lo j) [
  | yes eq ↦ rw (← eq) e
  | no ne ↦ h j (omega arith) b
]

Least-cons : (p : ℕ → Bool) (lo hi : ℕ) → p lo ≡ false → Least p (lo + 1) hi → Least p lo hi
Least-cons p lo hi e l = record {
  at = l.at;
  from = omega (arith, l.from);
  below = l.below;
  passes = l.passes;
  first = NoneIn-cons p lo l.at e l.first;
}

-- A bounded search: nothing passes, or there is a first number that does.
pub least : (p : ℕ → Bool) (n lo hi : ℕ) → lo + n ≡ hi → NoneIn p lo hi ⊎ Least p lo hi
least p zero lo hi e = inl (λ j a b. absurd (omega arith))
least p (suc n) lo hi e = elim (Bool-cases (p lo)) [
  | inl t ↦ inr (record {
    at = lo;
    from = omega arith;
    below = omega arith;
    passes = t;
    first = λ j a b. absurd (omega arith);
  })
  | inr f ↦ elim (least p n (lo + 1) hi (omega arith)) [
    | inl h ↦ inl (NoneIn-cons p lo hi f h)
    | inr l ↦ inr (Least-cons p lo hi f l)
  ]
]

-- A range checked by evaluation.
abbrev pub none_below : (ℕ → Bool) → ℕ → Bool
none_below p zero = true
none_below p (suc n) = not (p n) && none_below p n

pub none_below-NoneIn : (p : ℕ → Bool) (n : ℕ) → none_below p n ≡ true → NoneIn p 0 n
none_below-NoneIn p zero h j a b = absurd (omega arith)
none_below-NoneIn p (suc n) h j a b = elim (ℕ_discrete j n) [
  | yes e ↦ rw e (ground arith)
  | no ne ↦ none_below-NoneIn p n (ground arith) j a (omega arith)
]
