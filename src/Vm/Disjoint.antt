-- ===== src/Vm/Disjoint.antt =====
-- Regions do not share bytes: `pgalloc` and `pgfree_data` keep this.
use operating_systems_simula.Prelude.{ℕ, ◌≤◌, ◌<◌, ◌≡◌, ◌⊎◌, inl, inr, List, arith}
use native.Mathlib.Decide.{dec_lt}
use operating_systems_simula.Regions.Count.{within}
use operating_systems_simula.Vm.{VmArea, Caller}
use operating_systems_simula.Vm.Owned.{owned}
use operating_systems_simula.Vm.Alloc.{Allocated}
use operating_systems_simula.Vm.Free.{Freed}

-- No byte is held by two regions, or held and free, or free twice, and none behind the break is.
pub record Disjoint (caller : Caller) (vma : VmArea) : Type 0 where
  pub apart : (x : ℕ) → owned x caller vma ≤ 1
  pub below : (x : ℕ) → vma.sbrk ≤ x → owned x caller vma ≡ 0

within-le : (x lo hi : ℕ) → within x lo hi ≤ 1
within-le x lo hi = ground arith

pub within-outside : (x lo hi : ℕ) → (x < lo) ⊎ (hi ≤ x) → within x lo hi ≡ 0
within-outside x lo hi h = ground arith

pub brk-le :
    {caller : Caller} {vma : VmArea} {more : List VmArea} {rgid size : ℕ} {out : Caller}
    (a : Allocated caller vma more rgid size out)
    → vma.sbrk ≤ a.vma'.sbrk
brk-le a = elim (a.source) [ inl s ↦ omega (arith, s.0) | inr s ↦ omega (arith, s.1) ]

pub Allocated-Disjoint :
    {caller : Caller} {vma : VmArea} {more : List VmArea} {rgid size : ℕ} {out : Caller}
    → Disjoint caller vma
    → (a : Allocated caller vma more rgid size out) → Disjoint out a.vma'
Allocated-Disjoint {vma} d a = record {
  apart = λ x. elim (dec_lt x vma.sbrk) [
    | yes h ↦ omega (arith, a.bytes x, d.apart x, within-outside x vma.sbrk a.vma'.sbrk (inl h))
    | no h ↦ omega (arith, a.bytes x, d.below x (omega arith), within-le x vma.sbrk a.vma'.sbrk)
  ];
  below = λ x h. omega (
    arith,
    a.bytes x,
    d.below x (omega (arith, brk-le a)),
    within-outside x vma.sbrk a.vma'.sbrk (inr h),
  );
}

pub Freed-Disjoint :
    {caller : Caller} {vma : VmArea} {more : List VmArea} {rgid : ℕ} {out : Caller}
    → Disjoint caller vma
    → (f : Freed caller vma more rgid out) → Disjoint out (record vma { vm_freerg_list = f.rgs })
Freed-Disjoint d f = record {
  apart = λ x. omega (arith, f.bytes x, d.apart x);
  below = λ x h. omega (arith, f.bytes x, d.below x h);
}
