-- ===== src/Bits/Nbits.antt =====
-- `NBITS` of include/bitops.h: the position of the highest bit, by halving the word.
use native.Mathlib.Nat.{pow-suc, div-add-mod'}
use operating_systems_simula.Prelude.{
  ℕ, zero, suc, ◌+◌, ◌*◌, ◌/◌, ◌%◌, ◌^◌, ◌≤◌, ◌<◌, ◌≡◌, ◌∙◌, inl, inr, arith, bit_and, ◌==◌,
  if◌then◌else◌, ltb, Bool-cases, eq→==, ne→==,
}
use operating_systems_simula.Bits.{shr, nbits2, nbits4, nbits8, nbits16, nbits32, nbits}
use operating_systems_simula.Bits.Fields.{word, Fits, IsMask, bit_and-word_mask}

-- `b` is the position of the highest bit of `n`.
abbrev pub IsLog : ℕ → ℕ → Type 0
IsLog n b = (2 ^ b ≤ n) × (n < 2 ^ b * 2)

pow_add : (a b : ℕ) → 2 ^ (a + b) ≡ 2 ^ a * 2 ^ b
pow_add zero b = let e : 0 + b ≡ b = omega arith in rw e (omega arith)
pow_add (suc a) b =
    let e : suc a + b ≡ suc (a + b) = omega arith in
    rw (e, pow-suc 2 (a + b), pow_add a b, pow-suc 2 a) (omega arith)

mul_mono : (a b c : ℕ) → a ≤ b → a * c ≤ b * c
mul_mono a b c h = grind arith

-- The mask of the upper half of `k + k` bits keeps exactly the upper half.
upper_half :
    (k h mask n : ℕ)
    → IsMask k k h mask
    → Fits k k h 0 (n / 2 ^ k) (n % 2 ^ k)
    → n ≡ word k k h 0 (n / 2 ^ k) (n % 2 ^ k)
    → word k k h 0 (n / 2 ^ k) 0 ≡ n / 2 ^ k * 2 ^ k
    → bit_and n mask ≡ n / 2 ^ k * 2 ^ k
upper_half k h mask n m f e back =
    bit_and-word_mask k k h mask 0 (n / 2 ^ k) (n % 2 ^ k) n m f e ∙ back

-- One stage: the upper half of the word is looked at if it holds a bit.
stage :
    (k mask : ℕ) (f : ℕ → ℕ) (n : ℕ)
    → 0 < 2 ^ k
    → bit_and n mask ≡ n / 2 ^ k * 2 ^ k
    → ((m : ℕ) → 0 < m → m < 2 ^ k → IsLog m (f m))
    → 0 < n
    → n / 2 ^ k < 2 ^ k
    → IsLog n (if bit_and n mask == 0 then f n else k + f (shr n k))
stage k mask f n pos e half p h = elim (Bool-cases (ltb n (2 ^ k))) [
  | inl small ↦ rw (e, eq→== (n / 2 ^ k * 2 ^ k) 0 (grind arith)) (half n p (ground arith))
  | inr large ↦
      let q : 0 < n / 2 ^ k = grind arith in
      let (lo, hi) = half (n / 2 ^ k) q h in
      rw (e, ne→== (n / 2 ^ k * 2 ^ k) 0 (grind arith), pow_add k (f (n / 2 ^ k)))
        (
          omega
              (arith, mul_mono (2 ^ f (n / 2 ^ k)) (n / 2 ^ k) (2 ^ k) lo, div-add-mod' n (2 ^ k)),
          omega (
            arith,
            mul_mono (n / 2 ^ k + 1) (2 ^ f (n / 2 ^ k) * 2) (2 ^ k) (omega arith),
            div-add-mod' n (2 ^ k),
          ),
        )
]

nbits2-IsLog : (n : ℕ) → 0 < n → n < 2 ^ 2 → IsLog n (nbits2 n)
unfolding nbits2
nbits2-IsLog zero p h = elim p [ ]
nbits2-IsLog (suc zero) p h = omega arith
nbits2-IsLog (suc (suc zero)) p h = omega arith
nbits2-IsLog (suc (suc (suc zero))) p h = omega arith
nbits2-IsLog (suc (suc (suc (suc n)))) p h = absurd (omega arith)

nbits4-IsLog : (n : ℕ) → 0 < n → n < 2 ^ 4 → IsLog n (nbits4 n)
unfolding nbits4
nbits4-IsLog n p h =
    stage 2 0xC nbits2 n (omega arith)
      (upper_half 2 28 0xC n (omega arith) (omega arith) (omega arith) (omega arith)) nbits2-IsLog p
      (omega arith)

nbits8-IsLog : (n : ℕ) → 0 < n → n < 2 ^ 8 → IsLog n (nbits8 n)
unfolding nbits8
nbits8-IsLog n p h =
    stage 4 0xF0 nbits4 n (omega arith)
      (upper_half 4 24 0xF0 n (omega arith) (omega arith) (omega arith) (omega arith)) nbits4-IsLog
      p (omega arith)

nbits16-IsLog : (n : ℕ) → 0 < n → n < 2 ^ 16 → IsLog n (nbits16 n)
unfolding nbits16
nbits16-IsLog n p h =
    stage 8 0xFF00 nbits8 n (omega arith)
      (upper_half 8 16 0xFF00 n (omega arith) (omega arith) (omega arith) (omega arith))
      nbits8-IsLog p (omega arith)

nbits32-IsLog : (n : ℕ) → 0 < n → n < 2 ^ 32 → IsLog n (nbits32 n)
unfolding nbits32
nbits32-IsLog n p h =
    stage 16 0xFFFF0000 nbits16 n (omega arith)
      (upper_half 16 0 0xFFFF0000 n (omega arith) (omega arith) (omega arith) (omega arith))
      nbits16-IsLog p (omega arith)

-- For a 32-bit word that is not 0, `NBITS` is the position of the highest bit.
pub nbits-IsLog : (n : ℕ) → 0 < n → n < 2 ^ 32 → IsLog n (nbits n)
unfolding nbits
nbits-IsLog n p h = rw (ne→== n 0 (omega arith)) (nbits32-IsLog n p h)
