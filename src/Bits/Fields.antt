-- ===== src/Bits/Fields.antt =====
-- The operators of include/mm.h on a word cut into three fields: `l` low bits, `w` bits in the
-- middle, and at most `h` bits above them.
use operating_systems_simula.Prelude.{
  ℕ, ◌+◌, ◌-◌, ◌*◌, ◌^◌, ◌<◌, ◌≡◌, ◌∙◌, ap, arith, bit_and, bit_or,
}
use operating_systems_simula.Bits.{bit_not, shl, shr, set_bit, clr_bit, set_val, get_val}
use operating_systems_simula.Bits.Digits.{
  bit_and-parts, bit_or-parts, bit_and-zero_right, bit_or-zero_left, bit_or-zero_right,
  bit_and-ones,
}

module _ (l w h : ℕ) where
  abbrev pub word : ℕ → ℕ → ℕ → ℕ
  word hi mid lo = (hi * 2 ^ w + mid) * 2 ^ l + lo

  pub record Fits (hi mid lo : ℕ) : Type 0 where
    pub high : hi < 2 ^ h
    pub middle : mid < 2 ^ w
    pub low : lo < 2 ^ l

  bit_and-word :
      (hi mid lo hi' mid' lo' : ℕ)
      → Fits hi mid lo
      → Fits hi' mid' lo'
      → bit_and (word hi mid lo) (word hi' mid' lo')
        ≡ word (bit_and hi hi') (bit_and mid mid') (bit_and lo lo')
  bit_and-word hi mid lo hi' mid' lo' f g =
      bit_and-parts l (hi * 2 ^ w + mid) lo (hi' * 2 ^ w + mid') lo' f.low g.low
      ∙ ap (λ x. x * 2 ^ l + bit_and lo lo') (bit_and-parts w hi mid hi' mid' f.middle g.middle)

  bit_or-word :
      (hi mid lo hi' mid' lo' : ℕ)
      → Fits hi mid lo
      → Fits hi' mid' lo'
      → bit_or (word hi mid lo) (word hi' mid' lo')
        ≡ word (bit_or hi hi') (bit_or mid mid') (bit_or lo lo')
  bit_or-word hi mid lo hi' mid' lo' f g =
      bit_or-parts l (hi * 2 ^ w + mid) lo (hi' * 2 ^ w + mid') lo' f.low g.low
      ∙ ap (λ x. x * 2 ^ l + bit_or lo lo') (bit_or-parts w hi mid hi' mid' f.middle g.middle)

  -- A mask of the middle field, and its complement.
  pub record IsMask (mask : ℕ) : Type 0 where
    pub ones : mask ≡ word 0 (2 ^ w - 1) 0
    pub rest : bit_not mask ≡ word (2 ^ h - 1) 0 (2 ^ l - 1)
    pub zeros : Fits 0 (2 ^ w - 1) 0
    pub others : Fits (2 ^ h - 1) 0 (2 ^ l - 1)

  bit_and-mask :
      (mask hi mid lo : ℕ)
      → IsMask mask
      → Fits hi mid lo
      → bit_and (word hi mid lo) mask ≡ word 0 mid 0
  bit_and-mask mask hi mid lo m f = rw m.ones (
      bit_and-word hi mid lo 0 (2 ^ w - 1) 0 f m.zeros
      ∙ rw (
        bit_and-zero_right h hi f.high,
        bit_and-ones w mid f.middle,
        bit_and-zero_right l lo f.low,
      ))

  bit_and-rest :
      (mask hi mid lo : ℕ)
      → IsMask mask
      → Fits hi mid lo
      → bit_and (word hi mid lo) (bit_not mask) ≡ word hi 0 lo
  bit_and-rest mask hi mid lo m f = rw m.rest (
      bit_and-word hi mid lo (2 ^ h - 1) 0 (2 ^ l - 1) f m.others
      ∙ rw (bit_and-ones h hi f.high, bit_and-zero_right w mid f.middle, bit_and-ones l lo f.low))

  module _ (mask hi mid lo x : ℕ) (m : IsMask mask) (f : Fits hi mid lo)
      (e : x ≡ word hi mid lo) where
    pub clr_bit-word : clr_bit x mask ≡ word hi 0 lo
    unfolding clr_bit
    clr_bit-word = rw e (bit_and-rest mask hi mid lo m f)

    pub bit_and-word_mask : bit_and x mask ≡ word 0 mid 0
    bit_and-word_mask = rw e (bit_and-mask mask hi mid lo m f)

    -- The field is read back by itself.
    pub get_val-word : shr (word 0 mid 0) l ≡ mid → get_val x mask l ≡ mid
    unfolding get_val
    get_val-word back = rw bit_and-word_mask back

    -- It is replaced by the low bits of a shifted value, and nothing else is touched.
    pub set_val-word :
        (value a b : ℕ)
        → shl value l ≡ word a b 0
        → Fits a b 0
        → set_val x value mask l ≡ word hi b lo
    unfolding set_val
    set_val-word value a b shifted g =
        let r : Fits hi 0 lo = record {
          high = f.high;
          middle = omega (arith, f.middle);
          low = f.low;
        } in
        let s : Fits 0 b 0 = record {
          high = omega (arith, f.high);
          middle = g.middle;
          low = g.low;
        } in
        rw (e, bit_and-rest mask hi mid lo m f, shifted, bit_and-mask mask a b 0 m g)
          (bit_or-word hi 0 lo 0 b 0 r s
            ∙ rw (bit_or-zero_right h hi f.high, bit_or-zero_left b, bit_or-zero_right l lo f.low))

    pub set_bit-word : bit_or mid (2 ^ w - 1) ≡ 2 ^ w - 1 → set_bit x mask ≡ word hi (2 ^ w - 1) lo
    unfolding set_bit
    set_bit-word full =
        rw (e, m.ones)
          (bit_or-word hi mid lo 0 (2 ^ w - 1) 0 f m.zeros
            ∙ rw (bit_or-zero_right h hi f.high, full, bit_or-zero_right l lo f.low))
