-- ===== src/Segment/Address.antt =====
-- The parts of an address in mem.c.
use operating_systems_simula.Prelude.{
  ℕ, ◌+◌, ◌-◌, ◌*◌, ◌/◌, ◌%◌, ◌^◌, ◌<◌, ◌≡◌, ◌∙◌, ap, arith, bit_and,
}
use operating_systems_simula.Bits.Digits.{bit_and-parts, bit_and-zero_right, bit_and-ones}
use operating_systems_simula.Segment.{get_offset, get_first_lv, get_second_lv}

get_offset_lem : (addr : ℕ) → addr < 2 ^ 32 → get_offset addr ≡ addr % 2 ^ 10
unfolding get_offset
get_offset_lem addr h =
    let e : addr ≡ addr / 2 ^ 10 * 2 ^ 10 + addr % 2 ^ 10 = omega arith in
    let parts : bit_and (addr / 2 ^ 10 * 2 ^ 10 + addr % 2 ^ 10) (0 * 2 ^ 10 + (2 ^ 10 - 1))
        ≡ bit_and (addr / 2 ^ 10) 0 * 2 ^ 10 + bit_and (addr % 2 ^ 10) (2 ^ 10 - 1) =
      bit_and-parts 10 (addr / 2 ^ 10) (addr % 2 ^ 10) 0 (2 ^ 10 - 1) (omega arith) (omega arith) in
    let zero : bit_and (addr / 2 ^ 10) 0 ≡ 0 =
      bit_and-zero_right 22 (addr / 2 ^ 10) (omega arith) in
    let ones : bit_and (addr % 2 ^ 10) (2 ^ 10 - 1) ≡ addr % 2 ^ 10 =
      bit_and-ones 10 (addr % 2 ^ 10) (omega arith) in
    ap (λ a. bit_and a (2 ^ 10 - 1)) e ∙ parts ∙ omega (arith, zero, ones)

-- The two indices and the offset of an address put it together again. The offset and the second
-- index are below 2 ^ 10 and 2 ^ 5; in an address of 20 bits the first index is below 2 ^ 5 too.
pub address-parts :
    (addr : ℕ)
    → addr < 2 ^ 32
    → (get_first_lv addr * 2 ^ 15 + get_second_lv addr * 2 ^ 10 + get_offset addr ≡ addr)
      × (get_offset addr < 2 ^ 10)
      × (get_second_lv addr < 2 ^ 5)
      × (addr < 2 ^ 20 → get_first_lv addr < 2 ^ 5)
unfolding get_first_lv get_second_lv
address-parts addr h =
    let o : get_offset addr ≡ addr % 2 ^ 10 = get_offset_lem addr h in
    (omega (arith, o), omega (arith, o), omega arith, λ small. omega arith)
