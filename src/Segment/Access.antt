-- ===== src/Segment/Access.antt =====
-- What the instructions of cpu.c get from mem.c, and the number of pages it counts.
use operating_systems_simula.Prelude.{
  ℕ, zero, suc, ◌+◌, ◌*◌, ◌%◌, ◌^◌, ◌<◌, ◌≡◌, refl, arith, true, false, none, some, length, get_or,
  set, ltb, lt→ltb,
}
use operating_systems_simula.Segment.{
  SegPcb, Mem, page_size, get_trans_table_loop, get_trans_table, alloc_if, free_mem, alloc_mem,
  pages_of, read_mem, write_mem, translate,
}
use operating_systems_simula.Segment.Interp.{
  Stack, word_of_byte, alloc_reg, free_data, read_reg, write_reg,
}

loop-none : (n : ℕ) → get_trans_table_loop n ≡ none
unfolding get_trans_table_loop
loop-none zero = refl
loop-none (suc n) = loop-none n

-- The number of pages that `alloc_mem` counts is rounded the wrong way: they are too small for a size
-- that is not a whole number of pages, and one too many for one that is.
pub pages_of-rounding :
    (size : ℕ)
    → (0 < size % page_size → pages_of size * page_size < size)
      × (size % page_size ≡ 0 → pages_of size * page_size ≡ size + page_size)
unfolding pages_of
pages_of-rounding size = (λ h. ground arith, λ h. ground arith)

translate-fails :
    (addr physical : ℕ) (proc : SegPcb) → translate addr physical proc ≡ (false, physical)
unfolding translate get_trans_table
translate-fails addr physical proc = rw (translate, loop-none proc.page_table.size) refl

read_mem-fails :
    (physical : ℕ) (mem : Mem) (addr : ℕ) (proc : SegPcb) (byte : ℕ)
    → read_mem physical mem addr proc byte ≡ some (1, byte)
unfolding read_mem
read_mem-fails physical mem addr proc byte = rw (read_mem, translate-fails addr physical proc) refl

write_mem-fails :
    (physical : ℕ) (mem : Mem) (addr : ℕ) (proc : SegPcb) (byte : ℕ)
    → write_mem physical mem addr proc byte ≡ some (1, mem)
unfolding write_mem
write_mem-fails physical mem addr proc byte =
    rw (write_mem, translate-fails addr physical proc) refl

-- Let `i` and `j` be numbers of registers. Then ALLOC fails and changes nothing, FREE reports success
-- and changes nothing, WRITE fails and changes nothing, and READ, whose every access of the memory
-- fails, reports success and puts what the stack held at the variable `data` into register `j`.
pub segment-refuses :
    (stack : Stack) (mem : Mem) (proc : SegPcb) (i j size offset byte : ℕ)
    → i < length proc.regs
    → j < length proc.regs
    → (alloc_reg proc size i ≡ some (1, proc))
      × (free_data proc i ≡ some (0, proc))
      × (write_reg stack mem proc byte i offset ≡ some (1, mem))
      × (read_mem stack.physical mem offset proc stack.byte ≡ some (1, stack.byte))
      × (read_reg stack mem proc i offset j
          ≡ some (0, record proc { regs = set proc.regs j (word_of_byte stack.byte) }))
unfolding alloc_reg free_data write_reg read_reg alloc_mem free_mem alloc_if
segment-refuses stack mem proc i j size offset byte below_i below_j =
    let reg : ltb i (length proc.regs) ≡ true = lt→ltb i (length proc.regs) below_i in
    (
      refl,
      rw (free_data, reg) refl,
      rw (write_reg, reg)
          (write_mem-fails stack.physical mem ((get_or proc.regs i 0 + offset) % 2 ^ 32) proc byte),
      read_mem-fails stack.physical mem offset proc stack.byte,
      rw
          (
            read_reg,
            reg,
            read_mem-fails stack.physical mem ((get_or proc.regs i 0 + offset) % 2 ^ 32) proc
                stack.byte,
            lt→ltb j (length proc.regs) below_j,
          )
          refl,
    )
