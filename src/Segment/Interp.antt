-- ===== src/Segment/Interp.antt =====
-- The instructions of src/cpu.c on mem.c, which `run` calls where MM_PAGING is not set.
use operating_systems_simula.Prelude.{
  ℕ, ◌+◌, ◌-◌, ◌%◌, ◌^◌, Option, none, some, ltb, ◌==◌, if◌then◌else◌, ◌>>=◌, length, get_or, set,
}
use operating_systems_simula.Segment.{Mem, SegPcb, alloc_mem, free_mem, read_mem, write_mem}

-- `regs[i]`, and an assignment to it. Outside the ten registers it is undefined: `none`.
abbrev pub get_reg : SegPcb → ℕ → Option ℕ
get_reg proc i = if ltb i (length proc.regs) then some (get_or proc.regs i 0) else none

abbrev pub put_reg : SegPcb → ℕ → ℕ → Option SegPcb
put_reg proc i v =
    if ltb i (length proc.regs) then some (record proc { regs = set proc.regs i v }) else none

-- A `BYTE` is a `char`: its sign goes on.
abbrev pub word_of_byte : ℕ → ℕ
word_of_byte b = if ltb b 128 then b else 2 ^ 32 - 256 + b

-- `alloc`
unfoldable pub alloc_reg : SegPcb → ℕ → ℕ → Option (ℕ × SegPcb)
alloc_reg proc size reg_index =
    let (addr, proc') = alloc_mem size proc in
    if addr == 0
    then some (1, proc')
    else (put_reg proc' reg_index addr >>= λ proc''. some (0, proc''))

unfoldable pub free_data : SegPcb → ℕ → Option (ℕ × SegPcb)
free_data proc reg_index = get_reg proc reg_index >>= λ addr. some (free_mem addr proc, proc)

-- What the stack holds at `physical_addr` and at `data`.
pub record Stack : Type 0 where
  pub physical : ℕ
  pub byte : ℕ

-- What `read` does with the result of `read_mem`, which is 0 where the byte was read.
abbrev pub store_read : SegPcb → ℕ → ℕ × ℕ → Option (ℕ × SegPcb)
store_read proc destination (result, byte) =
    if result == 0
    then some (1, proc)
    else (put_reg proc destination (word_of_byte byte) >>= λ proc'. some (0, proc'))

-- `read`
unfoldable pub read_reg : Stack → Mem → SegPcb → ℕ → ℕ → ℕ → Option (ℕ × SegPcb)
read_reg stack mem proc source offset destination = get_reg proc source >>= λ base.
    read_mem stack.physical mem ((base + offset) % 2 ^ 32) proc stack.byte
    >>= store_read proc destination

-- `write`
unfoldable pub write_reg : Stack → Mem → SegPcb → ℕ → ℕ → ℕ → Option (ℕ × Mem)
write_reg stack mem proc byte destination offset = get_reg proc destination >>= λ base.
    write_mem stack.physical mem ((base + offset) % 2 ^ 32) proc byte
