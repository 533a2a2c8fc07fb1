-- ===== src/Segment/Tests.antt =====
-- The memory of mem.c at concrete addresses, and its theorems at inputs that meet the hypotheses.
use operating_systems_simula.Prelude.{
  ◌+◌, ◌*◌, ◌^◌, ◌<◌, ◌≡◌, refl, [], ◌∷◌, arith, replicate, ◌-◌, some, set,
}
use operating_systems_simula.Segment.{
  Mem, SegPcb, page_size, get_first_lv, get_second_lv, get_offset, read_mem, translate,
  get_trans_table, get_trans_table_loop,
}
use operating_systems_simula.Segment.Interp.{Stack, read_reg}
use operating_systems_simula.Segment.Address.{address-parts}

-- Segment 2, page 3, byte 5.
get_offset_2_3_5 : get_offset 68613 ≡ 5
unfolding get_offset
get_offset_2_3_5 = refl

address-parts_example :
    (get_first_lv 68613 * 2 ^ 15 + get_second_lv 68613 * 2 ^ 10 + get_offset 68613 ≡ 68613)
    × (get_offset 68613 < 2 ^ 10)
    × (get_second_lv 68613 < 2 ^ 5)
    × (68613 < 2 ^ 20 → get_first_lv 68613 < 2 ^ 5)
address-parts_example = address-parts 68613 (omega arith)

abbrev mem : Mem
mem = record { ram = 1 ∷ 2 ∷ []; mem_stat = [] }

abbrev proc : SegPcb
proc = record {
  regs = replicate 10 0;
  page_table = record { table = []; size = 1 };
  bp = page_size;
}

-- The memory is not read: the byte that `read` puts into a register is the one that the stack held, with its sign.
abbrev stack : Stack
stack = record { physical = 0; byte = 200 }

read_garbage :
    read_reg stack mem proc 2 4 3 ≡ some (0, record proc { regs = set proc.regs 3 (2 ^ 32 - 56) })
unfolding read_reg read_mem translate get_trans_table get_trans_table_loop
read_garbage = refl
