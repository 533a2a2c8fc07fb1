-- ===== src/Segment.antt =====
-- src/mem.c and include/mem.h, the memory of the build without MM_PAGING, with the tables of
-- include/common.h. The lock `mem_lock` is taken in `alloc_mem` only, which changes nothing.
pub mod Interp
pub mod Address
pub mod Access
mod Tests
use operating_systems_simula.Prelude.{
  ℕ, zero, suc, ◌+◌, ◌-◌, ◌*◌, ◌/◌, ◌%◌, ◌^◌, bit_and, Bool, true, false, Option, none, some, List,
  [], ◌∷◌, ltb, ◌==◌, if◌then◌else◌, length, get_or, set, replicate,
}
use operating_systems_simula.Bits.{bit_not, shl, shr}

abbrev pub address_size : ℕ
address_size = 20

abbrev pub offset_len : ℕ
offset_len = 10

abbrev pub page_len : ℕ
page_len = 5

abbrev pub page_size : ℕ
page_size = 2 ^ offset_len

abbrev pub num_pages : ℕ
num_pages = 2 ^ (address_size - offset_len)

abbrev pub ram_size : ℕ
ram_size = 2 ^ address_size

pub record TransRow : Type 0 where
  pub v_index : ℕ
  pub p_index : ℕ

-- `struct trans_table_t`; `size` is an `int` that is not negative.
pub record TransTable : Type 0 where
  pub table : List TransRow
  pub size : ℕ

pub record PageRow : Type 0 where
  pub v_index : ℕ
  pub next_lv : Option TransTable

-- `struct page_table_t`
pub record PageTable : Type 0 where
  pub table : List PageRow
  pub size : ℕ

-- An entry of `_mem_stat`.
pub record PageStat : Type 0 where
  pub proc : ℕ
  pub index : ℕ
  pub next : ℕ

-- The static data of mem.c.
pub record Mem : Type 0 where
  pub ram : List ℕ
  pub mem_stat : List PageStat

-- `struct pcb_t`, with what these functions use.
pub record SegPcb : Type 0 where
  pub regs : List ℕ
  pub page_table : PageTable
  pub bp : ℕ

-- Both arrays are filled with zero bytes.
unfoldable pub init_mem : Mem
init_mem = record {
  ram = replicate ram_size 0;
  mem_stat = replicate num_pages (record { proc = 0; index = 0; next = 0 });
}

unfoldable pub get_offset : ℕ → ℕ
get_offset addr = bit_and addr (bit_not (shl (bit_not 0) offset_len))

unfoldable pub get_first_lv : ℕ → ℕ
get_first_lv addr = shr addr (offset_len + page_len)

-- A difference of words.
unfoldable pub get_second_lv : ℕ → ℕ
unfolding get_first_lv
get_second_lv addr = (shr addr offset_len + 2 ^ 32 - shl (get_first_lv addr) page_len) % 2 ^ 32

-- The loop has no body, and behind it stands `return NULL`.
unfoldable pub get_trans_table_loop : ℕ → Option TransTable
get_trans_table_loop zero = none
get_trans_table_loop (suc n) = get_trans_table_loop n

unfoldable pub get_trans_table : ℕ → PageTable → Option TransTable
unfolding get_trans_table_loop
get_trans_table index page_table = get_trans_table_loop page_table.size

-- The loop of `translate`, by the rounds left and `i`: whether a row of the table has the index.
unfoldable pub has_row : ℕ → ℕ → TransTable → ℕ → Bool
has_row zero i t second_lv = false
has_row (suc n) i t second_lv =
    let rest = has_row n (i + 1) t second_lv in
    if (get_or t.table i (record { v_index = 0; p_index = 0 })).v_index == second_lv
    then true
    else rest

-- `translate`: the result, with what `*physical_addr` holds then; nothing is ever written there.
unfoldable pub translate : ℕ → ℕ → SegPcb → Bool × ℕ
translate virtual_addr physical_addr proc =
    elim (get_trans_table (get_first_lv virtual_addr) proc.page_table) [
      | none ↦ (false, physical_addr)
      | some t ↦ (has_row t.size 0 t (get_second_lv virtual_addr), physical_addr)
    ]

-- `(size % PAGE_SIZE) ? size / PAGE_SIZE : size / PAGE_SIZE + 1`
unfoldable pub pages_of : ℕ → ℕ
pages_of size = if size % page_size == 0 then size / page_size + 1 else size / page_size

-- What follows in `alloc_mem` on the value of `mem_avail`.
unfoldable pub alloc_if : Bool → ℕ → SegPcb → ℕ × SegPcb
unfolding pages_of
alloc_if false size proc = (0, proc)
alloc_if true size proc =
    (proc.bp, record proc { bp = (proc.bp + pages_of size * page_size % 2 ^ 32) % 2 ^ 32 })

-- `mem_avail` is 0.
unfoldable pub alloc_mem : ℕ → SegPcb → ℕ × SegPcb
unfolding alloc_if
alloc_mem size proc = alloc_if false size proc

unfoldable pub free_mem : ℕ → SegPcb → ℕ
free_mem address proc = 0

-- `read_mem` and `write_mem`: the result, with the variable of the byte, or with the memory. `physical`
-- is what the stack holds at `physical_addr`. An access behind `_ram` is `none`.
unfoldable pub read_mem : ℕ → Mem → ℕ → SegPcb → ℕ → Option (ℕ × ℕ)
read_mem physical mem address proc byte =
    let (found, at) = translate address physical proc in
    if found
    then (if ltb at (length mem.ram) then some (0, get_or mem.ram at 0) else none)
    else some (1, byte)

unfoldable pub write_mem : ℕ → Mem → ℕ → SegPcb → ℕ → Option (ℕ × Mem)
write_mem physical mem address proc byte =
    let (found, at) = translate address physical proc in
    if found
    then (if ltb at (length mem.ram)
        then some (0, record mem { ram = set mem.ram at byte })
        else none)
    else some (1, mem)
