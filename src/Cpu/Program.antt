-- ===== src/Cpu/Program.antt =====
-- A program of calculations and allocations, from its first instruction to its last.
use operating_systems_simula.Prelude.{
  ℕ, zero, suc, ◌+◌, ◌^◌, ◌≤◌, ◌<◌, ◌≡◌, refl, ◌∙◌, ap, List, arith, length, get_or,
}
use operating_systems_simula.Memphy.{Outcome, ok, failed, fault}
use operating_systems_simula.Vm.{VmArea, Caller}
use operating_systems_simula.Vm.Paging.{paging_max_symtbl_sz}
use operating_systems_simula.Vm.Regular.{Regular, pgalloc-Regular}
use operating_systems_simula.Cpu.{
  Opcode, calc, alloc, free, read, write, other, Inst, Pcb, Devices, Junk, no_inst, settle,
  of_option, execute, caller_of, back, run,
}
use operating_systems_simula.Cpu.Steps.{Running, inst_at, run-step}

-- `n` calls of `run`, each with what `malloc` and the stack hold then.
pub run_times : ℕ → (ℕ → Junk) → Devices → Pcb → Outcome (Devices × Pcb)
run_times zero junk dev proc = ok (dev, proc)
run_times (suc n) junk dev proc = elim (run (junk n) dev proc) [
  | ok r ↦ run_times n junk r.devices r.proc
  | failed ↦ failed
  | fault ↦ fault
]

-- A calculation, or the allocation of a region of the table with at least one byte.
abbrev pub IsPlain : Opcode → Inst → Type 0
IsPlain calc ins = Unit {0}
IsPlain alloc ins = (0 < ins.arg_0) × (ins.arg_1 < paging_max_symtbl_sz)
IsPlain free ins = ⊥
IsPlain read ins = ⊥
IsPlain write ins = ⊥
IsPlain other ins = Unit {0}

-- The bytes that an instruction asks for, and those that `n` instructions from `i` on do.
abbrev pub asks : Opcode → Inst → ℕ
asks alloc ins = ins.arg_0
asks _ ins = 0

unfoldable pub demand : List Inst → ℕ → ℕ → ℕ
demand text i zero = 0
demand text i (suc n) =
    asks (get_or text i no_inst).opcode (get_or text i no_inst) + demand text (i + 1) n

-- What one instruction leaves: memory that is regular, with a break that is at most `asked` higher.
record Kept (caller : Caller) (vma : VmArea) (more : List VmArea) (asked : ℕ)
    (out : Outcome (ℕ × Caller)) : Type 0 where
  stat : ℕ
  after : Caller
  vma' : VmArea
  done : out ≡ ok (stat, after)
  regular : Regular after vma' more
  brk : vma'.sbrk ≤ vma.sbrk + asked

execute-Kept :
    (junk : Junk) (op : Opcode) (ins : Inst) (caller : Caller) (vma : VmArea) (more : List VmArea)
    → IsPlain op ins
    → vma.sbrk + asks op ins ≤ 2 ^ 22
    → Regular caller vma more
    → Kept caller vma more (asks op ins) (execute junk op ins caller)
unfolding execute
execute-Kept junk calc ins caller vma more plain fits r = record {
  stat = 0;
  after = caller;
  vma' = vma;
  done = refl;
  regular = r;
  brk = omega arith;
}
execute-Kept junk alloc ins caller vma more plain fits r =
    let (out, vma', e, _, _, brk, regular) =
      pgalloc-Regular caller vma more ins.arg_1 ins.arg_0 r plain.1 plain.0 fits in
    record {
      stat = 0;
      after = out;
      vma' = vma';
      done = ap (λ o. settle caller (of_option o)) e;
      regular = regular;
      brk = brk;
    }
execute-Kept junk free ins caller vma more plain fits r = absurd plain
execute-Kept junk read ins caller vma more plain fits r = absurd plain
execute-Kept junk write ins caller vma more plain fits r = absurd plain
execute-Kept junk other ins caller vma more plain fits r = record {
  stat = 1;
  after = caller;
  vma' = vma;
  done = refl;
  regular = r;
  brk = omega arith;
}

-- A program of calculations and allocations ends after exactly as many calls of `run` as it has
-- instructions left: no call faults, the counter is at the end of the program, and the memory of the
-- process is regular. What it asks for must fit below the break on the bus of 22 bits.
pub run_times-finished :
    (n : ℕ) (junk : ℕ → Junk) (dev : Devices) (proc : Pcb) (vma : VmArea) (more : List VmArea)
    → proc.pc + n ≡ proc.code.size
    → proc.code.size ≤ length proc.code.text
    → proc.code.size < 2 ^ 32
    → ((i : ℕ) → i < proc.code.size → IsPlain (inst_at proc i).opcode (inst_at proc i))
    → vma.sbrk + demand proc.code.text proc.pc n ≤ 2 ^ 22
    → Regular (caller_of dev proc) vma more
    → (dev' : Devices) × (proc' : Pcb) × (vma' : VmArea) × (run_times n junk dev proc
        ≡ ok (dev', proc'))
      × (proc' ≡ record proc { pc = proc.code.size; mm = proc'.mm })
      × Regular (caller_of dev' proc') vma' more
unfolding run_times demand
run_times-finished zero junk dev proc vma more e written word plain fits r =
    let end : proc.pc ≡ proc.code.size = omega arith in
    (dev, proc, vma, refl, (λ i. record proc { pc = end i }), r)
run_times-finished (suc n) junk dev proc vma more e written word plain fits r =
    let ins : Inst = inst_at proc proc.pc in
    let running : Running proc = record { inside = omega arith; written = written; word = word } in
    let k =
      execute-Kept (junk n) ins.opcode ins (caller_of dev proc) vma more
        (plain proc.pc (omega arith)) (omega arith) r in
    let next : Pcb = record proc { pc = proc.pc + 1; mm = k.after.mm } in
    let devices : Devices = record { mram = k.after.mram; active_mswp = k.after.active_mswp } in
    let stepped =
      run-step (junk n) dev proc running ∙ ap (back (record proc { pc = proc.pc + 1 })) k.done in
    let (dev', proc', vma', run_rest, same, regular) =
      run_times-finished n junk devices next k.vma' more (omega arith) written word plain
        (omega (arith, k.brk)) k.regular in
    (dev', proc', vma', rw (stepped, run_times) run_rest, same, regular)
