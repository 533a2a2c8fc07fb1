-- ===== src/Loader.antt =====
-- src/loader.c: a process is read from the file of its program.
pub mod Loaded
pub mod Print
pub mod RoundTrip
pub mod Runs
mod Tests
use Prim.Native.String.{String}
use text.Mathlib.Text.{◌==◌ as str_eq}
use operating_systems_simula.Prelude.{
  ℕ, zero, suc, ◌+◌, ◌%◌, ◌^◌, Option, none, some, List, [], ◌∷◌, ltb, if◌then◌else◌, get_or,
}
use operating_systems_simula.Cpu.{Opcode, calc, alloc, free, read, write, other, Inst, CodeSeg, Pcb}
use operating_systems_simula.Scanner.{Scanner, stored, numbers}

-- How a call ends: it returns, the program ends by `exit(1)`, or it writes behind an array.
pub data Exit {ℓ} (A : Type ℓ) : Type ℓ where
  done : A → Exit A
  exits : Exit A
  fault : Exit A

infixl 5 ◌>>=◌ ◌>>◌
abbrev pub ◌>>=◌ {ℓ κ} : {A : Type ℓ} {B : Type κ} → Exit A → (A → Exit B) → Exit B
done a >>= f = f a
exits >>= f = exits
fault >>= f = fault

abbrev pub ◌>>◌ {ℓ κ} : {A : Type ℓ} {B : Type κ} → Exit A → Exit B → Exit B
m >> k = m >>= λ _. k

abbrev pub or_exit {ℓ} : {A : Type ℓ} → Option A → Exit A
or_exit none = exits
or_exit (some a) = done a

unfoldable pub get_opcode : String → Option Opcode
get_opcode opt =
    if str_eq opt "calc"
    then some calc
    else if str_eq opt "alloc"
    then some alloc
    else if str_eq opt "free"
    then some free
    else if str_eq opt "read"
    then some read
    else if str_eq opt "write"
    then some write
    else none

-- `char opcode[10];`
abbrev pub opcode_places : ℕ
opcode_places = 10

-- What `malloc` and the stack hold before: the process, the instructions and the array `opcode`.
pub record Before : Type 0 where
  pub proc : Pcb
  pub insts : ℕ → Inst
  pub opcode : String

module _ (sc : Scanner) where
  -- The `switch` of `load`: the operands of an instruction that `malloc` has left as `before`.
  unfoldable pub operands : Opcode → Inst → sc.File → Option (Inst × sc.File)
  operands calc before f = some (record before { opcode = calc }, f)
  operands alloc before f =
      let (args, f') = numbers sc f (before.arg_0 ∷ before.arg_1 ∷ []) in
      some (record before { opcode = alloc; arg_0 = get_or args 0 0; arg_1 = get_or args 1 0 }, f')
  operands free before f =
      let (args, f') = numbers sc f (before.arg_0 ∷ []) in
      some (record before { opcode = free; arg_0 = get_or args 0 0 }, f')
  operands read before f =
      let (args, f') = numbers sc f (before.arg_0 ∷ before.arg_1 ∷ before.arg_2 ∷ []) in
      some (
        record {
          opcode = read;
          arg_0 = get_or args 0 0;
          arg_1 = get_or args 1 0;
          arg_2 = get_or args 2 0;
        },
        f',
      )
  operands write before f =
      let (args, f') = numbers sc f (before.arg_0 ∷ before.arg_1 ∷ before.arg_2 ∷ []) in
      some (
        record {
          opcode = write;
          arg_0 = get_or args 0 0;
          arg_1 = get_or args 1 0;
          arg_2 = get_or args 2 0;
        },
        f',
      )
  operands other before f = none

  -- `proc->code->text[i].opcode = get_opcode(opcode);` and the `switch`.
  unfoldable pub decode : String → Inst → sc.File → Exit (Inst × sc.File)
  decode opcode before f = or_exit (get_opcode opcode) >>= λ op. or_exit (operands op before f)

  -- `fscanf(file, "%s", opcode)`: the text that `opcode` holds then. A word that does not fit with its
  -- zero byte is written behind the array.
  unfoldable pub scan_opcode : String → Option String → Exit String
  scan_opcode opcode none = done opcode
  scan_opcode opcode (some w) = if ltb opcode_places (stored w) then fault else done w

  -- The loop of `load`, by the rounds left, with the instruction `i`: the rest of `text`.
  unfoldable pub load_text : ℕ → (ℕ → Inst) → ℕ → String → sc.File → Exit (List Inst)
  load_text zero before i opcode f = done []
  load_text (suc n) before i opcode f = do
    opcode' ← scan_opcode opcode (sc.word f).0
    (ins, f') ← decode opcode' (before i) (sc.word f).1
    text ← load_text n before (i + 1) opcode' f'
    done (ins ∷ text)

  -- What follows the two numbers at the head of the file.
  unfoldable pub load_code : Before → ℕ → List ℕ × sc.File → Exit Pcb
  load_code before pid (head, f) = do
    text ← load_text (get_or head 1 0) before.insts 0 before.opcode f
    done (record (before.proc) {
      pid = pid;
      priority = get_or head 0 0;
      code = record { text = text; size = get_or head 1 0 };
      pc = 0;
    })

  -- `load`, with the next value of `avail_pid`. `none` is a file that cannot be opened.
  unfoldable pub load : Before → ℕ → Option sc.File → Exit (ℕ × Pcb)
  load before avail_pid none = exits
  load before avail_pid (some file) = do
    proc ←
        load_code before avail_pid
          (numbers sc file (before.proc.priority ∷ before.proc.code.size ∷ []))
    done ((avail_pid + 1) % 2 ^ 32, proc)
